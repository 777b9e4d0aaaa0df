-- ===== src/Helper/Lookup/Answers.antt =====
-- What the look-ups of lib/helper.c return, for every answer of the database.
use cmdb.Base.{◌≡◌, refl, Option, some, [], ◌∷◌, ◌++◌, true, ◌||◌, ℕ, is_null, ℤ, arith}
use cmdb.Data.{Text, DataList, text, strndup, config_len, ailsa_no_data, cmdb_add_string_to_list}
use cmdb.Query.{Database}
use cmdb.Tables.{
  bt_id_on_alias, build_id_on_server_name, disk_id_on_server_name, hardware_type_id_on_class,
  ip_id_on_server_name, server_id_on_name, service_type_id_on_service, system_package_id,
  system_script_id_on_name, vm_server_id_on_name,
}
use cmdb.Helper.Lookup.{
  cmdb_add_hard_type_id_to_list, cmdb_add_server_id_to_list, cmdb_add_service_type_id_to_list,
  cmdb_add_disk_dev_id_to_list, cmdb_add_build_type_id_to_list, cmdb_add_sys_pack_id_to_list,
  cmdb_add_system_script_id_to_list, cmdb_add_vm_server_id_to_list, cmdb_add_build_id_to_list,
  cmdb_add_ip_id_to_list, cmdb_add_disk_id_to_list,
}

-- The code and the rows of a query, the rows behind what the list of the caller held.
abbrev pub append_rows : DataList → ℤ × DataList → ℤ × Option DataList
append_rows list (retval, rows) = (retval, some (list ++ rows))

module _ {Cmdb : Type 0} (db : Database Cmdb) where
  abbrev pub ask : Cmdb → ℕ → DataList → DataList → ℤ × Option DataList
  ask dc query args list = append_rows list (db.ailsa_argument_query dc query args)

  -- Each of the eleven look-ups by one name asks the query of its own kind, with the first 256
  -- bytes of the name as the only argument, returns the code of the query, and leaves in the list
  -- of the caller what was there, with the rows of the answer behind it.
  pub lookups_ask :
      (name : Text) (dc : Cmdb) (list : DataList)
      → let args = text (strndup name config_len) ∷ [] in
        (cmdb_add_hard_type_id_to_list db (some name) (some dc) (some list)
          ≡ ask dc hardware_type_id_on_class args list)
        × (cmdb_add_server_id_to_list db (some name) (some dc) (some list)
            ≡ ask dc server_id_on_name args list)
        × (cmdb_add_service_type_id_to_list db (some name) (some dc) (some list)
            ≡ ask dc service_type_id_on_service args list)
        × (cmdb_add_disk_dev_id_to_list db (some name) (some dc) (some list)
            ≡ ask dc disk_id_on_server_name args list)
        × (cmdb_add_build_type_id_to_list db (some name) (some dc) (some list)
            ≡ ask dc bt_id_on_alias args list)
        × (cmdb_add_sys_pack_id_to_list db (some name) (some dc) (some list)
            ≡ ask dc system_package_id args list)
        × (cmdb_add_system_script_id_to_list db (some name) (some dc) (some list)
            ≡ ask dc system_script_id_on_name args list)
        × (cmdb_add_vm_server_id_to_list db (some name) (some dc) (some list)
            ≡ ask dc vm_server_id_on_name args list)
        × (cmdb_add_build_id_to_list db (some name) (some dc) (some list)
            ≡ ask dc build_id_on_server_name args list)
        × (cmdb_add_ip_id_to_list db (some name) (some dc) (some list)
            ≡ ask dc ip_id_on_server_name args list)
        × (cmdb_add_disk_id_to_list db (some name) (some dc) (some list)
            ≡ ask dc disk_id_on_server_name args list)
  unfolding cmdb_add_hard_type_id_to_list cmdb_add_server_id_to_list
      cmdb_add_service_type_id_to_list cmdb_add_disk_dev_id_to_list cmdb_add_build_type_id_to_list
      cmdb_add_sys_pack_id_to_list cmdb_add_system_script_id_to_list cmdb_add_vm_server_id_to_list
      cmdb_add_build_id_to_list cmdb_add_ip_id_to_list cmdb_add_disk_id_to_list
      cmdb_add_string_to_list
  lookups_ask name dc list = (refl, refl, refl, refl, refl, refl, refl, refl, refl, refl, refl)

  -- Where the name, the connection or the list is NULL, each of the eleven look-ups returns
  -- AILSA_NO_DATA, asks nothing and leaves the list alone.
  pub lookups_refuse :
      (name : Option Text) (dc : Option Cmdb) (list : Option DataList)
      → (is_null name || (is_null dc || is_null list)) ≡ true
      → (cmdb_add_hard_type_id_to_list db name dc list ≡ (ailsa_no_data, list))
        × (cmdb_add_server_id_to_list db name dc list ≡ (ailsa_no_data, list))
        × (cmdb_add_service_type_id_to_list db name dc list ≡ (ailsa_no_data, list))
        × (cmdb_add_disk_dev_id_to_list db name dc list ≡ (ailsa_no_data, list))
        × (cmdb_add_build_type_id_to_list db name dc list ≡ (ailsa_no_data, list))
        × (cmdb_add_sys_pack_id_to_list db name dc list ≡ (ailsa_no_data, list))
        × (cmdb_add_system_script_id_to_list db name dc list ≡ (ailsa_no_data, list))
        × (cmdb_add_vm_server_id_to_list db name dc list ≡ (ailsa_no_data, list))
        × (cmdb_add_build_id_to_list db name dc list ≡ (ailsa_no_data, list))
        × (cmdb_add_ip_id_to_list db name dc list ≡ (ailsa_no_data, list))
        × (cmdb_add_disk_id_to_list db name dc list ≡ (ailsa_no_data, list))
  unfolding cmdb_add_hard_type_id_to_list cmdb_add_server_id_to_list
      cmdb_add_service_type_id_to_list cmdb_add_disk_dev_id_to_list cmdb_add_build_type_id_to_list
      cmdb_add_sys_pack_id_to_list cmdb_add_system_script_id_to_list cmdb_add_vm_server_id_to_list
      cmdb_add_build_id_to_list cmdb_add_ip_id_to_list cmdb_add_disk_id_to_list
      cmdb_add_string_to_list
  lookups_refuse name dc list h = ground arith
