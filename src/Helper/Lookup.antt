-- ===== src/Helper/Lookup.antt =====
-- lib/helper.c: the look-ups of an identifier by one name.
pub mod Answers
use cmdb.Base.{Option, if◌then◌else◌, is_null, ℤ}
use cmdb.Data.{Text, DataList, ailsa_no_data}
use cmdb.Query.{Database, ◌>>◌, add_string, with_lists, argument_query}
use cmdb.Tables.{
  vm_server_id_on_name, server_id_on_name, hardware_type_id_on_class, service_type_id_on_service,
  bt_id_on_alias, system_package_id, system_script_id_on_name, build_id_on_server_name,
  disk_id_on_server_name, ip_id_on_server_name,
}

module _ {Cmdb : Type 0} (db : Database Cmdb) where
  unfoldable pub cmdb_add_hard_type_id_to_list :
      Option Text → Option Cmdb → Option DataList → ℤ × Option DataList
  cmdb_add_hard_type_id_to_list hclass dc list =
      if is_null hclass
      then (ailsa_no_data, list)
      else with_lists dc list
          (λ c. add_string hclass >> argument_query db c hardware_type_id_on_class)

  unfoldable pub cmdb_add_server_id_to_list :
      Option Text → Option Cmdb → Option DataList → ℤ × Option DataList
  cmdb_add_server_id_to_list name dc list =
      if is_null name
      then (ailsa_no_data, list)
      else with_lists dc list (λ c. add_string name >> argument_query db c server_id_on_name)

  unfoldable pub cmdb_add_service_type_id_to_list :
      Option Text → Option Cmdb → Option DataList → ℤ × Option DataList
  cmdb_add_service_type_id_to_list type dc list =
      if is_null type
      then (ailsa_no_data, list)
      else with_lists dc list
          (λ c. add_string type >> argument_query db c service_type_id_on_service)

  unfoldable pub cmdb_add_disk_dev_id_to_list :
      Option Text → Option Cmdb → Option DataList → ℤ × Option DataList
  cmdb_add_disk_dev_id_to_list server dc list =
      if is_null server
      then (ailsa_no_data, list)
      else with_lists dc list (λ c. add_string server >> argument_query db c disk_id_on_server_name)

  unfoldable pub cmdb_add_build_type_id_to_list :
      Option Text → Option Cmdb → Option DataList → ℤ × Option DataList
  cmdb_add_build_type_id_to_list alias dc list =
      if is_null alias
      then (ailsa_no_data, list)
      else with_lists dc list (λ c. add_string alias >> argument_query db c bt_id_on_alias)

  unfoldable pub cmdb_add_sys_pack_id_to_list :
      Option Text → Option Cmdb → Option DataList → ℤ × Option DataList
  cmdb_add_sys_pack_id_to_list pack dc list =
      if is_null pack
      then (ailsa_no_data, list)
      else with_lists dc list (λ c. add_string pack >> argument_query db c system_package_id)

  unfoldable pub cmdb_add_system_script_id_to_list :
      Option Text → Option Cmdb → Option DataList → ℤ × Option DataList
  cmdb_add_system_script_id_to_list name dc list =
      with_lists dc list (λ c. add_string name >> argument_query db c system_script_id_on_name)

  unfoldable pub cmdb_add_vm_server_id_to_list :
      Option Text → Option Cmdb → Option DataList → ℤ × Option DataList
  cmdb_add_vm_server_id_to_list name dc list =
      if is_null name
      then (ailsa_no_data, list)
      else with_lists dc list (λ c. add_string name >> argument_query db c vm_server_id_on_name)

  unfoldable pub cmdb_add_build_id_to_list :
      Option Text → Option Cmdb → Option DataList → ℤ × Option DataList
  cmdb_add_build_id_to_list server dc list =
      if is_null server
      then (ailsa_no_data, list)
      else with_lists dc list
          (λ c. add_string server >> argument_query db c build_id_on_server_name)

  unfoldable pub cmdb_add_ip_id_to_list :
      Option Text → Option Cmdb → Option DataList → ℤ × Option DataList
  cmdb_add_ip_id_to_list server dc list =
      if is_null server
      then (ailsa_no_data, list)
      else with_lists dc list (λ c. add_string server >> argument_query db c ip_id_on_server_name)

  unfoldable pub cmdb_add_disk_id_to_list :
      Option Text → Option Cmdb → Option DataList → ℤ × Option DataList
  cmdb_add_disk_id_to_list server dc list =
      if is_null server
      then (ailsa_no_data, list)
      else with_lists dc list (λ c. add_string server >> argument_query db c disk_id_on_server_name)
