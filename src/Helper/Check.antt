-- ===== src/Helper/Check.antt =====
-- lib/helper.c: the look-ups that must find exactly one row.
pub mod Answers
use cmdb.Base.{
  ℕ, ◌+◌, Option, none, some, ◌||◌, ◌==◌, if◌then◌else◌, is_null, ℤ, pos, is_ok, length,
}
use cmdb.Data.{Text, DataList, ailsa_no_data}
use cmdb.Query.{Database, ◌>>◌, add_string, with_lists, argument_query, or_else}
use cmdb.Tables.{identity_id_on_server_user}
use cmdb.Helper.Lookup.{
  cmdb_add_server_id_to_list, cmdb_add_ip_id_to_list, cmdb_add_vm_server_id_to_list,
}
use cmdb.Helper.Default.{
  cmdb_add_cust_id_to_list, cmdb_add_varient_id_to_list, cmdb_add_scheme_id_to_list,
}
use cmdb.Helper.Several.{Pair, cmdb_add_zone_id_to_list}

abbrev pub ailsa_server_not_found : ℤ
ailsa_server_not_found = pos 700

abbrev pub ailsa_customer_not_found : ℤ
ailsa_customer_not_found = pos 701

abbrev pub ailsa_zone_not_found : ℤ
ailsa_zone_not_found = pos 702

abbrev pub ailsa_build_ip_not_found : ℤ
ailsa_build_ip_not_found = pos 703

abbrev pub ailsa_varient_not_found : ℤ
ailsa_varient_not_found = pos 704

abbrev pub cannot_find_identity_id : ℤ
cannot_find_identity_id = pos 225

abbrev pub ailsa_no_scheme : ℤ
ailsa_no_scheme = pos 237

abbrev pub ailsa_no_vm_host : ℤ
ailsa_no_vm_host = pos 239

-- A look-up, and the check behind it that it made the list longer by exactly one.
abbrev pub check_one :
    {Cmdb : Type 0}
    → ℤ
    → (Option DataList → ℤ × Option DataList)
    → Option Cmdb
    → Option DataList
    → ℤ × Option DataList
check_one code find none list = (ailsa_no_data, list)
check_one code find (some dc) none = (ailsa_no_data, none)
check_one code find (some dc) (some list) =
    let (retval, l) = find (some list) in
    if is_ok retval
    then (if length (or_else list l) == length list + 1 then retval else code, l)
    else (retval, l)

module _ {Cmdb : Type 0} (db : Database Cmdb) where
  unfoldable pub cmdb_check_add_server_id_to_list :
      Option Text → Option Cmdb → Option DataList → ℤ × Option DataList
  cmdb_check_add_server_id_to_list server dc list =
      if is_null server
      then (ailsa_no_data, list)
      else check_one ailsa_server_not_found (cmdb_add_server_id_to_list db server dc) dc list

  unfoldable pub cmdb_check_add_cust_id_to_list :
      Option Text → Option Cmdb → Option DataList → ℤ × Option DataList
  cmdb_check_add_cust_id_to_list coid dc list =
      check_one ailsa_customer_not_found (cmdb_add_cust_id_to_list db coid dc) dc list

  unfoldable pub cmdb_check_add_varient_id_to_list :
      Option Text → Option Cmdb → Option DataList → ℤ × Option DataList
  cmdb_check_add_varient_id_to_list varient dc list =
      check_one ailsa_varient_not_found (cmdb_add_varient_id_to_list db varient dc) dc list

  unfoldable pub cmdb_check_add_ip_id_to_list :
      Option Text → Option Cmdb → Option DataList → ℤ × Option DataList
  cmdb_check_add_ip_id_to_list host dc list =
      if is_null host
      then (ailsa_no_data, list)
      else check_one ailsa_build_ip_not_found (cmdb_add_ip_id_to_list db host dc) dc list

  unfoldable pub cmdb_check_add_scheme_id_to_list :
      Option Text → Option Cmdb → Option DataList → ℤ × Option DataList
  cmdb_check_add_scheme_id_to_list scheme dc list =
      if is_null scheme
      then (ailsa_no_data, list)
      else check_one ailsa_no_scheme (cmdb_add_scheme_id_to_list db scheme dc) dc list

  unfoldable pub cmdb_check_add_vm_id_to_list :
      Option Text → Option Cmdb → Option DataList → ℤ × Option DataList
  cmdb_check_add_vm_id_to_list vm dc list =
      if is_null vm
      then (ailsa_no_data, list)
      else check_one ailsa_no_vm_host (cmdb_add_vm_server_id_to_list db vm dc) dc list

  unfoldable pub cmdb_check_add_zone_id_to_list :
      Option Text → ℕ → Option Text → Option Cmdb → Option DataList → ℤ × Option DataList
  cmdb_check_add_zone_id_to_list zone type ztype dc list =
      if is_null zone || type == 0
      then (ailsa_no_data, list)
      else check_one ailsa_zone_not_found (cmdb_add_zone_id_to_list db zone type ztype dc) dc list

  -- `ident` holds the server and the user. The identifier of the server is the first argument of
  -- the query.
  unfoldable pub cmdb_add_identity_id_to_list :
      Pair → Option Cmdb → Option DataList → ℤ × Option DataList
  cmdb_add_identity_id_to_list none dc list = (ailsa_no_data, list)
  cmdb_add_identity_id_to_list (some (server, user)) dc list = with_lists dc list λ c.
      (λ f.
        let (retval, l) = cmdb_check_add_server_id_to_list server (some c) (some f.args) in
        (retval, record f { args = or_else f.args l }))
      >> add_string user
      >> argument_query db c identity_id_on_server_user

  unfoldable pub cmdb_check_add_identity_id_to_list :
      Pair → Option Cmdb → Option DataList → ℤ × Option DataList
  cmdb_check_add_identity_id_to_list ident dc list =
      if is_null ident
      then (ailsa_no_data, list)
      else check_one cannot_find_identity_id (cmdb_add_identity_id_to_list ident dc) dc list
