-- ===== src/Helper/Count.antt =====
-- lib/helper.c: the tests for zones, records and systems that count rows, and the note of who changed a row.
pub mod Answers
use cmdb.Base.{
  ℕ, Option, none, some, [], ◌&&◌, ◌||◌, ◌==◌, if◌then◌else◌, is_null, ℤ, pos, minus_one, is_ok,
  length, int_of_size,
}
use cmdb.Data.{Text, DataList, ailsa_no_data}
use cmdb.Query.{Database, Step, ◌>>◌, add_string, add_number, with_lists, argument_query, or_else}
use cmdb.Tables.{
  servers_with_builds_on_os_id, record_id_base, record_id_mx, record_id_srv,
  record_id_on_host_zone_type,
}
use cmdb.Helper.Default.{cmdb_add_os_id_to_list}
use cmdb.Helper.Several.{forward_zone, reverse_zone, master, cmdb_add_zone_id_to_list}

-- The code and the number of rows, of a query whose result list is local.
abbrev count_rows : ℤ × Option DataList → ℤ
count_rows (retval, l) = if is_ok retval then int_of_size (length (or_else [] l)) else minus_one

module _ {Cmdb : Type 0} (db : Database Cmdb) where
  open db use {ailsa_argument_query, ailsa_update_query}

  unfoldable pub cmdb_check_for_fwd_zone : Option Cmdb → Option Text → Option Text → ℤ
  cmdb_check_for_fwd_zone dc zone type =
      if is_null dc || is_null zone
      then ailsa_no_data
      else count_rows (
          cmdb_add_zone_id_to_list db zone forward_zone (if is_null type then some master else type)
            dc (some []))

  unfoldable pub cmdb_check_for_rev_zone : Option Cmdb → Option Text → Option Text → ℤ
  cmdb_check_for_rev_zone dc zone type =
      if is_null dc || is_null zone
      then ailsa_no_data
      else count_rows (
          cmdb_add_zone_id_to_list db zone reverse_zone (if is_null type then some master else type)
            dc (some []))

  -- The number of values in `rec` selects the query.
  record_query : Cmdb → DataList → ℕ → ℤ
  record_query c rec query =
      let (retval, rows) = ailsa_argument_query c query rec in count_rows (retval, some rows)

  unfoldable pub cmdb_check_for_fwd_record : Option Cmdb → Option DataList → ℤ
  unfolding record_query
  cmdb_check_for_fwd_record none rec = ailsa_no_data
  cmdb_check_for_fwd_record (some c) none = ailsa_no_data
  cmdb_check_for_fwd_record (some c) (some rec) =
      if length rec == 3
      then record_query c rec record_id_on_host_zone_type
      else if length rec == 4
      then record_query c rec record_id_base
      else if length rec == 5
      then record_query c rec record_id_mx
      else if length rec == 7
      then record_query c rec record_id_srv
      else minus_one

  -- A missing argument is reported as no such OS.
  unfoldable pub cmdb_check_for_os : Option Cmdb → Option Text → Option Text → Option Text → ℤ
  cmdb_check_for_os dc os arch version =
      if (is_null dc || is_null os) || (is_null arch || is_null version)
      then pos 0
      else count_rows (cmdb_add_os_id_to_list db (os, version, arch) dc (some []))

  unfoldable pub check_builds_for_os_id : Option Cmdb → ℕ → Option DataList → ℤ × Option DataList
  check_builds_for_os_id dc id list =
      if id == 0
      then (ailsa_no_data, list)
      else with_lists dc list λ c. add_number id >> argument_query db c servers_with_builds_on_os_id

  -- `uid` is what getuid() returns.
  unfoldable pub set_db_row_updated : ℕ → Option Cmdb → ℕ → Option Text → ℕ → ℤ × Option Cmdb
  set_db_row_updated uid none query name number = (ailsa_no_data, none)
  set_db_row_updated uid (some c) query name number =
      if query == 0 || (is_null name && number == 0)
      then (ailsa_no_data, some c)
      else let fill : Step =
          add_number uid >> (if is_null name then add_number number else add_string name) in
        let (retval, f) = fill (record { args = []; results = [] }) in
        if is_ok retval
        then (let (code, c') = ailsa_update_query c query f.args in (code, some c'))
        else (retval, some c)
