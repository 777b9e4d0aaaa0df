-- ===== src/Helper/Several.antt =====
-- lib/helper.c: the look-ups with several arguments, or with a check behind them.
pub mod Answers
use cmdb.Base.{ℕ, Option, none, some, [], ◌==◌, if◌then◌else◌, is_null, ℤ, pos, length}
use cmdb.Data.{Text, codes, DataList, ailsa_no_data}
use cmdb.Query.{Database, ◌>>◌, add_string, with_lists, argument_query, or_else}
use cmdb.Tables.{
  partition_id_on_seed_mount, fwd_zone_id_on_zone_name, rev_zone_id_on_range, system_package_arg_id,
  os_alias_on_os_name,
}

abbrev pub forward_zone : ℕ
forward_zone = 1

abbrev pub reverse_zone : ℕ
reverse_zone = 2

abbrev pub ailsa_wrong_zone_type : ℤ
ailsa_wrong_zone_type = pos 227

abbrev pub ailsa_no_os : ℤ
ailsa_no_os = pos 217

abbrev pub master : Text
master = codes "master"

-- `char **` of two strings, or NULL.
abbrev pub Pair : Type 0
Pair = Option (Option Text × Option Text)

module _ {Cmdb : Type 0} (db : Database Cmdb) where
  unfoldable pub cmdb_add_default_part_id_to_list :
      Pair → Option Cmdb → Option DataList → ℤ × Option DataList
  cmdb_add_default_part_id_to_list none dc list = (ailsa_no_data, list)
  cmdb_add_default_part_id_to_list (some (scheme, partition)) dc list = with_lists dc list λ c.
      add_string scheme >> add_string partition >> argument_query db c partition_id_on_seed_mount

  -- The array of this function is dereferenced with no check: it is never NULL.
  unfoldable pub cmdb_add_sys_pack_arg_id_to_list :
      Option Text × Option Text → Option Cmdb → Option DataList → ℤ × Option DataList
  cmdb_add_sys_pack_arg_id_to_list (name, field) dc list =
      with_lists dc list
        λ c. add_string name >> add_string field >> argument_query db c system_package_arg_id

  unfoldable pub cmdb_add_os_alias_to_list :
      Option Text → Option Cmdb → Option DataList → ℤ × Option DataList
  cmdb_add_os_alias_to_list os dc list =
      if is_null os
      then (ailsa_no_data, list)
      else with_lists dc list λ c.
        add_string os
        >> argument_query db c os_alias_on_os_name
        >> (λ f. (if length f.results == length (or_else [] list) then ailsa_no_os else pos 0, f))

  -- A zone type other than the two is refused behind the insertion of the arguments.
  unfoldable pub cmdb_add_zone_id_to_list :
      Option Text → ℕ → Option Text → Option Cmdb → Option DataList → ℤ × Option DataList
  cmdb_add_zone_id_to_list zone type ztype dc list =
      if is_null zone
      then (ailsa_no_data, list)
      else with_lists dc list λ c.
        add_string zone
        >> add_string (if is_null ztype then some master else ztype)
        >> (if type == forward_zone
            then argument_query db c fwd_zone_id_on_zone_name
            else if type == reverse_zone
            then argument_query db c rev_zone_id_on_range
            else (λ f. (ailsa_wrong_zone_type, f)))
