-- ===== src/Helper/Several/Answers.antt =====
-- What the look-ups with several arguments return, for every answer of the database.
use cmdb.Base.{
  ℕ, ◌≡◌, refl, Option, none, some, [], ◌∷◌, ◌++◌, List, Bool, true, false, ◌==◌, if◌then◌else◌, ℤ,
  pos, is_ok, arith, length, length-append,
}
use cmdb.Data.{Text, DataList, ailsa_no_data, cmdb_add_string_to_list}
use cmdb.Query.{Database}
use cmdb.Tables.{
  fwd_zone_id_on_zone_name, rev_zone_id_on_range, os_alias_on_os_name, partition_id_on_seed_mount,
  system_package_arg_id,
}
use cmdb.Helper.Lookup.Answers.{ask}
use cmdb.Helper.Default.Answers.{argument}
use cmdb.Helper.Several.{
  forward_zone, reverse_zone, ailsa_wrong_zone_type, ailsa_no_os, master, cmdb_add_zone_id_to_list,
  cmdb_add_os_alias_to_list, cmdb_add_default_part_id_to_list, cmdb_add_sys_pack_arg_id_to_list,
}

abbrev pub or_master : Option Text → Text
or_master none = master
or_master (some ztype) = ztype

abbrev pub is_empty {ℓ} : {A : Type ℓ} → List A → Bool
is_empty [] = true
is_empty (x ∷ xs) = false

length-append-eq {ℓ} :
    {A : Type ℓ} (xs ys : List A) → (length (xs ++ ys) == length xs) ≡ is_empty ys
length-append-eq xs [] = ground (arith, length-append xs [])
length-append-eq xs (y ∷ ys) = ground (arith, length-append xs (y ∷ ys))

module _ {Cmdb : Type 0} (db : Database Cmdb) (dc : Cmdb) (list : DataList) where
  -- A forward zone is looked up by its name and a reverse zone by its range, each with the zone
  -- type, which is "master" where none is given; any other kind of zone is AILSA_WRONG_ZONE_TYPE
  -- and leaves the list alone.
  pub zone_id_lem :
      (zone : Text) (type : ℕ) (ztype : Option Text)
      → let args = argument zone ∷ argument (or_master ztype) ∷ [] in
        cmdb_add_zone_id_to_list db (some zone) type ztype (some dc) (some list) ≡ (
          if type == forward_zone
          then ask db dc fwd_zone_id_on_zone_name args list
          else if type == reverse_zone
          then ask db dc rev_zone_id_on_range args list
          else (ailsa_wrong_zone_type, some list))
  unfolding cmdb_add_zone_id_to_list cmdb_add_string_to_list
  zone_id_lem zone type none = ground arith
  zone_id_lem zone type (some ztype) = ground arith

  -- The answer of the query for the alias of a system: no rows are AILSA_NO_OS.
  abbrev pub alias_answer : ℤ × DataList → ℤ × Option DataList
  alias_answer (retval, rows) = (
    if is_ok retval then (if is_empty rows then ailsa_no_os else pos 0) else retval,
    some (list ++ rows),
  )

  -- The alias of an operating system: the rows of the answer go behind the list, an error of the
  -- query comes back, and an answer with code 0 and no rows is AILSA_NO_OS.
  pub os_alias_lem :
      (os : Text)
      → cmdb_add_os_alias_to_list db (some os) (some dc) (some list)
        ≡ alias_answer (db.ailsa_argument_query dc os_alias_on_os_name (argument os ∷ []))
  unfolding cmdb_add_os_alias_to_list cmdb_add_string_to_list
  os_alias_lem os =
      let (retval, rows) = db.ailsa_argument_query dc os_alias_on_os_name (argument os ∷ []) in
      ground (arith, length-append-eq list rows)

  -- The look-ups of a partition and of a package's field put their two strings into the query in
  -- the order of the array, and refuse a missing one with AILSA_NO_DATA and no query.
  abbrev pub two_answer : ℕ → Option Text → Option Text → ℤ × Option DataList
  two_answer query (some first) (some second) =
      ask db dc query (argument first ∷ argument second ∷ []) list
  two_answer query _ _ = (ailsa_no_data, some list)

  -- For every array of two strings, present or absent, the look-ups of a partition and of a
  -- package's field answer as `two_answer` says for their queries.
  pub two_arguments_lem :
      (first second : Option Text)
      → (cmdb_add_default_part_id_to_list db (some (first, second)) (some dc) (some list)
          ≡ two_answer partition_id_on_seed_mount first second)
        × (cmdb_add_sys_pack_arg_id_to_list db (first, second) (some dc) (some list)
            ≡ two_answer system_package_arg_id first second)
  unfolding cmdb_add_default_part_id_to_list cmdb_add_sys_pack_arg_id_to_list
      cmdb_add_string_to_list
  two_arguments_lem none none = (refl, refl)
  two_arguments_lem none (some second) = (refl, refl)
  two_arguments_lem (some first) none = (refl, refl)
  two_arguments_lem (some first) (some second) = (refl, refl)
