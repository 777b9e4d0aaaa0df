-- ===== src/Helper/Count/Answers.antt =====
-- What the tests of lib/helper.c that count rows return, and what marks a row as changed.
use cmdb.Base.{
  ℕ, ◌<◌, ◌^◌, ◌≡◌, refl, Option, none, some, [], ◌∷◌, ◌==◌, if◌then◌else◌, ℤ, pos, minus_one,
  is_ok, arith, length, int_of_size_small, suc, zero,
}
use cmdb.Data.{
  Text, DataList, lint, ailsa_no_data, cmdb_add_string_to_list, cmdb_add_number_to_list,
}
use cmdb.Query.{Database}
use cmdb.Tables.{
  fwd_zone_id_on_zone_name, rev_zone_id_on_range, record_id_on_host_zone_type, record_id_base,
  record_id_mx, record_id_srv, build_os_on_all, servers_with_builds_on_os_id,
}
use cmdb.Helper.Lookup.Answers.{ask}
use cmdb.Helper.Default.Answers.{argument, os_id_lem}
use cmdb.Helper.Several.{forward_zone, reverse_zone, master}
use cmdb.Helper.Several.Answers.{or_master, zone_id_lem}
use cmdb.Helper.Count.{
  cmdb_check_for_fwd_zone, cmdb_check_for_rev_zone, cmdb_check_for_fwd_record, cmdb_check_for_os,
  check_builds_for_os_id, set_db_row_updated,
}

-- The number of values that a query returned, or -1 where it failed.
abbrev pub counted : ℤ × DataList → ℤ
counted (retval, rows) = if is_ok retval then pos (length rows) else minus_one

abbrev zone_args : Text → Option Text → DataList
zone_args zone type = argument zone ∷ argument (or_master type) ∷ []

abbrev system_args : Text → Text → Text → DataList
system_args os arch version =
    argument os ∷ argument os ∷ argument version ∷ argument version ∷ argument arch ∷ []

module _ {Cmdb : Type 0} (db : Database Cmdb) (dc : Cmdb) where
  -- The tests for a forward and a reverse zone return the number of values in the answer of the
  -- query for its identifier, with "master" for an absent type, or -1 where the query fails. The
  -- answers are shorter than 2^31 values.
  pub zones_counted :
      (zone : Text) (type : Option Text)
      → length (db.ailsa_argument_query dc fwd_zone_id_on_zone_name (zone_args zone type)).1
        < 2 ^ 31
      → length (db.ailsa_argument_query dc rev_zone_id_on_range (zone_args zone type)).1 < 2 ^ 31
      → (cmdb_check_for_fwd_zone db (some dc) (some zone) type
          ≡ counted (db.ailsa_argument_query dc fwd_zone_id_on_zone_name (zone_args zone type)))
        × (cmdb_check_for_rev_zone db (some dc) (some zone) type
            ≡ counted (db.ailsa_argument_query dc rev_zone_id_on_range (zone_args zone type)))
  unfolding cmdb_check_for_fwd_zone cmdb_check_for_rev_zone
  zones_counted zone none h k = (
    rw (zone_id_lem db dc [] zone forward_zone (some master), int_of_size_small _ h),
    rw (zone_id_lem db dc [] zone reverse_zone (some master), int_of_size_small _ k),
  )
  zones_counted zone (some type) h k = (
    rw (zone_id_lem db dc [] zone forward_zone (some type), int_of_size_small _ h),
    rw (zone_id_lem db dc [] zone reverse_zone (some type), int_of_size_small _ k),
  )

  -- The query that finds a record given by `n` values: three for a host, a zone and a type, four
  -- with a destination, five for a mail exchanger, seven for a service.
  abbrev pub record_query_of : ℕ → Option ℕ
  record_query_of (suc (suc (suc zero))) = some record_id_on_host_zone_type
  record_query_of (suc (suc (suc (suc zero)))) = some record_id_base
  record_query_of (suc (suc (suc (suc (suc zero))))) = some record_id_mx
  record_query_of (suc (suc (suc (suc (suc (suc (suc zero))))))) = some record_id_srv
  record_query_of _ = none

  abbrev pub record_answer : DataList → Option ℕ → ℤ
  record_answer rec none = minus_one
  record_answer rec (some query) = counted (db.ailsa_argument_query dc query rec)

  -- For a record given by any number of values, the test asks the query of `record_query_of` with
  -- exactly these values and returns the number of values in the answer, -1 on an error; a list of
  -- any other length is -1 with no query. No query's answer reaches 2^31 values.
  pub records_counted :
      (rec : DataList)
      → ((query : ℕ) → length (db.ailsa_argument_query dc query rec).1 < 2 ^ 31)
      → cmdb_check_for_fwd_record db (some dc) (some rec)
        ≡ record_answer rec (record_query_of (length rec))
  unfolding cmdb_check_for_fwd_record
  records_counted [] h = refl
  records_counted (a ∷ []) h = refl
  records_counted (a ∷ b ∷ []) h = refl
  records_counted (a ∷ b ∷ c ∷ []) h = rw (int_of_size_small _ (h record_id_on_host_zone_type))
  records_counted (a ∷ b ∷ c ∷ d ∷ []) h = rw (int_of_size_small _ (h record_id_base))
  records_counted (a ∷ b ∷ c ∷ d ∷ e ∷ []) h = rw (int_of_size_small _ (h record_id_mx))
  records_counted (a ∷ b ∷ c ∷ d ∷ e ∷ f ∷ []) h = refl
  records_counted (a ∷ b ∷ c ∷ d ∷ e ∷ f ∷ g ∷ []) h = rw (int_of_size_small _ (h record_id_srv))
  records_counted (a ∷ b ∷ c ∷ d ∷ e ∷ f ∷ g ∷ i ∷ r) h = ground arith

  -- With all three names given, the test for an operating system returns the number of values in
  -- the answer for name, version and architecture, or -1 on an error. The answer is shorter than
  -- 2^31 values.
  pub systems_counted :
      (os arch version : Text)
      → length (db.ailsa_argument_query dc build_os_on_all (system_args os arch version)).1 < 2 ^ 31
      → cmdb_check_for_os db (some dc) (some os) (some arch) (some version)
        ≡ counted (db.ailsa_argument_query dc build_os_on_all (system_args os arch version))
  unfolding cmdb_check_for_os
  systems_counted os arch version h =
      rw (os_id_lem db dc [] (some os) (some version) (some arch), int_of_size_small _ h)

  abbrev pub updated : ℤ × Cmdb → ℤ × Option Cmdb
  updated (retval, dc') = (retval, some dc')

  -- To mark a row as changed is one update query, with the user, and the name of the row or, where
  -- there is no name, its number. For query 0, or with neither a name nor a number, nothing is
  -- updated and the code is AILSA_NO_DATA.
  pub set_db_row_updated_lem :
      (uid query : ℕ) (name : Text) (number : ℕ)
      → (set_db_row_updated db uid (some dc) (suc query) (some name) number
          ≡ updated (db.ailsa_update_query dc (suc query) (lint uid ∷ argument name ∷ [])))
        × (set_db_row_updated db uid (some dc) (suc query) none (suc number)
            ≡ updated (db.ailsa_update_query dc (suc query) (lint uid ∷ lint (suc number) ∷ [])))
        × (set_db_row_updated db uid (some dc) 0 (some name) number ≡ (ailsa_no_data, some dc))
        × (set_db_row_updated db uid (some dc) query none 0 ≡ (ailsa_no_data, some dc))
  unfolding set_db_row_updated cmdb_add_string_to_list cmdb_add_number_to_list
  set_db_row_updated_lem uid query name number = (ground arith, ground arith, refl, ground arith)

  -- The test whether an operating system is in use asks for the servers built with it, by its
  -- number, and appends their values to the list; the number 0 is refused.
  pub builds_lem :
      (id : ℕ) (list : DataList)
      → check_builds_for_os_id db (some dc) id (some list) ≡ (
          if id == 0
          then (ailsa_no_data, some list)
          else ask db dc servers_with_builds_on_os_id (lint id ∷ []) list)
  unfolding check_builds_for_os_id cmdb_add_number_to_list
  builds_lem id list = refl
