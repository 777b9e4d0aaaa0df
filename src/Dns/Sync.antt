-- ===== src/Dns/Sync.antt =====
-- src/zones.c: `build_reverse_zone`, which makes the records of a reverse zone those of its range.
use cmdb.Base.{
  ℕ, zero, suc, Option, some, List, [], ◌==◌, ◌||◌, if◌then◌else◌, ltb, ℤ, pos, is_ok, length,
}
use cmdb.Data.{Text, DataList, ailsa_no_data}
use cmdb.Query.{Database}
use cmdb.Tables.{
  prefix_on_net_range, rev_zone_id_on_range, full_rev_records, records_on_net_range,
  prefer_a_info_on_range, delete_reverse_record, insert_reverse_record, set_rev_zone_updated,
}
use cmdb.Helper.Several.{master, reverse_zone}
use cmdb.Net.{Inet, or_old, get_zone_index, get_range_search_string}
use cmdb.Zone.{string, number, ◌⨟◌}
use cmdb.Zone.Update.{cmdb_validate_zone}
use cmdb.Dns.Records.{
  ZoneRecord, Preferred, fill_rev_records, fill_fwd_records, fill_pref_records,
  cmdb_trim_record_list,
}
use cmdb.Dns.Reverse.{cmdb_records_to_remove, cmdb_records_to_add}
use cmdb.Dns.Steps.{
  CommLine, Changes, Got, got, stop, ◌>>=◌, coded, readable, coded_readable, first_text,
  first_number, ◌⇛◌, finish, given,
}

module _ {Cmdb : Type 0} (db : Database Cmdb) (inet : Inet) where
  module _ (dc : Cmdb) (range : Text) where
    -- The loops over the pieces of the zone, with the rounds left.
    unfoldable pub get_rev_records : ℕ → ℕ → List ZoneRecord → Got (List ZoneRecord)
    get_rev_records zero i r = got r
    get_rev_records (suc left) i r = do
      net ← coded ((string (some range) ⨟ number i) [])
      l ← coded (db.ailsa_argument_query dc full_rev_records net)
      r' ← readable (fill_rev_records l r i)
      get_rev_records left (suc i) r'

    unfoldable pub fwd_rounds : ℕ → ℕ → ℕ → List ZoneRecord → Got (List ZoneRecord)
    fwd_rounds prefix zero i r = got r
    fwd_rounds prefix (suc left) i r = do
      search ← coded (get_range_search_string inet (some range) prefix i)
      net ← coded (string search [])
      l ← coded (db.ailsa_argument_query dc records_on_net_range net)
      r' ← readable (fill_fwd_records l r i)
      fwd_rounds prefix left (suc i) r'

    unfoldable pub get_fwd_records : ℕ → Got (List ZoneRecord)
    unfolding fwd_rounds
    get_fwd_records prefix =
        if prefix == 0
        then stop ailsa_no_data
        else do index ← coded (get_zone_index prefix); fwd_rounds prefix (or_old 0 index) 0 []

    unfoldable pub pref_rounds : ℕ → ℕ → ℕ → List Preferred → Got (List Preferred)
    pref_rounds prefix zero i r = got r
    pref_rounds prefix (suc left) i r = do
      search ← coded (get_range_search_string inet (some range) prefix i)
      net ← coded (string search [])
      p ← coded (db.ailsa_argument_query dc prefer_a_info_on_range net)
      r' ← readable (fill_pref_records p r)
      pref_rounds prefix left (suc i) r'

    unfoldable pub get_pref_records : ℕ → Got (List Preferred)
    unfolding pref_rounds
    get_pref_records prefix = do
      index ← coded (get_zone_index prefix)
      pref_rounds prefix (or_old 0 index) 0 []

    -- What the database says of the zone, and the records to remove and to add.
    unfoldable pub planned : ℕ → Got (ℕ × DataList × DataList)
    planned uid = do
      net ← coded (string (some range) [])
      fix ← coded (db.ailsa_argument_query dc prefix_on_net_range net)
      digits ← first_text fix
      let prefix = inet.strtoul digits
      own ← coded (string (some master) net)
      ids ← coded (db.ailsa_argument_query dc rev_zone_id_on_range own)
      zone_id ← first_number ids
      index ← coded (get_zone_index prefix)
      rev ← get_rev_records (or_old 0 index) 0 []
      all ← get_fwd_records prefix
      pref ← get_pref_records prefix
      rec ← coded (cmdb_trim_record_list all pref)
      rem ← coded (cmdb_records_to_remove inet range prefix rec rev [])
      add ← coded_readable (cmdb_records_to_add inet range prefix uid zone_id rec rev [])
      got (prefix, rem, add)

  module _ (changes : Changes Cmdb) where
    -- The validation of a master zone, which is there.
    abbrev pub validated : Text → ℕ → Cmdb → ℤ × Cmdb
    validated range prefix c =
        let (retval, d) =
          cmdb_validate_zone db changes.files inet (some c) reverse_zone (some range) (some master)
            prefix in
        (retval, or_old c d)

    abbrev pub note_updated : ℕ → Text → Cmdb → ℤ × Cmdb
    note_updated uid range c =
        let (retval, net) = (number uid ⨟ string (some range)) [] in
        if is_ok retval then db.ailsa_update_query c set_rev_zone_updated net else (retval, c)

    -- The calls that change the database and the files, where there is a record to remove or to add.
    unfoldable pub applied : ℕ → Text → Cmdb → ℕ × DataList × DataList → ℤ × Cmdb
    applied uid range dc (prefix, rem, add) =
        if ltb 0 (length rem) || ltb 0 (length add)
        then ((if ltb 0 (length rem)
              then changes.ailsa_multiple_delete dc delete_reverse_record rem
              else (pos 0, dc))
            ⇛ (λ c.
                if ltb 0 (length add)
                then changes.ailsa_multiple_query c insert_reverse_record add
                else (pos 0, c))
            ⇛ note_updated uid range
            ⇛ validated range prefix
            ⇛ changes.reload)
        else (pos 0, dc)

    -- The zone of the command line. `uid` is what getuid() returns.
    unfoldable pub build_reverse_zone : ℕ → Option Cmdb → Option CommLine → Option (ℤ × Option Cmdb)
    build_reverse_zone uid (some dc) (some cm) =
        given dc cm.domain (λ range. finish dc (planned dc range uid) (applied uid range dc))
    build_reverse_zone uid dc _ = some (ailsa_no_data, dc)
