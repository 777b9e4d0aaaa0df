-- ===== src/Dns/Host.antt =====
-- src/zones.c: the addition and the removal of a record of a forward zone.
use cmdb.Base.{
  ℕ, Bool, Option, none, some, [], ◌∷◌, ◌||◌, ◌==◌, if◌then◌else◌, is_null, ℤ, pos, is_ok, length,
}
use cmdb.Data.{Text, codes, same_text, DataList, ailsa_no_data}
use cmdb.Query.{Database}
use cmdb.Tables.{
  insert_record_base, insert_record_mx, insert_record_srv, set_fwd_zone_updated_on_name,
  record_id_on_host_zone_type, record_in_on_pri, record_in_on_protocol, delete_rec_type_host,
  delete_rec_pri, delete_rec_proto, delete_pref_a,
}
use cmdb.Helper.Several.{forward_zone, master}
use cmdb.Helper.Check.{cmdb_check_add_zone_id_to_list}
use cmdb.Helper.Count.{cmdb_check_for_fwd_record, set_db_row_updated}
use cmdb.Sql.Lite.{is_positive}
use cmdb.Sql.Multi.{ailsa_wrong_list_lenght}
use cmdb.Zone.{Add, string, number, cuser_muser, ◌⨟◌}
use cmdb.Build.Address.{is_negative}
use cmdb.Dns.Steps.{
  CommLine, Changes, Got, got, stop, ◌>>=◌, coded, looked_up, still_there, ◌⇛◌, finish,
}

-- `strcmp(rtype, type) == 0`; where the type is NULL the first insertion has failed.
abbrev pub is_rtype : Option Text → Text → Bool
is_rtype none type = Bool.false
is_rtype (some t) type = same_text t type

abbrev pub unchanged : Add
unchanged list = (pos 0, list)

unfoldable pub dnsa_populate_record : CommLine → Add
dnsa_populate_record dcl =
    string dcl.rtype
    ⨟ string dcl.host
    ⨟ string dcl.dest
    ⨟ (if is_rtype dcl.rtype (codes "MX") || is_rtype dcl.rtype (codes "SRV")
        then number dcl.prefix
        else unchanged)
    ⨟ (if is_rtype dcl.rtype (codes "SRV")
        then (string dcl.protocol ⨟ string dcl.service)
        else unchanged)

-- By what the test for the record says.
abbrev pub absent : ℤ → Got (Unit {0})
absent count =
    if is_negative count then stop count else if is_positive count then stop (pos 0) else got tt

-- The statement, by the number of values.
abbrev pub insert_for : ℕ → Got ℕ
insert_for total =
    if total == 6
    then got insert_record_base
    else if total == 7
    then got insert_record_mx
    else if total == 9
    then got insert_record_srv
    else stop ailsa_wrong_list_lenght

-- The query and the deletion, by the number of values.
abbrev pub delete_for : ℕ → Got (ℕ × ℕ)
delete_for total =
    if total == 3
    then got (record_id_on_host_zone_type, delete_rec_type_host)
    else if total == 4
    then got (record_in_on_pri, delete_rec_pri)
    else if total == 6
    then got (record_in_on_protocol, delete_rec_proto)
    else stop ailsa_wrong_list_lenght

abbrev pub some_rows : DataList → Got (Unit {0})
some_rows [] = stop (pos 0)
some_rows (_ ∷ _) = got tt

-- The identifier of the master zone with this name.
unfoldable pub zone_id_of : {Cmdb : Type 0} → Database Cmdb → Cmdb → Option Text → Add
zone_id_of db dc domain =
    looked_up (cmdb_check_add_zone_id_to_list db domain forward_zone (some master) (some dc))

module _ {Cmdb : Type 0} (db : Database Cmdb) (changes : Changes Cmdb) (uid : ℕ) where
  abbrev pub mark_zone : Option Text → Cmdb → ℤ × Cmdb
  mark_zone domain c =
      still_there c (set_db_row_updated db uid (some c) set_fwd_zone_updated_on_name domain 0)

  -- The statement and the row for it.
  unfoldable pub host_row : Cmdb → CommLine → Got (ℕ × DataList)
  host_row dc cm = do
    zone ← coded (zone_id_of db dc cm.domain [])
    rec ← coded (dnsa_populate_record cm zone)
    _ ← absent (cmdb_check_for_fwd_record db (some dc) (some rec))
    row ← coded (cuser_muser uid rec)
    query ← insert_for (length row)
    got (query, row)

  abbrev pub insert_host : Cmdb → Option Text → ℕ × DataList → ℤ × Cmdb
  insert_host dc domain (query, row) = changes.ailsa_insert_query dc query row ⇛ mark_zone domain

  unfoldable pub add_host : Option Cmdb → Option CommLine → Option (ℤ × Option Cmdb)
  add_host (some dc) (some cm) = finish dc (host_row dc cm) (insert_host dc cm.domain)
  add_host dc _ = some (ailsa_no_data, dc)

  abbrev pub record_key : CommLine → Add
  record_key cm =
      string cm.rtype
      ⨟ string cm.host
      ⨟ (if cm.prefix == 0 then unchanged else number cm.prefix)
      ⨟ (if is_null cm.protocol then unchanged else (string cm.protocol ⨟ string cm.service))

  -- The deletion and its arguments, where there is a record to delete.
  unfoldable pub doomed : Cmdb → CommLine → Got (ℕ × DataList)
  doomed dc cm = do
    zone ← coded (zone_id_of db dc cm.domain [])
    rec ← coded (record_key cm zone)
    queries ← delete_for (length rec)
    list ← coded (db.ailsa_argument_query dc queries.0 rec)
    _ ← some_rows list
    got (queries.1, rec)

  -- The zone is marked also where the deletion fails, and the code is that of the mark.
  abbrev pub delete_doomed : Cmdb → Option Text → ℕ × DataList → ℤ × Cmdb
  delete_doomed dc domain (query, rec) =
      let (retval, c) = changes.ailsa_delete_query dc query rec in mark_zone domain c

  unfoldable pub delete_record : Option Cmdb → Option CommLine → Option (ℤ × Option Cmdb)
  delete_record (some dc) (some cm) = finish dc (doomed dc cm) (delete_doomed dc cm.domain)
  delete_record dc _ = some (ailsa_no_data, dc)

  unfoldable pub delete_preferred_a : Option Cmdb → Option CommLine → ℤ × Option Cmdb
  delete_preferred_a (some dc) (some cm) =
      let (retval, l) = string cm.dest [] in
      let (code, c) = changes.ailsa_delete_query dc delete_pref_a l in
      if is_ok retval then (code, some c) else (retval, some dc)
  delete_preferred_a dc _ = (ailsa_no_data, dc)
