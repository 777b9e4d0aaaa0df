-- ===== src/Dns/Records.antt =====
-- src/zones.c: the records of zones as the synchronisation of a reverse zone reads them. `none` is a
-- list with a value of another kind, or none, where the code reads one.
use cmdb.Base.{
  ℕ, Bool, not, ◌&&◌, Option, none, some, List, [], ◌∷◌, ◌++◌, ◌==◌, if◌then◌else◌, ℤ, pos, length,
  take,
}
use cmdb.Data.{Text, codes, same_text, strndup, DataList, text, lint}
use cmdb.Data.Partition.{domain_len}
use cmdb.Zone.Update.{byte_len}

abbrev pub host_len : ℕ
host_len = 64

-- `ailsa_record_s`: the domain of a reverse record is NULL, the zone of a forward record 0.
pub record ZoneRecord : Type 0 where
  pub host : Text
  pub dest : Text
  pub domain : Option Text
  pub id : ℕ
  pub zone : ℕ
  pub index : ℕ

-- `ailsa_preferred_s`, less the two fields that nothing here sets.
pub record Preferred : Type 0 where
  pub ip : Text
  pub fqdn : Text
  pub record_id : ℕ

-- `strncmp(s, t, n) == 0`
abbrev pub same_start : ℕ → Text → Text → Bool
same_start n s t = same_text (take n s) (take n t)

unfoldable pub fill_rev_records : DataList → List ZoneRecord → ℕ → Option (List ZoneRecord)
fill_rev_records [] rev index = some rev
fill_rev_records (text host ∷ text dest ∷ lint id ∷ lint zone ∷ list) rev index =
    fill_rev_records list
      (rev
        ++ (record {
          host = strndup host host_len;
          dest = strndup dest domain_len;
          domain = none;
          id = id;
          zone = zone;
          index = index;
        }
            ∷ []))
      index
fill_rev_records _ rev index = none

unfoldable pub fill_fwd_records : DataList → List ZoneRecord → ℕ → Option (List ZoneRecord)
fill_fwd_records [] rec index = some rec
fill_fwd_records (text dest ∷ lint id ∷ text host ∷ text domain ∷ list) rec index =
    fill_fwd_records list
      (rec
        ++ (record {
          host = strndup host domain_len;
          dest = strndup dest domain_len;
          domain = some (strndup domain domain_len);
          id = id;
          zone = 0;
          index = index;
        }
            ∷ []))
      index
fill_fwd_records _ rec index = none

unfoldable pub fill_pref_records : DataList → List Preferred → Option (List Preferred)
fill_pref_records [] pref = some pref
fill_pref_records (text ip ∷ text fqdn ∷ lint id ∷ list) pref = fill_pref_records list (
    pref
    ++ (record { ip = strndup ip host_len; fqdn = strndup fqdn domain_len; record_id = id } ∷ []))
fill_pref_records _ pref = none

-- The record has the address of the preferred one, and is another.
abbrev pub conflicts : Preferred → ZoneRecord → Bool
conflicts pref rec = same_start domain_len pref.ip rec.dest && not (rec.id == pref.record_id)

-- The loop over the records for one preferred record: those that conflict are removed.
unfoldable pub trim_rounds : Preferred → List ZoneRecord → List ZoneRecord
trim_rounds pref [] = []
trim_rounds pref (rec ∷ recs) =
    let rest = trim_rounds pref recs in if conflicts pref rec then rest else rec ∷ rest

unfoldable pub trim_all : List Preferred → List ZoneRecord → List ZoneRecord
unfolding trim_rounds
trim_all [] recs = recs
trim_all (pref ∷ prefs) recs = trim_all prefs (trim_rounds pref recs)

-- The lists are there, and that of the records has its destroy function.
unfoldable pub cmdb_trim_record_list : List ZoneRecord → List Preferred → ℤ × List ZoneRecord
unfolding trim_all
cmdb_trim_record_list r p =
    if length r == 0
    then (pos 0, r)
    else if length p == 0
    then (pos 0, r)
    else (pos 0, trim_all p r)

-- What `%s` prints for NULL.
abbrev printed : Option Text → Text
printed none = codes "(null)"
printed (some t) = t

-- The name that a reverse record has to point to, in a buffer of DOMAIN_LEN.
abbrev pub fqdn_of : ZoneRecord → Text
fqdn_of forward = take 255 (
    if same_start byte_len forward.host (codes "@")
    then printed forward.domain ++ codes "."
    else forward.host ++ (codes "." ++ (printed forward.domain ++ codes ".")))
