-- ===== src/Dns/Glue.antt =====
-- src/zones.c: the delegation of a zone to the name servers of its own, in the zone above it.
use cmdb.Base.{ℕ, Option, none, some, [], ◌∷◌, if◌then◌else◌, ℤ, pos, is_ok}
use cmdb.Data.{Text, codes, text, lint, DataList, strndup, ailsa_no_data}
use cmdb.Data.Growing.{file_len}
use cmdb.Data.Partition.{domain_len}
use cmdb.Query.{Database}
use cmdb.Tables.{
  insert_glue_zone, parent_zone_id_on_glue_zone, delete_glue_zone, set_fwd_zone_updated,
}
use cmdb.Helper.Count.{set_db_row_updated}
use cmdb.Net.{split_at, dot}
use cmdb.Zone.{Add, string, cuser_muser, ◌⨟◌}
use cmdb.Zone.Resolve.{Resolver, cmdb_getaddrinfo}
use cmdb.Zone.Update.{byte_len}
use cmdb.Dns.Records.{same_start}
use cmdb.Dns.Host.{zone_id_of, mark_zone}
use cmdb.Dns.Steps.{
  CommLine, Changes, Got, got, stop, fault, ◌>>=◌, coded, still_there, ◌⇛◌, finish,
}

abbrev pub ailsa_cannot_get_parent : ℤ
ailsa_cannot_get_parent = pos 212

abbrev pub comma : ℕ
comma = 44

abbrev pub none_text : Option Text
none_text = some (codes "none")

-- The text up to the next comma, if there is one: `*ptr = '\0'`.
abbrev pub up_to_comma : Text → Option (Text × Text) → Text
up_to_comma t none = t
up_to_comma t (some (a, b)) = a

-- The second name server, or "none".
abbrev pub second_ns : Option (Text × Text) → Option Text
second_ns none = none_text
second_ns (some (a, b)) = some (up_to_comma b (split_at comma b))

unfoldable pub dnsa_split_glue_ns : Option Text → Add
dnsa_split_glue_ns none l = (ailsa_no_data, l)
dnsa_split_glue_ns (some ns) l =
    let tmp = strndup ns file_len in
    (string (some (up_to_comma tmp (split_at comma tmp))) ⨟ string (second_ns (split_at comma tmp)))
      l

-- The rest behind the first comma: `ptr = '\0'` does not cut it at the next one.
abbrev pub second_ip : Option (Text × Text) → Option Text
second_ip none = none_text
second_ip (some (a, b)) = some b

unfoldable pub dnsa_split_glue_ip : Option Text → Add
dnsa_split_glue_ip none list = (ailsa_no_data, list)
dnsa_split_glue_ip (some ip) list =
    let tmp = strndup ip domain_len in
    (string (some (up_to_comma tmp (split_at comma tmp))) ⨟ string (second_ip (split_at comma tmp)))
      list

abbrev pub resolved : Resolver → Text → Add
resolved getaddrinfo name list =
    let (retval, ip, type) = cmdb_getaddrinfo getaddrinfo name in
    if is_ok retval then string (some ip) list else (retval, list)

-- The name servers are the third and the fourth value.
abbrev pub resolve_both : Resolver → DataList → DataList → Got DataList
resolve_both getaddrinfo list (a ∷ b ∷ text first ∷ text second ∷ rest) = coded (
    (resolved getaddrinfo first
        ⨟ (if same_start byte_len second (codes "none")
            then string none_text
            else resolved getaddrinfo second))
      list)
resolve_both getaddrinfo list _ = fault

unfoldable pub dnsa_get_ip_for_glue_ns : Resolver → Option Text → DataList → Got DataList
dnsa_get_ip_for_glue_ns getaddrinfo none list = resolve_both getaddrinfo list list
dnsa_get_ip_for_glue_ns getaddrinfo (some ip) list = coded (dnsa_split_glue_ip (some ip) list)

-- The name of the zone above: what stands behind the first dot. A name that is NULL is read.
abbrev pub parent_of : Option (Text × Text) → Got Text
parent_of none = stop ailsa_cannot_get_parent
parent_of (some (a, b)) = got b

abbrev pub parent : Option Text → Got Text
parent none = fault
parent (some domain) = parent_of (split_at dot domain)

abbrev pub first_id : DataList → Option ℕ
first_id (lint n ∷ l) = some n
first_id _ = none

module _ {Cmdb : Type 0} (db : Database Cmdb) (changes : Changes Cmdb) (uid : ℕ) where
  unfoldable pub glue_row : Resolver → Cmdb → CommLine → Got (Text × DataList)
  glue_row getaddrinfo dc cm = do
    above ← parent cm.domain
    zone ← coded (zone_id_of db dc (some above) [])
    named ← coded (string cm.domain zone)
    served ← coded (dnsa_split_glue_ns cm.glue_ns named)
    located ← dnsa_get_ip_for_glue_ns getaddrinfo cm.glue_ip served
    row ← coded (cuser_muser uid located)
    got (above, row)

  abbrev pub insert_glue : Cmdb → Text × DataList → ℤ × Cmdb
  insert_glue dc (above, row) =
      changes.ailsa_insert_query dc insert_glue_zone row ⇛ mark_zone db changes uid (some above)

  unfoldable pub add_glue_zone : Resolver → Option Cmdb → Option CommLine → Option (ℤ × Option Cmdb)
  add_glue_zone getaddrinfo (some dc) (some cm) =
      finish dc (glue_row getaddrinfo dc cm) (insert_glue dc)
  add_glue_zone getaddrinfo dc _ = some (ailsa_no_data, dc)

  -- The mark of the zone above, where the query gave its identifier.
  abbrev pub mark_parent : DataList → Cmdb → Option (ℤ × Cmdb)
  mark_parent [] c = some (pos 0, c)
  mark_parent (lint id ∷ i) c =
      some (still_there c (set_db_row_updated db uid (some c) set_fwd_zone_updated none id))
  mark_parent (_ ∷ i) c = none

  abbrev pub behind_removal : DataList → ℤ × Cmdb → Option (ℤ × Option Cmdb)
  behind_removal i (retval, c) =
      if is_ok retval
      then elim (mark_parent i c) [ none ↦ none | some (code, d) ↦ some (code, some d) ]
      else some (retval, some c)

  abbrev pub remove_glue : Cmdb → Got (DataList × DataList) → Option (ℤ × Option Cmdb)
  remove_glue dc (got (g, i)) = behind_removal i (changes.ailsa_delete_query dc delete_glue_zone g)
  remove_glue dc (stop code) = some (code, some dc)
  remove_glue dc fault = none

  unfoldable pub delete_glue : Option Cmdb → Option CommLine → Option (ℤ × Option Cmdb)
  delete_glue (some dc) (some cm) = remove_glue dc (do
    g ← coded (string cm.domain [])
    i ← coded (db.ailsa_argument_query dc parent_zone_id_on_glue_zone g)
    got (g, i))
  delete_glue dc _ = some (ailsa_no_data, dc)
