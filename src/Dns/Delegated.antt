-- ===== src/Dns/Delegated.antt =====
-- src/zones.c: the row of a delegation, and what becomes of a third name server.
use cmdb.Base.{
  ℕ, ◌≤◌, ◌≡◌, refl, ap, some, [], ◌∷◌, ◌++◌, append_assoc, pos, length, length-append, in_order,
  take-eq_of_le, arith,
}
use cmdb.Data.{
  Text, text, lint, DataList, strndup, config_len, cmdb_add_string_to_list, cmdb_add_number_to_list,
  cmdb_populate_cuser_muser,
}
use cmdb.Query.{Database}
use cmdb.Tables.{insert_glue_zone, set_fwd_zone_updated_on_name}
use cmdb.Helper.Count.{set_db_row_updated}
use cmdb.Net.{dot}
use cmdb.Net.Search.{Free, split_at-here, split_at-none}
use cmdb.Sql.Insert.{insert_queries}
use cmdb.Sql.Lite.Bind.{values_at}
use cmdb.Zone.Columns.{Inserts}
use cmdb.Zone.Resolve.{Resolver}
use cmdb.Dns.Host.{zone_id_of}
use cmdb.Dns.Glue.{
  comma, dnsa_split_glue_ns, dnsa_split_glue_ip, dnsa_get_ip_for_glue_ns, glue_row, add_glue_zone,
}
use cmdb.Dns.Steps.{CommLine, Changes}

-- Two texts with a comma between them.
abbrev pub pair : Text → Text → Text
pair a b = a ++ (comma ∷ b)

-- A text without commas that a value holds whole.
pub record Word (t : Text) : Type 0 where
  pub free : Free comma t
  pub fits : length t ≤ 100

pair_fits : (a b : Text) → length a ≤ 100 → length b ≤ 154 → length (pair a b) ≤ 256
pair_fits a b la lb = omega (arith, length-append a (comma ∷ b), la, lb)

splits_ns :
    (a b : Text) (l : DataList)
    → Word a
    → Word b
    → dnsa_split_glue_ns (some (pair a b)) l ≡ (pos 0, l ++ (text a ∷ text b ∷ []))
unfolding dnsa_split_glue_ns cmdb_add_string_to_list
splits_ns a b l wa wb =
    let whole =
      take-eq_of_le 4096 (pair a b)
        (omega (arith, pair_fits a b wa.fits (omega (arith, wb.fits)))) in
    let first = split_at-here comma a b wa.free in
    let rest = split_at-none comma b wb.free in
    let ta = take-eq_of_le 256 a (omega (arith, wa.fits)) in
    let tb = take-eq_of_le 256 b (omega (arith, wb.fits)) in
    rw (whole, first, rest, ta, tb)
      (ap (λ t. (pos 0, t)) (append_assoc l (text a ∷ []) (text b ∷ [])))

-- The rest behind the first comma goes in whole.
splits_ip :
    (a b : Text) (l : DataList)
    → Word a
    → length b ≤ 154
    → dnsa_split_glue_ip (some (pair a b)) l ≡ (pos 0, l ++ (text a ∷ text b ∷ []))
unfolding dnsa_split_glue_ip cmdb_add_string_to_list
splits_ip a b l wa lb =
    let whole = take-eq_of_le 256 (pair a b) (pair_fits a b wa.fits lb) in
    let first = split_at-here comma a b wa.free in
    let ta = take-eq_of_le 256 a (omega (arith, wa.fits)) in
    let tb = take-eq_of_le 256 b (omega (arith, lb)) in
    rw (whole, first, ta, tb) (ap (λ t. (pos 0, t)) (append_assoc l (text a ∷ []) (text b ∷ [])))

-- Of three name servers with commas between them the first two are taken; of three addresses the first, and
-- the other two as one text with the comma. The first two name servers and the first address have no
-- comma inside and no more than 100 bytes, the second address no more than 100, the third of each 50.
pub third_is_kept :
    (a b c x y z : Text) (l : DataList)
    → Word a
    → Word b
    → length c ≤ 50
    → Word x
    → length y ≤ 100
    → length z ≤ 50
    → (dnsa_split_glue_ns (some (pair a (pair b c))) l ≡ (pos 0, l ++ (text a ∷ text b ∷ [])))
      × (dnsa_split_glue_ip (some (pair x (pair y z))) l
          ≡ (pos 0, l ++ (text x ∷ text (pair y z) ∷ [])))
unfolding dnsa_split_glue_ns cmdb_add_string_to_list
third_is_kept a b c x y z l wa wb lc wx ly lz =
    let whole = take-eq_of_le 4096 (pair a (pair b c)) (
      omega (
        arith,
        length-append a (comma ∷ pair b c),
        length-append b (comma ∷ c),
        wa.fits,
        wb.fits,
      )) in
    let first = split_at-here comma a (pair b c) wa.free in
    let second = split_at-here comma b c wb.free in
    let ta = take-eq_of_le 256 a (omega (arith, wa.fits)) in
    let tb = take-eq_of_le 256 b (omega (arith, wb.fits)) in
    (
      rw (whole, first, second, ta, tb)
          (ap (λ t. (pos 0, t)) (append_assoc l (text a ∷ []) (text b ∷ []))),
      splits_ip x (pair y z) l wx (omega (arith, length-append y (comma ∷ z), ly, lz)),
    )

module _ {Cmdb : Type 0} (db : Database Cmdb) (changes : Changes Cmdb) (uid : ℕ)
    (getaddrinfo : Resolver) where
  -- `add_glue_zone` with two name servers and their addresses inserts one row, for the zone above, with
  -- one value of its type for each place of INSERT_GLUE_ZONE, and behind an insertion that says 0 it
  -- updates the zone above by its name, which marks it; the code is that of the last call. The zone above
  -- is what stands behind the first dot of the name, and is found; no name server and no address has a
  -- comma inside or more than 100 bytes.
  pub add_glue_zone_lem :
      (dc : Cmdb) (cm : CommLine) (host above a b x y : Text) (zone : ℕ)
      → cm.domain ≡ some (host ++ (dot ∷ above))
      → Free dot host
      → cm.glue_ns ≡ some (pair a b)
      → cm.glue_ip ≡ some (pair x y)
      → Word a
      → Word b
      → Word x
      → Word y
      → zone_id_of db dc (some above) [] ≡ (pos 0, lint zone ∷ [])
      → let row =
          lint zone
          ∷ text (strndup (host ++ (dot ∷ above)) config_len)
          ∷ text a
          ∷ text b
          ∷ text x
          ∷ text y
          ∷ lint uid
          ∷ lint uid
          ∷ [] in
        let (retval, c) =
          in_order
            (λ c. changes.ailsa_insert_query c insert_glue_zone row)
            ((λ c.
                db.ailsa_update_query c set_fwd_zone_updated_on_name
                  (lint uid ∷ text (strndup above config_len) ∷ []))
              ∷ [])
            dc in
        (add_glue_zone db changes uid getaddrinfo (some dc) (some cm) ≡ some (retval, some c))
        × Inserts insert_glue_zone row
  unfolding set_db_row_updated cmdb_add_number_to_list add_glue_zone glue_row
      dnsa_get_ip_for_glue_ns cmdb_add_string_to_list cmdb_populate_cuser_muser insert_queries
      values_at
  add_glue_zone_lem dc cm host above a b x y zone named free_host ns ip wa wb wx wy zoned = (
    rw
        (
          named,
          split_at-here dot host above free_host,
          zoned,
          ns,
          splits_ns a b _ wa wb,
          ip,
          splits_ip x y _ wx (omega (arith, wy.fits)),
        )
        refl,
    record {
      query = _;
      listed = refl;
      binds = record { values = _; as_many = refl; typed = refl };
    },
  )
