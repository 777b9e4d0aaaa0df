-- ===== src/Zone/Rises.antt =====
-- The serial numbers of zones that change (lib/dnsa_net.c).
use cmdb.Base.{
  ℕ, suc, ◌+◌, ◌%◌, ◌^◌, ◌≤◌, ◌<◌, ◌≡◌, refl, ◌⊎◌, ℤ, inl, inr, true, false, some, [], ◌∷◌, ◌==◌,
  leb, length, arith,
}
use cmdb.Data.{
  Text, codes, DbData, DataList, text, lint, cmdb_add_string_to_list, cmdb_add_number_to_list,
}
use cmdb.Query.{Database}
use cmdb.Tables.{fwd_zone_serial_update, rev_zone_serial_update}
use cmdb.Helper.Default.Answers.{argument}
use cmdb.Zone.{Outside, generate_zone_serial}
use cmdb.Zone.Update.{next_serial, ailsa_check_for_zone_update, ailsa_check_for_rev_zone_update}

leb-cases : (a b : ℕ) → ((leb a b ≡ true) × (a ≤ b)) ⊎ ((leb a b ≡ false) × (b < a))
leb-cases a b = ground arith

-- The next serial number of a zone is above the last one, and not below the one of the day, as long as
-- the last one is not the largest number of 64 bits.
pub next_serial_rises :
    (outside : Outside) (old : ℕ)
    → old + 1 < 2 ^ 64
    → (old < next_serial outside old) × (generate_zone_serial outside ≤ next_serial outside old)
unfolding next_serial
next_serial_rises outside old small =
    let word : (old + 1) % 2 ^ 64 ≡ old + 1 = omega (arith, small) in
    let above : old < old + 1 = omega arith in
    elim (leb-cases (generate_zone_serial outside) old) [
      | inl (e, le) ↦ rw (e, word) (above, omega (arith, le))
      | inr (e, lt) ↦ rw e (lt, omega arith)
    ]

module _ {Cmdb : Type 0} (db : Database Cmdb) (outside : Outside) (cbs : Cmdb) (zone : Text) where
  abbrev pub updated : ℕ → ℕ → ℤ × Cmdb
  updated query serial = db.ailsa_update_query cbs query (lint serial ∷ argument zone ∷ [])

  -- Where the mark of a forward zone, or of a reverse zone, is "yes", its serial number becomes a higher
  -- one, the database gets this number for this zone, and the list of the caller has the same number; no
  -- other value changes. The lists have whole rows, of six values and of eight, and the old number is not
  -- the largest of 64 bits.
  pub serials_rise :
      (a b c d e f : DbData) (old : ℕ) (rest others : DataList)
      → (length rest % 6 == 0) ≡ true
      → (length others % 8 == 0) ≡ true
      → old + 1 < 2 ^ 64
      → let serial = next_serial outside old in
        let forward = updated fwd_zone_serial_update serial in
        let reverse = updated rev_zone_serial_update serial in
        (old < serial)
        × (ailsa_check_for_zone_update db outside cbs
              (a ∷ lint old ∷ b ∷ c ∷ d ∷ text (codes "yes") ∷ rest)
              zone
            ≡ some (forward.0, forward.1, a ∷ lint serial ∷ b ∷ c ∷ d ∷ text (codes "yes") ∷ rest))
        × (ailsa_check_for_rev_zone_update db outside cbs
              (a ∷ b ∷ c ∷ lint old ∷ d ∷ e ∷ f ∷ text (codes "yes") ∷ others)
              zone
            ≡ some (
              reverse.0,
              reverse.1,
              a ∷ b ∷ c ∷ lint serial ∷ d ∷ e ∷ f ∷ text (codes "yes") ∷ others,
            ))
  unfolding ailsa_check_for_zone_update ailsa_check_for_rev_zone_update cmdb_add_number_to_list
      cmdb_add_string_to_list
  serials_rise a b c d e f old rest others six eight small =
      let whole : (suc (suc (suc (suc (suc (suc (length rest)))))) % 6 == 0) ≡ true =
        ground (arith, six) in
      let all : (suc (suc (suc (suc (suc (suc (suc (suc (length others)))))))) % 8 == 0) ≡ true =
        ground (arith, eight) in
      ((next_serial_rises outside old small).0, rw whole refl, rw all refl)
