-- ===== src/Zone/Apart.antt =====
-- The reverse zones of the database, under `add_reverse_zone` of lib/dnsa_net.c.
use cmdb.Base.{
  ℕ, ◌≤◌, ◌<◌, ◌≡◌, refl, ap, ◌∙◌, ◌⊎◌, inl, inr, Bool, Bool-cases, true, false, not, ◌||◌, Option,
  none, some, List, [], ◌∷◌, ◌==◌, if◌then◌else◌, ltb, arith, ℤ, pos, negsuc, is_ok,
}
use cmdb.Data.{Text, DataList}
use cmdb.Query.{Database, or_else}
use cmdb.Tables.{rev_zone_overlap}
use cmdb.Net.{get_start_finsh_ips}
use cmdb.Zone.{Outside, overlap_arguments, check_for_rev_zone_overlap, dnsa_populate_rev_zone}
use cmdb.Zone.Rows.{rev_zone_row}
use cmdb.Zone.Reverse.{
  Actions, ◌⇒◌, install, returned, add_reverse_zone, overlap_answer, overlap_lem,
}
use cmdb.Zone.Overlap.{Range}
use cmdb.Zone.Fails.{row_cases}
use cmdb.Zone.Table.{clear, apart, with_row, ZoneTable, clear_of_unselected}

-- The answer is 0 only where the query succeeds and has no rows.
answer_clear :
    {Cmdb : Type 0} (outside : Outside) (db : Database Cmdb) (actions : Actions Cmdb) (retval : ℤ)
    (rows : DataList)
    → is_ok (overlap_answer outside db actions (retval, rows)) ≡ true
    → (is_ok retval ≡ true) × (rows ≡ [])
answer_clear outside db actions retval [] ok = elim (Bool-cases (is_ok retval)) [
  | inl e ↦ (e, refl)
  | inr e ↦ absurd (ground (arith, e, rw e at ok))
]
answer_clear outside db actions retval (x ∷ rows) ok = elim (Bool-cases (is_ok retval)) [
  | inl e ↦ absurd (ground (arith, rw e at ok))
  | inr e ↦ absurd (ground (arith, e, rw e at ok))
]

is_ok-zero : (code : ℤ) → is_ok code ≡ true → code ≡ pos 0
is_ok-zero (pos k) ok = let e : k ≡ 0 = ground (arith, ok) in ap pos e
is_ok-zero (negsuc k) ok = ground arith

-- Two bounds that pass the first test.
proper_bounds :
    (start finish : ℕ)
    → (((start == 0 || finish == 0) || ltb finish start) ≡ true)
      ⊎ ((((start == 0 || finish == 0) || ltb finish start) ≡ false)
          × (0 < start)
          × (start ≤ finish))
proper_bounds start finish = ground arith

module _ {Cmdb : Type 0} (outside : Outside) (db : Database Cmdb) (actions : Actions Cmdb)
    (table : ZoneTable db actions) where
  open table use {zones}

  abbrev after : ℤ × Cmdb → List Range
  after (retval, dc) = zones dc

  -- What follows a call changes no zone.
  after_chain :
      (first : ℤ × Cmdb) (k : Cmdb → ℤ × Cmdb)
      → ((dc : Cmdb) → zones (k dc).1 ≡ zones dc)
      → after (◌⇒◌ outside db actions first k) ≡ after first
  after_chain (retval, dc) k same = elim (Bool-cases (is_ok retval)) [
    | inl e ↦ rw e (same dc)
    | inr e ↦ rw e refl
  ]

  install_zones :
      (dc : Cmdb) (range : Text) (type : Option Text) (prefix : ℕ) (rev : DataList)
      → after (install outside db actions dc range type prefix rev)
        ≡ after (actions.insert_reverse_zone dc rev)
  install_zones dc range type prefix rev =
      let one = actions.insert_reverse_zone dc rev in
      let validate : Cmdb → ℤ × Cmdb = λ c. actions.cmdb_validate_zone c range type prefix in
      let two = ◌⇒◌ outside db actions one validate in
      let three = ◌⇒◌ outside db actions two actions.cmdb_write_rev_zone_config in
      after_chain three actions.reload table.reloaded
      ∙ after_chain two actions.cmdb_write_rev_zone_config table.written
      ∙ after_chain one validate (λ c. table.validated c range type prefix)

  -- The test for overlaps says 0 only where there is no zone in the way.
  checked_clear :
      (dc : Cmdb) (start finish : ℕ)
      → is_ok (check_for_rev_zone_overlap db (some dc) start finish) ≡ true
      → clear (start, finish) (zones dc) ≡ true
  unfolding check_for_rev_zone_overlap
  checked_clear dc start finish ok = elim (proper_bounds start finish) [
    | inl e ↦ absurd (ground (arith, rw e at ok))
    | inr (e, positive, le) ↦
        let args = overlap_arguments start finish in
        let answer = db.ailsa_argument_query dc rev_zone_overlap args in
        let said = rw (overlap_lem outside db actions dc start finish positive le) at ok in
        let (good, empty) = answer_clear outside db actions answer.0 answer.1 said in
        clear_of_unselected start finish (zones dc) le (table.searched dc args good empty)
  ]

  abbrev pub zones_apart : Option Cmdb → Bool
  zones_apart none = false
  zones_apart (some dc) = apart (zones dc)

  -- The row of a zone that is clear of the others.
  inserted_apart :
      (dc : Cmdb) (start finish : ℕ) (row : DataList)
      → with_row row (zones dc) ≡ (start, finish) ∷ zones dc
      → clear (start, finish) (zones dc) ≡ true
      → apart (zones dc) ≡ true
      → apart (zones (actions.insert_reverse_zone dc row).1) ≡ true
  unfolding apart
  inserted_apart dc start finish row new here others =
      elim (Bool-cases (is_ok (actions.insert_reverse_zone dc row).0)) [
        | inl e ↦ rw (table.inserted dc row, e, new, here) others
        | inr e ↦ rw (table.inserted dc row, e) others
      ]

  module _ (dc : Cmdb) (prins : Text) (given : (actions.settings dc).prins ≡ some prins)
      (range : Text) (type master : Option Text) (prefix : ℕ) (n : (prefix == 0) ≡ false)
      (before : apart (zones dc) ≡ true) where
    -- What follows the test for overlaps.
    row_apart :
        (start finish : ℕ)
        → get_start_finsh_ips outside.inet (some range) prefix (0, 0) ≡ (pos 0, start, finish)
        → clear (start, finish) (zones dc) ≡ true
        → let populated =
            dnsa_populate_rev_zone outside
              (some (actions.settings dc))
              (some range)
              master
              prefix
              (some []) in
          zones_apart
            (if not (is_ok populated.0)
              then (populated.0, some dc)
              else returned outside db actions
                  (install outside db actions dc range type prefix (or_else [] populated.1))).1
          ≡ true
    unfolding with_row
    row_apart start finish bounds here =
        elim (row_cases outside (actions.settings dc) prins given range prefix start finish bounds
          master n) [
            | inl (text, e) ↦
                let row =
                  rev_zone_row outside (actions.settings dc) prins given range master prefix
                    (start, finish) text in
                rw e (
                  ap apart (install_zones dc range type prefix row)
                  ∙ inserted_apart dc start finish row refl here before)
            | inr e ↦ rw e before
          ]

    bounds_apart :
        (r : ℤ × ℕ × ℕ)
        → get_start_finsh_ips outside.inet (some range) prefix (0, 0) ≡ r
        → zones_apart
            (add_reverse_zone outside db actions (some dc) (some range) type master prefix).1
          ≡ true
    unfolding add_reverse_zone
    bounds_apart (code, start, finish) bounds = elim (Bool-cases (is_ok code)) [
      | inr e ↦ rw (n, bounds, e) before
      | inl e ↦ elim (Bool-cases (is_ok (check_for_rev_zone_overlap db (some dc) start finish))) [
        | inr refused ↦ rw (n, bounds, e, refused) before
        | inl passed ↦
            let zero_code = bounds ∙ ap (λ c. (c, start, finish)) (is_ok-zero code e) in
            rw (n, bounds, e, passed)
              (row_apart start finish zero_code (checked_clear dc start finish passed))
      ]
    ]

  -- Reverse zones that have no address in common still have none in common behind `add_reverse_zone`,
  -- whatever range, prefix, type and master it is given, and whichever of its calls fails. The primary
  -- name server is set.
  pub add_reverse_zone-apart :
      (dc : Cmdb) (prins : Text) (given : (actions.settings dc).prins ≡ some prins)
      (range type master : Option Text) (prefix : ℕ)
      → apart (zones dc) ≡ true
      → zones_apart (add_reverse_zone outside db actions (some dc) range type master prefix).1
        ≡ true
  unfolding add_reverse_zone
  add_reverse_zone-apart dc prins given none type master prefix before = before
  add_reverse_zone-apart dc prins given (some range) type master prefix before =
      elim (Bool-cases (prefix == 0)) [
        | inl e ↦ rw e before
        | inr e ↦ bounds_apart dc prins given range type master prefix e before _ refl
      ]
