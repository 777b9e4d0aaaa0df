-- ===== src/Dns/Kept.antt =====
-- src/zones.c: the reverse records that `cmdb_records_to_remove` leaves in the zone.
use cmdb.Base.{
  ℕ, ◌≤◌, ◌≡◌, refl, ap, sym, ◌∙◌, inl, inr, Bool, true, false, not, ◌&&◌, ◌||◌, List, [], ◌∷◌,
  ◌++◌, append_assoc, append-nil, ◌==◌, if◌then◌else◌, Bool-cases, and_split, arith, pos, length,
}
use cmdb.Data.{Text, lint, DataList, cmdb_add_number_to_list}
use cmdb.Dns.Records.{ZoneRecord}
use cmdb.Dns.Reverse.{stray_rounds}
use cmdb.Dns.Pairs.{Pair, pair_in, sift}
use cmdb.Dns.Mirror.{
  Forwards, Reverses, forward_pairs, reverse_pair, reverse_pairs, find_forward_lem,
}

-- The number is among the values.
abbrev pub id_in : ℕ → DataList → Bool
id_in id [] = false
id_in id (lint n ∷ l) = id == n || id_in id l
id_in id (_ ∷ l) = id_in id l

-- `DELETE FROM rev_records WHERE rev_record_id IN (...)`
unfoldable pub without : DataList → List ZoneRecord → List ZoneRecord
without ids [] = []
without ids (r ∷ rs) = let rest = without ids rs in if id_in r.id ids then rest else r ∷ rest

-- The identifiers are those of different records.
abbrev pub other_ids : ℕ → List ZoneRecord → Bool
other_ids id [] = true
other_ids id (r ∷ rs) = not (id == r.id) && other_ids id rs

abbrev pub distinct_ids : List ZoneRecord → Bool
distinct_ids [] = true
distinct_ids (r ∷ rs) = other_ids r.id rs && distinct_ids rs

-- The identifiers of the records whose pair is not in the list.
unfoldable pub stray_ids : Text → List Pair → List ZoneRecord → DataList
stray_ids before pairs [] = []
stray_ids before pairs (r ∷ rs) =
    let rest = stray_ids before pairs rs in
    if pair_in (reverse_pair before r) pairs then rest else lint r.id ∷ rest

stray_ids-other :
    (id : ℕ) (before : Text) (pairs : List Pair) (rs : List ZoneRecord)
    → other_ids id rs ≡ true
    → id_in id (stray_ids before pairs rs) ≡ false
unfolding stray_ids
stray_ids-other id before pairs [] others = refl
stray_ids-other id before pairs (r ∷ rs) others =
    let (ne, more) = and_split (not (id == r.id)) (other_ids id rs) others in
    let ih = stray_ids-other id before pairs rs more in
    elim (Bool-cases (pair_in (reverse_pair before r) pairs)) [
      | inl found ↦ rw found ih
      | inr stray ↦ rw stray (ground (arith, ih, ne))
    ]

without-other :
    (id : ℕ) (ids : DataList) (rs : List ZoneRecord)
    → other_ids id rs ≡ true
    → without (lint id ∷ ids) rs ≡ without ids rs
unfolding without
without-other id ids [] others = refl
without-other id ids (r ∷ rs) others =
    let (ne, more) = and_split (not (id == r.id)) (other_ids id rs) others in
    let ih = without-other id ids rs more in
    let differs : (r.id == id) ≡ false = ground (arith, ne) in rw (differs, ih) refl

stray_ids-found :
    (before : Text) (pairs : List Pair) (r : ZoneRecord) (rs : List ZoneRecord)
    → pair_in (reverse_pair before r) pairs ≡ true
    → stray_ids before pairs (r ∷ rs) ≡ stray_ids before pairs rs
unfolding stray_ids
stray_ids-found before pairs r rs found = rw found refl

stray_ids-stray :
    (before : Text) (pairs : List Pair) (r : ZoneRecord) (rs : List ZoneRecord)
    → pair_in (reverse_pair before r) pairs ≡ false
    → stray_ids before pairs (r ∷ rs) ≡ lint r.id ∷ stray_ids before pairs rs
unfolding stray_ids
stray_ids-stray before pairs r rs stray = rw stray refl

without_none : (ids : DataList) → without ids [] ≡ []
unfolding without
without_none ids = refl

without_kept :
    (ids : DataList) (r : ZoneRecord) (rs : List ZoneRecord)
    → id_in r.id ids ≡ false
    → without ids (r ∷ rs) ≡ r ∷ without ids rs
unfolding without
without_kept ids r rs stays = rw stays refl

without_gone :
    (ids : DataList) (r : ZoneRecord) (rs : List ZoneRecord)
    → without (lint r.id ∷ ids) (r ∷ rs) ≡ without (lint r.id ∷ ids) rs
unfolding without
without_gone ids r rs = let self : (r.id == r.id) ≡ true = ground arith in rw self refl

-- What stays are the records whose pair is in the list.
pub without-stray :
    (before : Text) (pairs : List Pair) (rs : List ZoneRecord)
    → distinct_ids rs ≡ true
    → reverse_pairs before (without (stray_ids before pairs rs) rs)
      ≡ sift (λ p. pair_in p pairs) (reverse_pairs before rs)
unfolding sift
without-stray before pairs [] distinct = ap (λ l. reverse_pairs before l) (without_none _)
without-stray before pairs (r ∷ rs) distinct =
    let (others, more) = and_split (other_ids r.id rs) (distinct_ids rs) distinct in
    let ih = without-stray before pairs rs more in
    elim (Bool-cases (pair_in (reverse_pair before r) pairs)) [
      | inl found ↦
          rw
            (
              stray_ids-found before pairs r rs found,
              without_kept (stray_ids before pairs rs) r rs
                  (stray_ids-other r.id before pairs rs others),
              found,
            )
            (ap (λ l. reverse_pair before r ∷ l) ih)
      | inr stray ↦
          rw
            (
              stray_ids-stray before pairs r rs stray,
              without_gone (stray_ids before pairs rs) r rs,
              without-other r.id (stray_ids before pairs rs) rs others,
              stray,
            )
            ih
    ]

module _ (before : Text) (small : length before ≤ 48) (rec : List ZoneRecord)
    (inside : Forwards before rec) where
  pub stray_rounds_lem :
      (i : ℕ) (rev : List ZoneRecord) (remove : DataList)
      → Reverses i rev
      → stray_rounds before rec i rev remove
        ≡ (pos 0, remove ++ stray_ids before (forward_pairs rec) rev)
  unfolding stray_rounds stray_ids cmdb_add_number_to_list
  stray_rounds_lem i [] remove reverses = ap (λ l. (pos 0, l)) (sym (append-nil remove))
  stray_rounds_lem i (r ∷ rev) remove (at, sh, fh, sd, others) =
      let e = find_forward_lem before small r.host r.dest rec sh sd inside in
      elim (Bool-cases (pair_in (before ++ r.host, r.dest) (forward_pairs rec))) [
        | inl found ↦ rw (at, e, found) (stray_rounds_lem i rev remove others)
        | inr stray ↦
            rw (at, e, stray)
              (stray_rounds_lem i rev (remove ++ (lint r.id ∷ [])) others
                ∙ ap (λ l. (pos 0, l)) (append_assoc remove (lint r.id ∷ []) _))
      ]
