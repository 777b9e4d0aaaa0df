-- ===== src/Dns/Trim.antt =====
-- src/zones.c: what the preferred records leave of the forward records, and what is missed in a wide zone.
use cmdb.Base.{
  ℕ, ◌≤◌, ◌≡◌, ◌⊎◌, refl, ap, sym, ◌∙◌, inl, inr, Bool, true, false, not, ◌&&◌, some, List, [], ◌∷◌,
  ◌++◌, append_assoc, ◌==◌, if◌then◌else◌, Bool-cases, and_split, arith, pos, length, take,
  take-eq_of_le,
}
use cmdb.Data.{Text, DataList}
use cmdb.Data.Partition.{domain_len}
use cmdb.Net.{dot}
use cmdb.Net.Search.{Free}
use cmdb.Dns.Records.{
  ZoneRecord, Preferred, same_start, trim_rounds, trim_all, cmdb_trim_record_list, fqdn_of,
}
use cmdb.Dns.Reverse.{address, find_reverse, before_last, starts_with, add_rounds}
use cmdb.Dns.Gained.{before_last-here}

-- The record has an address with no preferred record, or is the preferred one of its address.
abbrev pub agrees : List Preferred → ZoneRecord → Bool
agrees [] rec = true
agrees (pref ∷ prefs) rec =
    (if same_start domain_len pref.ip rec.dest then rec.id == pref.record_id else true)
    && agrees prefs rec

unfoldable pub filter_agrees : List Preferred → List ZoneRecord → List ZoneRecord
filter_agrees prefs [] = []
filter_agrees prefs (rec ∷ recs) =
    let rest = filter_agrees prefs recs in if agrees prefs rec then rec ∷ rest else rest

trim_rounds-filter :
    (pref : Preferred) (prefs : List Preferred) (recs : List ZoneRecord)
    → filter_agrees prefs (trim_rounds pref recs) ≡ filter_agrees (pref ∷ prefs) recs
unfolding trim_rounds filter_agrees
trim_rounds-filter pref prefs [] = refl
trim_rounds-filter pref prefs (rec ∷ recs) =
    let ih = trim_rounds-filter pref prefs recs in
    elim (Bool-cases (same_start domain_len pref.ip rec.dest)) [
      | inl same ↦ elim (Bool-cases (rec.id == pref.record_id)) [
        | inl it ↦ rw (same, it, ih) refl
        | inr other ↦ rw (same, other) ih
      ]
      | inr apart ↦ rw (apart, ih) refl
    ]

filter_none : (recs : List ZoneRecord) → filter_agrees [] recs ≡ recs
unfolding filter_agrees
filter_none [] = refl
filter_none (rec ∷ recs) = ap (λ l. rec ∷ l) (filter_none recs)

filter_empty : (prefs : List Preferred) → [] ≡ filter_agrees prefs []
unfolding filter_agrees
filter_empty prefs = refl

trim_all-filter :
    (prefs : List Preferred) (recs : List ZoneRecord)
    → trim_all prefs recs ≡ filter_agrees prefs recs
unfolding trim_all
trim_all-filter [] recs = sym (filter_none recs)
trim_all-filter (pref ∷ prefs) recs =
    trim_all-filter prefs (trim_rounds pref recs) ∙ trim_rounds-filter pref prefs recs

-- The removal, preferred record by preferred record, of what conflicts with it leaves the records that
-- have an address with no preferred record or are the preferred one of their address, in their order.
pub trim_keeps_agreeing :
    (recs : List ZoneRecord) (prefs : List Preferred)
    → cmdb_trim_record_list recs prefs ≡ (pos 0, filter_agrees prefs recs)
unfolding cmdb_trim_record_list
trim_keeps_agreeing [] prefs = ap (λ l. (pos 0, l)) (filter_empty prefs)
trim_keeps_agreeing (rec ∷ recs) [] =
    let some_left : (length (rec ∷ recs) == 0) ≡ false = ground arith in
    rw some_left (ap (λ l. (pos 0, l)) (sym (filter_none (rec ∷ recs))))
trim_keeps_agreeing (rec ∷ recs) (pref ∷ prefs) =
    let some_left : (length (rec ∷ recs) == 0) ≡ false = ground arith in
    let some_right : (length (pref ∷ prefs) == 0) ≡ false = ground arith in
    rw (some_left, some_right) (ap (λ l. (pos 0, l)) (trim_all-filter (pref ∷ prefs) (rec ∷ recs)))

-- The reverse record has the address and the name of the forward record.
abbrev pub named : Text → ZoneRecord → ZoneRecord → Bool
named before f r =
    same_start domain_len f.dest (address before 32 r.host)
    && same_start domain_len (fqdn_of f) r.dest

-- No reverse record has.
abbrev pub unnamed : Text → ZoneRecord → List ZoneRecord → Bool
unnamed before f [] = true
unnamed before f (r ∷ rev) = not (named before f r) && unnamed before f rev

not-true : (b : Bool) → not b ≡ true → b ≡ false
not-true b h = ground arith

-- Every forward record without a reverse record has an address that does not begin like this.
abbrev pub Elsewhere : Text → Text → List ZoneRecord → List ZoneRecord → Type 0
Elsewhere before part [] rev = Unit {0}
Elsewhere before part (f ∷ rec) rev =
    ((unnamed before f rev ≡ false) ⊎ (starts_with part f.dest ≡ false))
    × Elsewhere before part rec rev

find_reverse-last :
    (before : Text) (f r : ZoneRecord) (rev : List ZoneRecord) (held : Text)
    → unnamed before f (rev ++ (r ∷ [])) ≡ true
    → find_reverse before f (rev ++ (r ∷ [])) held ≡ (false, address before 32 r.host)
unfolding find_reverse
find_reverse-last before f r [] held h =
    let (first, rest) = and_split (not (named before f r)) true h in
    rw (not-true (named before f r) first) refl
find_reverse-last before f r (x ∷ rev) held h =
    let (first, rest) = and_split (not (named before f x)) (unnamed before f (rev ++ (r ∷ []))) h in
    rw (not-true (named before f x) first)
      (find_reverse-last before f r rev (address before 32 x.host) rest)

find_reverse-found :
    (before : Text) (f : ZoneRecord) (rev : List ZoneRecord) (held : Text)
    → unnamed before f rev ≡ false
    → (left : Text) × (find_reverse before f rev held ≡ (true, left))
unfolding find_reverse
find_reverse-found before f [] held h = absurd (ground (arith, h))
find_reverse-found before f (r ∷ rev) held h = elim (Bool-cases (named before f r)) [
  | inl e ↦ (address before 32 r.host, rw e refl)
  | inr e ↦
      let rest : unnamed before f rev ≡ false = (rw e at h) in
      let (left, found) = find_reverse-found before f rev (address before 32 r.host) rest in
      (left, rw e found)
]

module _ (uid zone_id i : ℕ) (pattern before x y : Text) (free : Free dot y)
    (small : length (before ++ (x ++ (dot ∷ y))) ≤ 255) where
  -- In a piece with hosts of two octets, where the last of the reverse records has the host x.y, nothing is
  -- added for any list of forward records where no address of a record that the zone lacks goes on with
  -- x too, whatever other records the list has. What is compared
  -- has no more than 255 bytes.
  pub missed_in_wide_zone :
      (rec rev : List ZoneRecord) (r : ZoneRecord) (held : Text) (add : DataList)
      → r.host ≡ x ++ (dot ∷ y)
      → length r.host ≤ 31
      → Elsewhere before (before ++ x) rec (rev ++ (r ∷ []))
      → add_rounds uid zone_id pattern before i rec (rev ++ (r ∷ [])) held add ≡ some (pos 0, add)
  unfolding add_rounds
  missed_in_wide_zone [] rev r held add host short elsewhere = refl
  missed_in_wide_zone (f ∷ rec) rev r held add host short (case, others) =
      let whole : address before 32 r.host ≡ before ++ (x ++ (dot ∷ y)) =
        ap (λ t. before ++ t) (take-eq_of_le 31 r.host short ∙ host) in
      let cut_text : take 255 (before ++ (x ++ (dot ∷ y))) ≡ (before ++ x) ++ (dot ∷ y) =
        take-eq_of_le 255 (before ++ (x ++ (dot ∷ y))) small
        ∙ sym (append_assoc before x (dot ∷ y)) in
      let cut : before_last dot (take 255 (before ++ (x ++ (dot ∷ y)))) ≡ some (before ++ x) =
        rw cut_text (before_last-here dot (before ++ x) y free) in
      elim (Bool-cases (unnamed before f (rev ++ (r ∷ [])))) [
        | inr has ↦
            let (left, found) = find_reverse-found before f (rev ++ (r ∷ [])) held has in
            rw found (missed_in_wide_zone rec rev r left add host short others)
        | inl lacks ↦
            let found : find_reverse before f (rev ++ (r ∷ [])) held
                ≡ (false, before ++ (x ++ (dot ∷ y))) =
              find_reverse-last before f r rev held lacks ∙ ap (λ t. (false, t)) whole in
            let apart : starts_with (before ++ x) f.dest ≡ false = elim case [
              | inl has ↦ absurd (let bad : true ≡ false = sym lacks ∙ has in cc)
              | inr apart ↦ apart
            ] in
            rw (found, cut, apart)
              (missed_in_wide_zone rec rev r (before ++ (x ++ (dot ∷ y))) add host short others)
      ]
