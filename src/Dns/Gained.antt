-- ===== src/Dns/Gained.antt =====
-- src/zones.c: the reverse records that `cmdb_records_to_add` gives the zone, and what the zone has then.
use cmdb.Base.{
  ℕ, ◌-◌, ◌≤◌, ◌≡◌, refl, ap, sym, ◌∙◌, inl, inr, true, false, not, ◌&&◌, some, none, List, [], ◌∷◌,
  ◌++◌, append_assoc, append-nil, ◌==◌, if◌then◌else◌, Bool-cases, arith, pos, length,
  length-append, take, take-eq_of_le,
}
use cmdb.Data.{
  Text, text, lint, DataList, cmdb_add_number_to_list, cmdb_add_string_to_list,
  cmdb_populate_cuser_muser,
}
use cmdb.Net.{or_old, dot, percent}
use cmdb.Net.Search.{Free}
use cmdb.Dns.Records.{ZoneRecord, fqdn_of}
use cmdb.Dns.Reverse.{
  before_last, text_from, starts_with, cmdb_get_rev_dest_from_search, reverse_row, add_missing,
  add_rounds,
}
use cmdb.Dns.Pairs.{Pair, pair_in, sift}
use cmdb.Dns.Mirror.{
  Inside, Forwards, Reverses, forward_pair, forward_pairs, reverse_pairs, short_name,
  find_reverse_lem,
}

before_last-free : (c : ℕ) (t : Text) → Free c t → before_last c t ≡ none
before_last-free c [] free = refl
before_last-free c (x ∷ t) (ne, free) = ground (arith, before_last-free c t free)

pub before_last-here : (c : ℕ) (s t : Text) → Free c t → before_last c (s ++ (c ∷ t)) ≡ some s
before_last-here c [] t free =
    let self : (c == c) ≡ true = ground arith in rw (before_last-free c t free, self) refl
before_last-here c (x ∷ s) t free = rw (before_last-here c s t free) refl

starts_with-append : (s t : Text) → starts_with s (s ++ t) ≡ true
starts_with-append [] t = refl
starts_with-append (x ∷ s) t = ground (arith, starts_with-append s t)

text_from-append : (s t : Text) → text_from (length s) (s ++ t) ≡ some t
text_from-append [] t = refl
text_from-append (x ∷ s) t = text_from-append s t

-- What stands behind the address of the piece.
abbrev pub host_of : Text → ZoneRecord → Text
host_of before forward = or_old [] (text_from (length before) forward.dest)

module _ (uid zone_id : ℕ) where
  abbrev pub new_row : Text → ℕ → ZoneRecord → DataList
  new_row before i forward =
      lint zone_id
      ∷ lint i
      ∷ text (host_of before forward)
      ∷ text (fqdn_of forward)
      ∷ lint uid
      ∷ lint uid
      ∷ []

  -- The rows of the forward records whose pair is not in the list.
  unfoldable pub gained : Text → ℕ → List Pair → List ZoneRecord → DataList
  gained before i old [] = []
  gained before i old (f ∷ rec) =
      let rest = gained before i old rec in
      if pair_in (forward_pair f) old then rest else new_row before i f ++ rest

-- The pairs that rows give to the piece `i` of the zone with this identifier: rev_zone, zone_index, host and
-- dest are the first columns of INSERT_REVERSE_RECORD.
unfoldable pub inserted : ℕ → ℕ → Text → DataList → List Pair
inserted zone i before (lint z ∷ lint j ∷ text host ∷ text dest ∷ lint cuser ∷ lint muser ∷ rows) =
    let rest = inserted zone i before rows in
    if z == zone && j == i then (before ++ host, dest) ∷ rest else rest
inserted zone i before rows = []

reverse_row_lem :
    (uid zone_id i : ℕ) (host : Text) (f : ZoneRecord) (add : DataList)
    → take 256 host ≡ host
    → take 256 (fqdn_of f) ≡ fqdn_of f
    → reverse_row uid zone_id i host f add ≡ (
      pos 0,
      add ++ (lint zone_id ∷ lint i ∷ text host ∷ text (fqdn_of f) ∷ lint uid ∷ lint uid ∷ []),
    )
unfolding cmdb_add_number_to_list cmdb_add_string_to_list cmdb_populate_cuser_muser
reverse_row_lem uid zone_id i host f add short name = rw (short, name) (simp (append_assoc))

module _ (uid zone_id i : ℕ) (net : Text) (small : length (net ++ (dot ∷ [])) ≤ 48) where
  -- The address of the piece, with the dot behind it.
  abbrev before : Text
  before = net ++ (dot ∷ [])

  host_of_lem : (f : ZoneRecord) (inside : Inside before f) → host_of before f ≡ inside.last
  host_of_lem f inside = rw (inside.begins, text_from-append before inside.last) refl

  dest_lem :
      (f : ZoneRecord) (inside : Inside before f)
      → cmdb_get_rev_dest_from_search (before ++ (percent ∷ [])) f.dest ≡ some inside.last
  unfolding cmdb_get_rev_dest_from_search
  dest_lem f inside =
      let place : length (before ++ (percent ∷ [])) - 1 ≡ length before =
        omega (arith, length-append before (percent ∷ [])) in
      let last : text_from (length before) f.dest ≡ some inside.last =
        rw inside.begins (text_from-append before inside.last) in
      let whole = take-eq_of_le 31 inside.last (omega (arith, inside.short)) in
      rw (place, last, whole) refl

  adds_missing :
      (f : ZoneRecord) (right : Text) (add : DataList)
      → Inside before f
      → Free dot right
      → length right ≤ 15
      → add_missing uid zone_id (before ++ (percent ∷ [])) i f (false, before ++ right) add
        ≡ some (pos 0, add ++ new_row uid zone_id before i f, before ++ (percent ∷ []))
  adds_missing f right add inside free short =
      let whole : take 255 (before ++ right) ≡ net ++ (dot ∷ right) =
        take-eq_of_le 255 (before ++ right)
          (omega (arith, length-append before right, small, short))
        ∙ append_assoc net (dot ∷ []) right in
      let cut : before_last dot (take 255 (before ++ right)) ≡ some net =
        rw whole (before_last-here dot net right free) in
      let begins : f.dest ≡ net ++ (dot ∷ inside.last) =
        inside.begins ∙ append_assoc net (dot ∷ []) inside.last in
      let starts : starts_with net f.dest ≡ true = rw begins (starts_with-append net _) in
      let host = take-eq_of_le 256 inside.last (omega (arith, inside.short)) in
      let name = take-eq_of_le 256 (fqdn_of f) (omega (arith, short_name f)) in
      rw
        (
          host_of_lem f inside,
          cut,
          starts,
          dest_lem f inside,
          reverse_row_lem uid zone_id i inside.last f add host name,
        )
        refl

  pub add_rounds_lem :
      (rec rev : List ZoneRecord) (left : Text) (add : DataList)
      → Forwards before rec
      → Reverses i rev
      → Free dot left
      → length left ≤ 15
      → add_rounds uid zone_id (before ++ (percent ∷ [])) before i rec rev (before ++ left) add
        ≡ some (pos 0, add ++ gained uid zone_id before i (reverse_pairs before rev) rec)
  unfolding add_rounds gained
  add_rounds_lem [] rev left add inside reverses free short =
      ap (λ l. some (pos 0, l)) (sym (append-nil add))
  add_rounds_lem (f ∷ rec) rev left add (inside, others) reverses free short =
      let (right, found, fr, sr) =
        find_reverse_lem before small i f rev left inside reverses free short in
      let old = reverse_pairs before rev in
      elim (Bool-cases (pair_in (forward_pair f) old)) [
        | inl old_one ↦ rw (found, old_one) (add_rounds_lem rec rev right add others reverses fr sr)
        | inr new_one ↦
            let none_dot : Free dot (percent ∷ []) = (ground arith, tt) in
            let ih =
              add_rounds_lem rec rev (percent ∷ []) (add ++ new_row uid zone_id before i f) others
                reverses none_dot (omega arith) in
            rw (found, new_one, adds_missing f right add inside fr sr)
              (ih ∙ ap (λ l. some (pos 0, l)) (append_assoc add (new_row uid zone_id before i f) _))
      ]

  -- The rows that are inserted give the piece the pairs that were missing.
  pub inserted-gained :
      (old : List Pair) (rec : List ZoneRecord)
      → Forwards before rec
      → inserted zone_id i before (gained uid zone_id before i old rec)
        ≡ sift (λ p. not (pair_in p old)) (forward_pairs rec)
  unfolding inserted gained sift
  inserted-gained old [] inside = refl
  inserted-gained old (f ∷ rec) (inside, others) =
      let ih = inserted-gained old rec others in
      let zone : (zone_id == zone_id) ≡ true = ground arith in
      let piece : (i == i) ≡ true = ground arith in
      elim (Bool-cases (pair_in (forward_pair f) old)) [
        | inl old_one ↦ rw old_one ih
        | inr new_one ↦
            let dest : before ++ host_of before f ≡ f.dest =
              rw (host_of_lem f inside) (sym inside.begins) in
            rw (new_one, zone, piece, dest) (ap (λ l. forward_pair f ∷ l) ih)
      ]
