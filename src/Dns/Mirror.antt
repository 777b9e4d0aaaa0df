-- ===== src/Dns/Mirror.antt =====
-- src/zones.c: behind the removal and the addition, a reverse zone has the names of the forward records.
use cmdb.Base.{
  ℕ, ◌≤◌, ◌≡◌, refl, inl, inr, Bool, true, ◌&&◌, ◌||◌, List, [], ◌∷◌, ◌++◌, ◌==◌, if◌then◌else◌,
  Bool-cases, arith, length, length-append, length-take, take-eq_of_le,
}
use cmdb.Data.{Text, same_text}
use cmdb.Net.{dot}
use cmdb.Net.Search.{Free}
use cmdb.Dns.Records.{ZoneRecord, same_start, host_len, fqdn_of}
use cmdb.Dns.Reverse.{address, names_forward, find_forward, find_reverse}
use cmdb.Dns.Pairs.{Pair, same_pair, pair_in}

-- A forward record of the piece: an address that begins with that of the piece, and goes on without a dot.
pub record Inside (before : Text) (forward : ZoneRecord) : Type 0 where
  pub last : Text
  pub begins : forward.dest ≡ before ++ last
  pub free : Free dot last
  pub short : length last ≤ 15

abbrev pub Forwards : Text → List ZoneRecord → Type 0
Forwards before [] = Unit {0}
Forwards before (forward ∷ rec) = Inside before forward × Forwards before rec

-- The reverse records of the piece, with hosts of one octet.
abbrev pub Reverses : ℕ → List ZoneRecord → Type 0
Reverses i [] = Unit {0}
Reverses i (reverse ∷ rev) =
    ((reverse.index == i) ≡ true)
    × (length reverse.host ≤ 15)
    × Free dot reverse.host
    × (length reverse.dest ≤ 256)
    × Reverses i rev

abbrev pub forward_pair : ZoneRecord → Pair
forward_pair forward = (forward.dest, fqdn_of forward)

abbrev pub reverse_pair : Text → ZoneRecord → Pair
reverse_pair before reverse = (before ++ reverse.host, reverse.dest)

abbrev pub forward_pairs : List ZoneRecord → List Pair
forward_pairs [] = []
forward_pairs (forward ∷ rec) = forward_pair forward ∷ forward_pairs rec

abbrev pub reverse_pairs : Text → List ZoneRecord → List Pair
reverse_pairs before [] = []
reverse_pairs before (reverse ∷ rev) = reverse_pair before reverse ∷ reverse_pairs before rev

-- Texts within the bound are compared whole.
same_start_whole :
    (n : ℕ) (s t : Text) → length s ≤ n → length t ≤ n → same_start n s t ≡ same_text s t
same_start_whole n s t hs ht = rw (take-eq_of_le n s hs, take-eq_of_le n t ht) refl

pub short_name : (forward : ZoneRecord) → length (fqdn_of forward) ≤ 255
short_name forward = omega (arith, length-take {0} 255 _)

if_or : (b c : Bool) → (if b then true else c) ≡ (b || c)
if_or b c = ground arith

module _ (before : Text) (small : length before ≤ 48) where
  Inside-length : (forward : ZoneRecord) → Inside before forward → length forward.dest ≤ 63
  Inside-length forward inside =
      rw inside.begins (omega (arith, length-append before inside.last, inside.short, small))

  address_length : (host : Text) → length host ≤ 15 → length (before ++ host) ≤ 63
  address_length host short = omega (arith, length-append before host, short, small)

  -- The comparison with a forward record is that of the pairs.
  names_pair :
      (host dest : Text) (forward : ZoneRecord)
      → length host ≤ 15
      → length dest ≤ 256
      → Inside before forward
      → names_forward host_len (address before 16 host) dest forward
        ≡ same_pair (before ++ host, dest) (forward_pair forward)
  names_pair host dest forward sh sd inside =
      let cut = take-eq_of_le 15 host sh in
      let la : length (before ++ host) ≤ 64 = omega (arith, address_length host sh) in
      let lf : length forward.dest ≤ 64 = omega (arith, Inside-length forward inside) in
      let ln : length (fqdn_of forward) ≤ 256 = omega (arith, short_name forward) in
      let here = same_start_whole 64 (before ++ host) forward.dest la lf in
      let name = same_start_whole 256 dest (fqdn_of forward) sd ln in rw (cut, here, name) refl

  -- The search for a forward record is that for its pair.
  pub find_forward_lem :
      (host dest : Text) (rec : List ZoneRecord)
      → length host ≤ 15
      → length dest ≤ 256
      → Forwards before rec
      → find_forward (address before 16 host) dest rec
        ≡ pair_in (before ++ host, dest) (forward_pairs rec)
  unfolding find_forward pair_in
  find_forward_lem host dest [] sh sd inside = refl
  find_forward_lem host dest (forward ∷ rec) sh sd (inside, others) =
      rw (names_pair host dest forward sh sd inside, find_forward_lem host dest rec sh sd others)
        (if_or (same_pair (before ++ host, dest) (forward_pair forward)) _)

  -- The comparison with a reverse record is that of the pairs.
  reverse_names_pair :
      (forward reverse : ZoneRecord)
      → length reverse.host ≤ 15
      → length reverse.dest ≤ 256
      → Inside before forward
      → (same_start 256 forward.dest (address before 32 reverse.host)
          && same_start 256 (fqdn_of forward) reverse.dest)
        ≡ same_pair (forward_pair forward) (reverse_pair before reverse)
  reverse_names_pair forward reverse sh sd inside =
      let long : length reverse.host ≤ 31 = omega (arith, sh) in
      let cut = take-eq_of_le 31 reverse.host long in
      let la : length (before ++ reverse.host) ≤ 256 =
        omega (arith, address_length reverse.host sh) in
      let lf : length forward.dest ≤ 256 = omega (arith, Inside-length forward inside) in
      let ln : length (fqdn_of forward) ≤ 256 = omega (arith, short_name forward) in
      let here = same_start_whole 256 forward.dest (before ++ reverse.host) lf la in
      let name = same_start_whole 256 (fqdn_of forward) reverse.dest ln sd in
      rw (cut, here, name) refl

  -- The search for a reverse record is that for its pair. What `search` holds behind it still begins
  -- with the address of the piece, and goes on without a dot.
  pub find_reverse_lem :
      (i : ℕ) (forward : ZoneRecord) (rev : List ZoneRecord) (left : Text)
      → Inside before forward
      → Reverses i rev
      → Free dot left
      → length left ≤ 15
      → (right : Text) × (find_reverse before forward rev (before ++ left)
          ≡ (pair_in (forward_pair forward) (reverse_pairs before rev), before ++ right))
        × Free dot right
        × (length right ≤ 15)
  unfolding find_reverse pair_in
  find_reverse_lem i forward [] left inside reverses free short = (left, refl, free, short)
  find_reverse_lem i forward (reverse ∷ rev) left inside (at, sh, fh, sd, others) free short =
      let long : length reverse.host ≤ 31 = omega (arith, sh) in
      let cut = take-eq_of_le 31 reverse.host long in
      let (right, e, f, l) = find_reverse_lem i forward rev reverse.host inside others fh sh in
      let pairs = reverse_names_pair forward reverse sh sd inside in
      elim (Bool-cases (same_pair (forward_pair forward) (reverse_pair before reverse))) [
        | inl same ↦ (reverse.host, rw (pairs, same, cut) refl, fh, sh)
        | inr other ↦ (right, rw (pairs, other, cut, e) refl, f, l)
      ]
