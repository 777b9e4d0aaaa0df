-- ===== src/Net/Range.antt =====
-- The bounds of a reverse zone, by the length of its prefix.
use cmdb.Base.{
  ℕ, zero, suc, ◌+◌, ◌-◌, ◌*◌, ◌^◌, ◌≤◌, ◌<◌, ◌%◌, ◌≡◌, refl, sym, ap, subst, ◌∙◌, ◌⊎◌, all_below,
  all_below-elim, and_split, inl, inr, Bool, true, false, ◌&&◌, ◌||◌, Option, none, some, ◌==◌,
  ==_iff, if◌then◌else◌, ltb, ltb→lt, leb, ltb_cases, ℤ, pos, is_ok, arith,
}
use cmdb.Data.{Text, ailsa_no_data}
use cmdb.Net.{
  Inet, get_zone_index, convert_bin_ipv4_to_text, convert_text_ipv4_to_bin, get_offset_ip,
  get_start_finsh_ips, ailsa_prefix_out_of_range, ailsa_ip_convert_failed, ailsa_no_data,
}

-- The library's two conversions are inverse on the addresses that are not 0.
abbrev pub Inverse : Inet → Type 0
Inverse inet =
    (ip : ℕ) → 0 < ip → ip < 2 ^ 32 → (t : Text) × (inet.ntop ip ≡ some t) × (inet.pton t ≡ some ip)

-- The number of addresses by which a range ends behind its start.
abbrev pub step : ℕ → ℕ
step prefix = if ltb 16 prefix then 256 else 65536

abbrev index_test : ℕ → Bool
index_test prefix = leb prefix 8 || elim (get_zone_index prefix).1 [
  | none ↦ false
  | some index ↦
      (is_ok (get_zone_index prefix).0 && ltb 0 index) && (step prefix * index == 2 ^ (32 - prefix))
]

indices : all_below 25 index_test ≡ true
unfolding get_zone_index
indices = refl

is_ok-eq : (code : ℤ) → is_ok code ≡ true → code ≡ pos 0
is_ok-eq (pos n) h = ap pos ((==_iff n 0).0 h)
is_ok-eq (ℤ.negsuc n) h = ground arith

-- What a test of an index says, with the index named.
index_test-elim :
    (prefix : ℕ) (code : ℤ) (index : Option ℕ) (total : ℕ)
    → elim index [ none ↦ false | some i ↦ (is_ok code && ltb 0 i) && (step prefix * i == total) ]
      ≡ true
    → (i : ℕ) × (code ≡ pos 0) × (index ≡ some i) × (0 < i) × (step prefix * i ≡ total)
index_test-elim prefix code none total h = ground arith
index_test-elim prefix code (some i) total h =
    let (a, e) = and_split (is_ok code && ltb 0 i) (step prefix * i == total) h in
    let (b, c) = and_split (is_ok code) (ltb 0 i) a in
    (i, is_ok-eq code b, refl, ltb→lt 0 i c, (==_iff (step prefix * i) total).0 e)

or_right : (a b : Bool) → (a || b) ≡ true → a ≡ false → b ≡ true
or_right a b h e = ground arith

-- The index of a prefix moves by the size of its network.
index_lem :
    (prefix : ℕ)
    → 8 < prefix
    → prefix ≤ 24
    → (i : ℕ) × ((get_zone_index prefix).0 ≡ pos 0)
      × ((get_zone_index prefix).1 ≡ some i)
      × (0 < i)
      × (step prefix * i ≡ 2 ^ (32 - prefix))
index_lem prefix gt le =
    let out : leb prefix 8 ≡ false = ground arith in
    let tested = all_below-elim 25 index_test indices prefix (omega (arith, le)) in
    index_test-elim prefix (get_zone_index prefix).0 (get_zone_index prefix).1 (2 ^ (32 - prefix))
      (or_right (leb prefix 8) _ tested out)

suc-ne : (k : ℕ) → (suc k == 0) ≡ false
suc-ne k = ground arith

abbrev pub refusal : ℕ → ℤ
refusal prefix =
    if prefix == 0
    then ailsa_no_data
    else if ltb prefix 8
    then ailsa_prefix_out_of_range
    else ailsa_ip_convert_failed

step_positive : (prefix ip i : ℕ) → 0 < i → 0 < ip + step prefix * i
step_positive prefix ip i h = ground arith

reading :
    (inet : Inet) (t : Text) (a : ℕ)
    → inet.pton t ≡ some a
    → convert_text_ipv4_to_bin inet (some t) ≡ (pos 0, some a)
unfolding convert_text_ipv4_to_bin
reading inet t a reads = rw reads refl

module _ (inet : Inet) (range : Text) (ip : ℕ) (reads : inet.pton range ≡ some ip) where
  text_lem : convert_text_ipv4_to_bin inet (some range) ≡ (pos 0, some ip)
  text_lem = reading inet range ip reads

  offset_lem :
      (prefix i : ℕ)
      → 8 < prefix
      → prefix ≤ 24
      → 0 < i
      → ip + step prefix * i < 2 ^ 64
      → get_offset_ip inet (some range) prefix i
        ≡ convert_bin_ipv4_to_text inet (ip + step prefix * i)
  unfolding get_offset_ip
  offset_lem prefix i gt le pos_i small =
      let some_prefix : (prefix == 0) ≡ false = ground arith in
      let given : ltb 0 i ≡ true = ground arith in
      let whole : leb prefix 24 ≡ true = ground arith in
      elim (ltb_cases 16 prefix) [
        | inl (e, more) ↦
            let below : ip + 256 * i < 2 ^ 64 =
              subst (λ b. ip + (if b then 256 else 65536) * i < 2 ^ 64) e small in
            let fits : (ip + 256 * i) % 2 ^ 64 ≡ ip + 256 * i = omega (arith, below) in
            rw (some_prefix, text_lem, given, whole, e, fits) refl
        | inr (e, less) ↦
            let below : ip + 65536 * i < 2 ^ 64 =
              subst (λ b. ip + (if b then 256 else 65536) * i < 2 ^ 64) e small in
            let fits : (ip + 65536 * i) % 2 ^ 64 ≡ ip + 65536 * i = omega (arith, below) in
            let large : ltb 8 prefix ≡ true = ground arith in
            let half : leb prefix 16 ≡ true = ground arith in
            rw (some_prefix, text_lem, given, whole, e, large, half, fits) refl
      ]

  pub bin_lem :
      (a : ℕ) (t : Text)
      → 0 < a
      → a < 2 ^ 32
      → inet.ntop a ≡ some t
      → convert_bin_ipv4_to_text inet a ≡ (pos 0, some t)
  unfolding convert_bin_ipv4_to_text
  bin_lem a t gt lt writes =
      let n : (a == 0) ≡ false = ground arith in
      let fits : a % 2 ^ 32 ≡ a = omega (arith, lt) in rw (n, fits, writes) refl

  -- The start and the end of a reverse zone with a prefix from 9 to 24: the network's address and
  -- the last of its 2^(32 - prefix) addresses. The library's conversions are inverse on addresses
  -- other than 0, the range is the text of `ip`, and the network does not end at 2^32.
  pub bounds_lem :
      Inverse inet
      → (prefix : ℕ) → 8 < prefix
      → prefix ≤ 24
      → ip + 2 ^ (32 - prefix) < 2 ^ 32
      → (bounds : ℕ × ℕ)
      → get_start_finsh_ips inet (some range) prefix bounds
        ≡ (pos 0, ip, ip + 2 ^ (32 - prefix) - 1)
  unfolding get_start_finsh_ips
  bounds_lem inverse prefix gt le small (start, finish) =
      let (i, code, index, positive, size) = index_lem prefix gt le in
      let last : ip + step prefix * i ≡ ip + 2 ^ (32 - prefix) = ap (λ n. ip + n) size in
      let above : 0 < ip + 2 ^ (32 - prefix) =
        subst (λ n. 0 < n) last (step_positive prefix ip i positive) in
      let (t, writes, reads_back) = inverse (ip + 2 ^ (32 - prefix)) above small in
      let wide : ip + step prefix * i < 2 ^ 64 =
        subst (λ n. n < 2 ^ 64) (sym last) (omega (arith, small)) in
      let offset =
        offset_lem prefix i gt le positive wide
        ∙ ap (convert_bin_ipv4_to_text inet) last
        ∙ bin_lem (ip + 2 ^ (32 - prefix)) t above small writes in
      let not_zero : (ip + 2 ^ (32 - prefix) == 0) ≡ false = ground arith in
      rw
        (
          text_lem,
          code,
          index,
          offset,
          reading inet t (ip + 2 ^ (32 - prefix)) reads_back,
          not_zero,
        )
        refl

  -- With a prefix of 8 the end is one below the start: the range is empty.
  pub class_a_lem :
      Inverse inet
      → 0 < ip
      → ip < 2 ^ 32
      → (bounds : ℕ × ℕ) → get_start_finsh_ips inet (some range) 8 bounds ≡ (pos 0, ip, ip - 1)
  unfolding get_start_finsh_ips get_zone_index get_offset_ip
  class_a_lem inverse positive small (start, finish) =
      let (t, writes, reads_back) = inverse ip positive small in
      let not_zero : (ip == 0) ≡ false = ground arith in
      rw (text_lem, bin_lem ip t positive small writes, reading inet t ip reads_back, not_zero) refl

  -- For a readable range, a prefix of 0, one from 1 to 7 and one above 24 are each refused with a
  -- code of their own. The start is written all the same, and the end is not.
  pub bounds_refused :
      (prefix : ℕ) (bounds : ℕ × ℕ)
      → (prefix < 8) ⊎ (24 < prefix)
      → get_start_finsh_ips inet (some range) prefix bounds ≡ (refusal prefix, ip, bounds.1)
  unfolding get_start_finsh_ips get_zone_index get_offset_ip
  bounds_refused zero (start, finish) out = rw text_lem refl
  bounds_refused (suc k) (start, finish) (inl less) =
      let l : ltb (suc k) 8 ≡ true = ground arith in rw (text_lem, suc-ne k, l) refl
  bounds_refused (suc k) (start, finish) (inr more) =
      let l : ltb (suc k) 8 ≡ false = ground arith in
      let a : ltb 8 (suc k) ≡ true = ground arith in
      let b : ltb (suc k) 16 ≡ false = ground arith in
      let c : ltb 16 (suc k) ≡ true = ground arith in
      let d : ltb (suc k) 24 ≡ false = ground arith in
      let f : leb (suc k) 24 ≡ false = ground arith in
      let g : leb (suc k) 16 ≡ false = ground arith in
      let i : (suc k == 8) ≡ false = ground arith in
      rw (text_lem, suc-ne k, l, a, b, c, d, f, g, i) refl
