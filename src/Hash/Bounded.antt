-- ===== src/Hash/Bounded.antt =====
-- The range of the hash of a key (lib/hash.c).
use cmdb.Base.{
  ℕ, ◌+◌, ◌*◌, ◌/◌, ◌%◌, ◌^◌, ◌<◌, ◌≡◌, refl, ap, ◌∙◌, Bool-cases, inl, inr, [], ◌∷◌, ◌==◌, ==_iff,
  all_below-elim, bit_and, bit_xor, bit_and_shifted, bit_xor_shifted, arith,
}
use cmdb.Data.{Text}
use cmdb.Hash.{unsigned_char, fold_high, hash_round, hash_rounds, ailsa_hash}

-- On four bits the mask keeps all, and a number differs from itself nowhere.
kept : (h : ℕ) → h < 16 → bit_and h 15 ≡ h
kept h lt = (==_iff (bit_and h 15) h).0 (all_below-elim 16 (λ n. bit_and n 15 == n) refl h lt)

cancelled : (h : ℕ) → h < 16 → bit_xor (bit_xor h 0) h ≡ 0
cancelled h lt =
    (==_iff (bit_xor (bit_xor h 0) h) 0).0
      (all_below-elim 16 (λ n. bit_xor (bit_xor n 0) n == 0) refl h lt)

high_bits : (val : ℕ) → val < 2 ^ 32 → bit_and val 0xf0000000 / 2 ^ 28 ≡ val / 2 ^ 28
high_bits val small = bit_and_shifted 28 val 0xf0000000 ∙ kept (val / 2 ^ 28) (omega (arith, small))

fold_high_small : (val : ℕ) → val < 2 ^ 32 → fold_high val (bit_and val 0xf0000000) < 2 ^ 28
fold_high_small val small =
    let tmp = bit_and val 0xf0000000 in
    let high = high_bits val small in
    elim (Bool-cases (tmp == 0)) [
      | inl e ↦ let z = (==_iff tmp 0).0 e in rw e (omega (arith, high, z))
      | inr e ↦
          let low : tmp / 2 ^ 24 / 2 ^ 28 ≡ 0 = omega (arith, high, small) in
          let top : bit_xor (bit_xor (val / 2 ^ 28) (tmp / 2 ^ 24 / 2 ^ 28)) (tmp / 2 ^ 28) ≡ 0 =
            rw (low, high) (cancelled (val / 2 ^ 28) (omega (arith, small))) in
          let whole =
            bit_xor_shifted 28 (bit_xor val (tmp / 2 ^ 24)) tmp
            ∙ ap (λ r. bit_xor r (tmp / 2 ^ 28)) (bit_xor_shifted 28 val (tmp / 2 ^ 24))
            ∙ top in
          rw e (omega (arith, whole))
    ]

rounds_bounded : (val : ℕ) (key : Text) → val < 2 ^ 28 → hash_rounds val key < 2 ^ 28
unfolding hash_rounds
rounds_bounded val [] small = small
rounds_bounded val (c ∷ key) small =
    let next = (val * 16 % 2 ^ 32 + unsigned_char c) % 2 ^ 32 in
    rounds_bounded (hash_round val c) key (fold_high_small next (omega arith))

-- The hash of any key, of whatever bytes, is below 2^28.
pub hash_bounded : (key : Text) → ailsa_hash key < 2 ^ 28
unfolding ailsa_hash
hash_bounded key = rounds_bounded 0 key (omega arith)
