-- ===== src/Base/Digits.antt =====
-- Binary operations that go digit by digit, and their higher digits.
use Prim.Native.Nat.{
  ℕ, zero, suc, ◌+◌, ◌*◌, ◌/◌, ◌%◌, ◌^◌, ◌≤◌, ◌<◌, min, bit_and, bit_xor, digits, differ,
  bit_and-bitwise, bit_xor-bitwise,
}
use mathlib.Core.Path.{◌≡◌, refl, sym, ap, ◌∙◌}
use native.Mathlib.Nat.{div-div-eq-div-mul, div-one, pow-suc}
use native.Mathlib.Omega.{arith}

module _ (z : ℕ → ℕ) (f : ℕ → ℕ → ℕ) (z_half : (b : ℕ) → z b / 2 ≡ z (b / 2))
    (f_digit : (a b : ℕ) → f (a % 2) (b % 2) < 2) where
  -- The fuel of `digits` does not matter where it is enough.
  more_fuel : (n m a b : ℕ) → a ≤ n → a ≤ m → digits z f n a b ≡ digits z f m a b
  more_fuel zero zero a b p q = refl
  more_fuel zero (suc m) zero b p q = refl
  more_fuel zero (suc m) (suc a) b p q = absurd (omega (arith, p))
  more_fuel (suc n) zero zero b p q = refl
  more_fuel (suc n) zero (suc a) b p q = absurd (omega (arith, q))
  more_fuel (suc n) (suc m) zero b p q = refl
  more_fuel (suc n) (suc m) (suc a) b p q =
      let below : suc a / 2 ≤ n = omega (arith, p) in
      let within : suc a / 2 ≤ m = omega (arith, q) in
      ap (λ r. r * 2 + f (suc a % 2) (b % 2)) (more_fuel n m (suc a / 2) (b / 2) below within)

  halved : (a b : ℕ) → digits z f a a b / 2 ≡ digits z f (a / 2) (a / 2) (b / 2)
  halved zero b = z_half b
  halved (suc a) b =
      let fuel : suc a / 2 ≤ a = omega arith in
      omega
        (arith, f_digit (suc a) b, more_fuel a (suc a / 2) (suc a / 2) (b / 2) fuel (omega arith))

  shifted : (k a b : ℕ) → digits z f a a b / 2 ^ k ≡ digits z f (a / 2 ^ k) (a / 2 ^ k) (b / 2 ^ k)
  shifted zero a b = rw (div-one a, div-one b, div-one (digits z f a a b)) refl
  shifted (suc k) a b =
      let e = pow-suc 2 k in
      let half : (n : ℕ) → n / 2 ^ suc k ≡ n / 2 ^ k / 2 =
        λ n. ap (λ r. n / r) e ∙ sym (div-div-eq-div-mul n (2 ^ k) 2) in
      half (digits z f a a b)
      ∙ ap (λ r. r / 2) (shifted k a b)
      ∙ halved (a / 2 ^ k) (b / 2 ^ k)
      ∙ rw (half a, half b) refl

-- Shifting to the right commutes with both.
pub bit_and_shifted : (k a b : ℕ) → bit_and a b / 2 ^ k ≡ bit_and (a / 2 ^ k) (b / 2 ^ k)
bit_and_shifted k a b =
    ap (λ r. r / 2 ^ k) (bit_and-bitwise a b)
    ∙ shifted (λ n. zero) min (λ n. refl) (λ m n. omega arith) k a b
    ∙ sym (bit_and-bitwise (a / 2 ^ k) (b / 2 ^ k))

differ_digit : (a b : ℕ) → a < 2 → b < 2 → differ a b < 2
differ_digit zero b p q = q
differ_digit (suc zero) zero p q = p
differ_digit (suc zero) (suc b) p q = omega (arith, q)
differ_digit (suc (suc a)) b p q = absurd (omega (arith, p))

pub bit_xor_shifted : (k a b : ℕ) → bit_xor a b / 2 ^ k ≡ bit_xor (a / 2 ^ k) (b / 2 ^ k)
bit_xor_shifted k a b =
    ap (λ r. r / 2 ^ k) (bit_xor-bitwise a b)
    ∙ shifted (λ n. n) differ (λ n. refl)
        (λ m n. differ_digit (m % 2) (n % 2) (omega arith) (omega arith)) k a b
    ∙ sym (bit_xor-bitwise (a / 2 ^ k) (b / 2 ^ k))
