-- ===== src/Base/Int.antt =====
-- C's `int`: the codes that the functions return, and the conversion of a `size_t`.
use Prim.Native.Nat.{ℕ, ◌-◌, ◌%◌, ◌^◌, ◌<◌}
use mathlib.Core.Path.{◌≡◌, refl}
use mathlib.Core.Logic.{inl, inr}
use mathlib.Core.Bool.{Bool, false}
use mathlib.Core.List.{List, [], ◌∷◌}
use native.Mathlib.Omega.{arith}
use cmdb.Base.Tests.{ltb, ◌==◌, if◌then◌else◌, Bool-cases}

-- `negsuc n` is -(n + 1).
pub data ℤ : Type 0 where
  pos : ℕ → ℤ
  negsuc : ℕ → ℤ

abbrev pub minus_one : ℤ
minus_one = negsuc 0

-- `retval == 0`
abbrev pub is_ok : ℤ → Bool
is_ok (pos n) = n == 0
is_ok (negsuc n) = false

-- `(int)n` of a `size_t`: the low 32 bits, read as two's complement.
abbrev pub int_of_size : ℕ → ℤ
int_of_size n =
    if ltb (n % 2 ^ 32) (2 ^ 31) then pos (n % 2 ^ 32) else negsuc (2 ^ 32 - n % 2 ^ 32 - 1)

pub int_of_size_small : (n : ℕ) → n < 2 ^ 31 → int_of_size n ≡ pos n
int_of_size_small n h = ground arith

-- A call that changes a state and returns a code.
abbrev pub Call : Type 0 → Type 0
Call S = S → ℤ × S

-- The calls one behind the other, up to the first code other than 0.
abbrev pub in_order : {S : Type 0} → Call S → List (Call S) → Call S
in_order k [] s = k s
in_order k (next ∷ ks) s =
    let (retval, t) = k s in
    let rest = in_order next ks t in if is_ok retval then rest else (retval, t)

-- A chain of four that is bracketed from the left.
pub chained :
    {S : Type 0} (seq : ℤ × S → Call S → ℤ × S)
    → ((m : ℤ × S) (k : Call S) → seq m k ≡ (if is_ok m.0 then k m.1 else m))
    → (a b c d : Call S) (s : S) → seq (seq (seq (a s) b) c) d ≡ in_order a (b ∷ c ∷ d ∷ []) s
chained seq step a b c d s =
    let one = a s in
    let two = b one.1 in
    let three = c two.1 in
    rw (step (seq (seq one b) c) d, step (seq one b) c, step one b)
      (elim (Bool-cases (is_ok one.0)) [
        | inr e ↦ rw (e, e, e) refl
        | inl e ↦ rw e (elim (Bool-cases (is_ok two.0)) [
          | inr f ↦ rw (f, f) refl
          | inl f ↦
              rw f (elim (Bool-cases (is_ok three.0)) [ inr g ↦ rw g refl | inl g ↦ rw g refl ])
        ])
      ])
