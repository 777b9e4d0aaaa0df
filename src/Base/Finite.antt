-- ===== src/Base/Finite.antt =====
-- A property of small numbers, by a test of each of them.
use Prim.Native.Nat.{ℕ, zero, suc, ◌<◌}
use mathlib.Core.Path.{◌≡◌}
use mathlib.Core.Logic.{◌⊎◌, inl, inr}
use mathlib.Core.Bool.{Bool, true, ◌&&◌}
use native.Mathlib.Omega.{arith}

-- A test that holds up to a bound holds below it.
abbrev pub all_below : ℕ → (ℕ → Bool) → Bool
all_below zero test = true
all_below (suc n) test = test n && all_below n test

pub and_split : (a b : Bool) → (a && b) ≡ true → (a ≡ true) × (b ≡ true)
and_split a b h = ground arith

lt_suc : (k n : ℕ) → k < suc n → (k ≡ n) ⊎ (k < n)
lt_suc k n lt = omega (arith, lt)

pub all_below-elim :
    (n : ℕ) (test : ℕ → Bool) → all_below n test ≡ true → (k : ℕ) → k < n → test k ≡ true
all_below-elim zero test all k lt = ground arith
all_below-elim (suc n) test all k lt =
    let (here, below) = and_split (test n) (all_below n test) all in
    elim (lt_suc k n lt) [ inl e ↦ rw e here | inr less ↦ all_below-elim n test below k less ]
