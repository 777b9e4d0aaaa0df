-- ===== src/Base.antt =====
-- Names that every part of the development shares: the libraries', passed on, and those of the
-- children (Boolean tests, lists over the native numbers, C integers, tests of small numbers).
mod Tests
mod Lists
mod Int
mod Finite
mod Digits
pub use Tests.*
pub use Lists.*
pub use Int.*
pub use Finite.*
pub use Digits.*
pub use Prim.Native.Nat.{ℕ, zero, suc, ◌+◌, ◌-◌, ◌*◌, ◌/◌, ◌%◌, ◌^◌, ◌≤◌, ◌<◌, bit_and, bit_xor}
pub use mathlib.Core.Path.{◌≡◌, refl, sym, ap, subst, ◌∙◌}
pub use mathlib.Core.Logic.{◌≢◌, ◌↔◌, ◌⊎◌, inl, inr}
pub use mathlib.Core.Bool.{Bool, true, false, not, ◌&&◌, ◌||◌}
pub use mathlib.Core.Option.{Option, none, some}
pub use mathlib.Core.List.{List, [], ◌∷◌, ◌++◌, append_assoc, append-nil}
pub use native.Mathlib.Omega.{arith}
