-- ===== src/Data/Filled.antt =====
-- What a growing text holds, and when it is written behind its block.
use cmdb.Base.{
  ℕ, ◌+◌, ◌*◌, ◌%◌, ◌^◌, ◌≤◌, ◌<◌, ◌≡◌, refl, sym, inl, inr, true, false, Option, none, some, List,
  [], ◌∷◌, ◌++◌, append_assoc, append-nil, ltb, leb, ltb_cases, length, length-append,
  take-eq_of_le, arith,
}
use cmdb.Data.{Text}
use cmdb.Data.Growing.{
  file_len, AilsaString, ailsa_init_string, ailsa_resize_string, write_behind, ailsa_fill_string,
  fill_all,
}

-- `len` is the length of the text, which is shorter than its block, of a size that can be doubled.
pub record Valid (str : AilsaString) : Type 0 where
  pub measured : str.len ≡ length str.string
  pub shorter : str.len < str.size

-- A text with another behind it, in a block of some size.
abbrev pub grown : AilsaString → Text → ℕ → AilsaString
grown str s n = record { string = str.string ++ s; len = length (str.string ++ s); size = n }

write_behind_lem :
    (s : Text) (str : AilsaString)
    → str.len ≡ length str.string
    → str.len + length s < str.size
    → write_behind s str ≡ some (grown str s str.size)
write_behind_lem s str measured room =
    let e : ltb str.size (str.len + length s + 1) ≡ false = ground arith in
    let whole = take-eq_of_le str.len str.string (omega (arith, measured)) in rw (e, whole) refl

fill_large :
    (s : Text) (str : AilsaString)
    → Valid str
    → str.size < 2 ^ 63
    → str.size ≤ length s + str.len
    → length s ≤ str.size
    → ailsa_fill_string s str ≡ some (grown str s (2 * str.size))
unfolding ailsa_fill_string ailsa_resize_string
fill_large s str valid small large fits =
    let a : leb str.size (length s + str.len) ≡ true = ground arith in
    let b : str.size * 2 % 2 ^ 64 ≡ 2 * str.size = omega (arith, small) in
    let room : str.len + length s < 2 * str.size = omega (arith, valid.shorter, fits) in
    rw (a, b) (write_behind_lem s (record str { size = 2 * str.size }) valid.measured room)

fill_small :
    (s : Text) (str : AilsaString)
    → Valid str
    → length s + str.len < str.size
    → ailsa_fill_string s str ≡ some (grown str s str.size)
unfolding ailsa_fill_string
fill_small s str valid room =
    let a : leb str.size (length s + str.len) ≡ false = ground arith in
    let fits : str.len + length s < str.size = omega (arith, room) in
    rw a (write_behind_lem s str valid.measured fits)

-- A text longer than the block is written behind it where twice the size is not enough.
pub fill_overflows :
    (s : Text) (str : AilsaString)
    → str.size < 2 ^ 63
    → 2 * str.size ≤ length s + str.len
    → ailsa_fill_string s str ≡ none
unfolding ailsa_fill_string ailsa_resize_string
fill_overflows s str small long =
    let a : leb str.size (length s + str.len) ≡ true = ground arith in
    let b : str.size * 2 % 2 ^ 64 ≡ 2 * str.size = omega (arith, small) in
    let c : ltb (2 * str.size) (str.len + length s + 1) ≡ true = ground arith in rw (a, b, c) refl

-- A string that stands between the operations: no smaller than at first, and no larger than it must be.
record Grown (str : AilsaString) : Type 0 where
  valid : Valid str
  at_least : file_len ≤ str.size
  at_most : str.size ≤ file_len + 2 * str.len

fill_cases :
    (s : Text) (str : AilsaString)
    → Grown str
    → length s ≤ file_len
    → str.len + length s < 2 ^ 61
    → {G : Type 0}
    → ((n : ℕ) → ailsa_fill_string s str ≡ some (grown str s n) → Grown (grown str s n) → G)
    → G
fill_cases s str state short small k =
    let m = state.valid.measured in
    let l = length-append str.string s in
    let least = state.at_least in
    let most = state.at_most in
    elim (ltb_cases (length s + str.len) str.size) [
      | inl (e, lt) ↦ k str.size (fill_small s str state.valid lt) (record {
        valid = record { measured = refl; shorter = omega (arith, l, m, lt) };
        at_least = least;
        at_most = omega (arith, most, l, m);
      })
      | inr (e, ge) ↦
          let fits : length s ≤ str.size = omega (arith, short, least) in
          let word : str.size < 2 ^ 63 = omega (arith, most, small) in
          k (2 * str.size) (fill_large s str state.valid word ge fits) (record {
            valid = record {
              measured = refl;
              shorter = omega (arith, l, m, fits, state.valid.shorter);
            };
            at_least = omega (arith, least);
            at_most = omega (arith, ge, l, m);
          })
    ]

abbrev pub joined : List Text → Text
joined [] = []
joined (s ∷ texts) = s ++ joined texts

-- Each of them fits into a block of the first size.
pub data Short : List Text → Type 0 where
  no_text : Short []
  and_text : {s : Text} {texts : List Text} → length s ≤ file_len → Short texts → Short (s ∷ texts)

-- The string is there, with that text, its length and a block that is longer.
pub data Has (t : Text) : Option AilsaString → Type 0 where
  has : {str : AilsaString} → str.string ≡ t → Valid str → Has t (some str)

fill_all_from :
    (texts : List Text) (str : AilsaString)
    → Grown str
    → Short texts
    → str.len + length (joined texts) < 2 ^ 61
    → Has (str.string ++ joined texts) (fill_all texts str)
unfolding fill_all
fill_all_from [] str state no_text small = has (sym (append-nil str.string)) state.valid
fill_all_from (s ∷ texts) str state (and_text short shorts) small =
    let l = length-append s (joined texts) in
    let m = length-append str.string s in
    let one : str.len + length s < 2 ^ 61 = omega (arith, small, l) in
    fill_cases s str state short one λ n filled next.
      let rest : length (str.string ++ s) + length (joined texts) < 2 ^ 61 =
        omega (arith, small, l, m, state.valid.measured) in
      rw filled (
        rw (append_assoc str.string s (joined texts)) at
          (fill_all_from texts (grown str s n) next shorts rest))

-- Any sequence of texts, each of at most 4096 bytes and together of less than 2^61, is put together
-- without a write behind the block, and the string holds them one behind the other, with its length.
pub fill_all_lem :
    (texts : List Text)
    → Short texts
    → length (joined texts) < 2 ^ 61
    → Has (joined texts) (fill_all texts ailsa_init_string)
unfolding ailsa_init_string
fill_all_lem texts shorts small =
    let start : Grown ailsa_init_string = record {
      valid = record { measured = refl; shorter = omega arith };
      at_least = omega arith;
      at_most = omega arith;
    } in
    let within : 0 + length (joined texts) < 2 ^ 61 = omega (arith, small) in
    fill_all_from texts ailsa_init_string start shorts within
