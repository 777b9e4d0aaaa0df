-- ===== src/Data/Reading.antt =====
-- What is read back from a list of values.
use cmdb.Base.{
  ℕ, zero, suc, ◌+◌, ◌-◌, ◌<◌, ◌≤◌, ◌≡◌, refl, false, some, List, [], ◌∷◌, ◌++◌, ◌==◌, ltb, arith,
  length, get_elem?, length-append, pos,
}
use cmdb.Data.{
  Text, text, DataList, strndup, config_len, cmdb_add_string_to_list,
  cmdb_get_string_from_data_list,
}

get_elem?-append_left {ℓ} :
    {A : Type ℓ} (xs ys : List A) (i : ℕ) → i < length xs → get_elem? (xs ++ ys) i ≡ get_elem? xs i
get_elem?-append_left [] ys i lt = ground arith
get_elem?-append_left (x ∷ xs) ys zero lt = refl
get_elem?-append_left (x ∷ xs) ys (suc i) lt =
    let less : i < length xs = omega (arith, lt) in get_elem?-append_left xs ys i less

get_elem?-append_one {ℓ} :
    {A : Type ℓ} (xs : List A) (y : A) → get_elem? (xs ++ (y ∷ [])) (length xs) ≡ some y
get_elem?-append_one [] y = refl
get_elem?-append_one (x ∷ xs) y = get_elem?-append_one xs y

-- The list with a string behind it.
abbrev pub with_string : DataList → Text → DataList
with_string list str = list ++ (text (strndup str config_len) ∷ [])

-- `cmdb_add_string_to_list` followed by `cmdb_get_string_from_data_list`: the number behind the old
-- total reads back the first 256 bytes of the string, and each number from 1 to the old total reads
-- what it read before.
pub get-add_string :
    (list : DataList) (str : Text) (n : ℕ)
    → 0 < n
    → n ≤ length list
    → (cmdb_add_string_to_list (some str) (some list) ≡ (pos 0, some (with_string list str)))
      × (cmdb_get_string_from_data_list (some (with_string list str)) (length list + 1)
          ≡ some (strndup str config_len))
      × (cmdb_get_string_from_data_list (some (with_string list str)) n
          ≡ cmdb_get_string_from_data_list (some list) n)
unfolding cmdb_add_string_to_list cmdb_get_string_from_data_list
get-add_string list str n positive le =
    let longer = length-append list (text (strndup str config_len) ∷ []) in
    let a : (length list + 1 == 0) ≡ false = ground arith in
    let b : ltb (length list + 1) (length list + 1) ≡ false = ground arith in
    let c : length list + 1 - 1 ≡ length list = omega arith in
    let d : (n == 0) ≡ false = ground arith in
    let e : ltb (length list + 1) n ≡ false = ground arith in
    let f : ltb (length list) n ≡ false = ground arith in
    let i : n - 1 < length list = omega (arith, positive, le) in
    (
      refl,
      rw (longer, a, b, c, get_elem?-append_one list (text (strndup str config_len))) refl,
      rw
          (
            longer,
            d,
            e,
            f,
            get_elem?-append_left list (text (strndup str config_len) ∷ []) (n - 1) i,
          )
          refl,
    )
