-- ===== src/Sql/Multi/Places.antt =====
-- Printing behind the end of a string, and the places for values.
use mathlib.Core.List.{append-nil}
use cmdb.Base.{
  ℕ, zero, suc, ◌+◌, ◌-◌, ◌*◌, ◌<◌, ◌≡◌, refl, sym, ap, ◌∙◌, false, some, List, [], ◌∷◌, ◌++◌,
  append_assoc, ltb, arith, length, take, length-append, take-eq_of_le,
}
use cmdb.Data.{Text, codes}
use cmdb.Sql.Multi.{Buffer, print_at, place, print_places, value_rounds}

abbrev pub holding : ℕ → Text → Buffer
holding n t = record { size = n; text = t }

take-append {ℓ} : {A : Type ℓ} (xs ys : List A) → take (length xs) (xs ++ ys) ≡ xs
take-append [] [] = refl
take-append [] (y ∷ ys) = refl
take-append (x ∷ xs) ys = ap (λ r. x ∷ r) (take-append xs ys)

take-length {ℓ} : {A : Type ℓ} (xs : List A) → take (length xs) xs ≡ xs
take-length xs = take-eq_of_le (length xs) xs (omega arith)

-- Printing at an offset inside the string cuts it there.
pub print_at_inside :
    (n : ℕ) (t u s : Text)
    → length t + length s < n
    → print_at (length t) s (holding n (t ++ u)) ≡ some (holding n (t ++ s))
unfolding print_at
print_at_inside n t u s room =
    let e : ltb n (length t + length s + 1) ≡ false = ground arith in rw (e, take-append t u) refl

pub print_at_end :
    (n : ℕ) (t s : Text)
    → length t + length s < n
    → print_at (length t) s (holding n t) ≡ some (holding n (t ++ s))
unfolding print_at
print_at_end n t s room =
    let e : ltb n (length t + length s + 1) ≡ false = ground arith in rw (e, take-length t) refl

-- So many places, each with its separator.
abbrev pub open_places : ℕ → Text
open_places zero = []
open_places (suc n) = place ++ open_places n

-- So many places and no separator at the end.
abbrev pub places : ℕ → Text
places zero = []
places (suc zero) = codes "?"
places (suc (suc n)) = place ++ places (suc n)

abbrev pub separator : Text
separator = codes ", "

pub open_places-places : (n : ℕ) → open_places (suc n) ≡ places (suc n) ++ separator
open_places-places zero = refl
open_places-places (suc n) = ap (λ r. place ++ r) (open_places-places n)

pub length-open_places : (n : ℕ) → length (open_places n) ≡ 3 * n
length-open_places zero = omega arith
length-open_places (suc n) = omega (arith, length-open_places n)

pub print_places_lem :
    (k n offset : ℕ) (t : Text)
    → offset ≡ length t
    → length t + 3 * k < n
    → print_places k offset (holding n t) ≡ some (holding n (t ++ open_places k))
unfolding print_places
print_places_lem zero n offset t e room = ap (λ r. some (holding n r)) (sym (append-nil t))
print_places_lem (suc k) n offset t e room =
    let l = length-append t place in
    let fits : length t + 3 < n = omega (arith, room) in
    let next : offset + 3 ≡ length (t ++ place) = omega (arith, l, e) in
    let rest : length (t ++ place) + 3 * k < n = omega (arith, l, room) in
    rw (e, print_at_end n t place fits)
      (rw e at (print_places_lem k n (offset + 3) (t ++ place) next rest)
        ∙ ap (λ r. some (holding n r)) (append_assoc t place (open_places k)))

pub value_rounds_lem :
    (k n : ℕ) (t : Text)
    → length t + 3 * k < n
    → value_rounds k (holding n t) ≡ some (holding n (t ++ open_places k))
unfolding value_rounds
value_rounds_lem zero n t room = ap (λ r. some (holding n r)) (sym (append-nil t))
value_rounds_lem (suc k) n t room =
    let l = length-append t place in
    let fits : length t + 3 < n = omega (arith, room) in
    let rest : length (t ++ place) + 3 * k < n = omega (arith, l, room) in
    rw (print_at_end n t place fits) (
      value_rounds_lem k n (t ++ place) rest
      ∙ ap (λ r. some (holding n r)) (append_assoc t place (open_places k)))

pub length-places : (n : ℕ) → length (places (suc n)) + 2 ≡ 3 * suc n
length-places n = omega (
  arith,
  length-append (places (suc n)) separator,
  ap length (open_places-places n),
  length-open_places (suc n),
)

-- The end of the list of places: its last separator gives way to the parenthesis.
pub close_places :
    (n total : ℕ) (t : Text)
    → length t + 3 * suc total < n
    → print_at (length t + 3 * suc total - 2) (codes ")") (holding n (t ++ open_places (suc total)))
      ≡ some (holding n (t ++ places (suc total) ++ codes ")"))
close_places n total t room =
    let whole = t ++ places (suc total) in
    let l = length-append t (places (suc total)) in
    let m = length-places total in
    let offset : length t + 3 * suc total - 2 ≡ length whole = omega (arith, l, m) in
    let fits : length whole + 1 < n = omega (arith, l, m, room) in
    let shape =
      ap (λ r. t ++ r) (open_places-places total)
      ∙ sym (append_assoc t (places (suc total)) separator) in
    rw (offset, shape, print_at_inside n whole separator (codes ")") fits) refl
