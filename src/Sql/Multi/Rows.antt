-- ===== src/Sql/Multi/Rows.antt =====
-- `cmdb_create_multi` of lib/queries.c: what it makes of a statement that inserts one row.
use mathlib.Core.List.{append-nil}
use native.Mathlib.Nat.{suc-mul, mul_comm, div-eq_of_lt-le}
use cmdb.Base.{
  ℕ, zero, suc, ◌+◌, ◌-◌, ◌*◌, ◌/◌, ◌%◌, ◌^◌, ◌≤◌, ◌<◌, ◌≡◌, refl, sym, ap, ◌∙◌, false, some, List,
  [], ◌∷◌, ◌++◌, append_assoc, ◌==◌, ltb, arith, length, length-append, pos,
}
use cmdb.Data.{Text, codes}
use cmdb.Sql.{SqlQuery, FieldType, field_at}
use cmdb.Sql.Multi.{
  bind, print_at, cmdb_create_value_string, set_entry, zeros, fill_row, fill_rows,
  cmdb_insert_fields_array, append_values, cmdb_create_multi,
}
use cmdb.Sql.Multi.Places.{
  holding, print_at_end, open_places, places, length-open_places, value_rounds_lem, close_places,
}

-- One more row: `, (?, ..., ?)`.
abbrev pub row : ℕ → Text
row n = codes ", (" ++ places n ++ codes ")"

pub value_string_lem : (n : ℕ) → cmdb_create_value_string (suc n) ≡ some (row (suc n))
unfolding cmdb_create_value_string
value_string_lem n =
    let size = suc n * 3 + 4 in
    let front : 0 + 3 < size = omega arith in
    let inside : 3 + 3 * suc n < size = omega arith in
    let end : length (codes ", (" ++ open_places (suc n)) ≡ 3 + 3 * suc n =
      omega
        (arith, length-append (codes ", (") (open_places (suc n)), length-open_places (suc n)) in
    rw
      (
        print_at_end size [] (codes ", (") front,
        value_rounds_lem (suc n) size (codes ", (") inside,
        end,
        close_places size n (codes ", (") inside,
      )
      refl

value_string_of_pos : (n : ℕ) → 0 < n → cmdb_create_value_string n ≡ some (row n)
value_string_of_pos zero lt = absurd (omega arith)
value_string_of_pos (suc n) lt = value_string_lem n

-- So many times the same list.
abbrev pub copies {ℓ} : {A : Type ℓ} → ℕ → List A → List A
copies zero t = []
copies (suc k) t = t ++ copies k t

length-copies {ℓ} : {A : Type ℓ} (k : ℕ) (t : List A) → length (copies k t) ≡ k * length t
length-copies zero t = omega arith
length-copies (suc k) t =
    let l = length-append t (copies k t) in
    let n = length-copies k t in let m = suc-mul k (length t) in omega (arith, l, n, m)

append_values_lem :
    (k len_q size : ℕ) (values q : Text)
    → len_q ≡ length q
    → length q + length (copies k values) < size
    → append_values k len_q values (holding size q) ≡ some (holding size (q ++ copies k values))
unfolding append_values
append_values_lem zero len_q size values q e room =
    ap (λ r. some (holding size r)) (sym (append-nil q))
append_values_lem (suc k) len_q size values q e room =
    let l = length-append q values in
    let m = length-append values (copies k values) in
    let fits : length q + length values < size = omega (arith, m, room) in
    let next : len_q + length values ≡ length (q ++ values) = omega (arith, l, e) in
    let rest : length (q ++ values) + length (copies k values) < size = omega (arith, l, m, room) in
    let one =
      ap
        (λ n.
          bind (print_at n values (holding size q))
            (append_values k (len_q + length values) values))
        e in
    let two =
      ap (λ o. bind o (append_values k (len_q + length values) values))
        (print_at_end size q values fits) in
    one
    ∙ two
    ∙ append_values_lem k (len_q + length values) size values (q ++ values) next rest
    ∙ ap (λ r. some (holding size r)) (append_assoc q values (copies k values))

set_entry_lem :
    (a b : List FieldType) (x v : FieldType)
    → set_entry (a ++ x ∷ b) (length a) v ≡ some (a ++ v ∷ b)
set_entry_lem [] b x v = refl
set_entry_lem (y ∷ a) b x v = rw (set_entry_lem a b x v) refl

field_at_lem : (g h : List FieldType) (x : FieldType) → field_at (g ++ x ∷ h) (length g) ≡ x
field_at_lem [] h x = refl
field_at_lem (y ∷ g) h x = field_at_lem g h x

-- The rest `h` of a row behind its beginning `g`.
fill_row_lem :
    (h g a : List FieldType) (i n j z r : ℕ)
    → j ≡ length g
    → length a ≡ i * n + j
    → z ≡ length h + r
    → length a + length h < 2 ^ 32
    → fill_row (length h) i n j (g ++ h) (a ++ zeros z) ≡ some (a ++ h ++ zeros r)
unfolding fill_row
fill_row_lem [] g a i n j z r e at size small =
    let s : z ≡ r = omega (arith, size) in rw (s, append-nil a) refl
fill_row_lem (x ∷ h) g a i n j zero r e at size small = absurd (omega (arith, size))
fill_row_lem (x ∷ h) g a i n j (suc z) r e at size small =
    let place : (i * n + j) % 2 ^ 32 ≡ length a = omega (arith, at, small) in
    let entry : field_at (g ++ x ∷ h) j ≡ x = rw e (field_at_lem g h x) in
    let l = length-append a (x ∷ []) in
    let m = length-append g (x ∷ []) in
    let e' : suc j ≡ length (g ++ x ∷ []) = omega (arith, e, m) in
    let at' : length (a ++ x ∷ []) ≡ i * n + suc j = omega (arith, at, l) in
    let size' : z ≡ length h + r = omega (arith, size) in
    let small' : length (a ++ x ∷ []) + length h < 2 ^ 32 = omega (arith, small, l) in
    let rest = fill_row_lem h (g ++ x ∷ []) (a ++ x ∷ []) i n (suc j) z r e' at' size' small' in
    rw (place, entry, set_entry_lem a (zeros z) FieldType.null_type x)
      (rw (append_assoc g (x ∷ []) h, append_assoc a (x ∷ []) (zeros z), append_assoc a (x ∷ []) h)
        at rest)

fill_rows_lem :
    (left i z r : ℕ) (f a : List FieldType)
    → length a ≡ i * length f
    → z ≡ left * length f + r
    → length a + left * length f < 2 ^ 32
    → fill_rows left i (length f) f (a ++ zeros z) ≡ some (a ++ copies left f ++ zeros r)
unfolding fill_rows
fill_rows_lem zero i z r f a at size small =
    let s : z ≡ r = omega (arith, size) in rw (s, append-nil a) refl
fill_rows_lem (suc left) i z r f a at size small =
    let n = length f in
    let l = length-append a f in
    let m = suc-mul left n in
    let here : length a ≡ i * n + 0 = omega (arith, at) in
    let size' : z ≡ n + (left * n + r) = omega (arith, size, m) in
    let small' : length a + n < 2 ^ 32 = omega (arith, small, m) in
    let one_row = fill_row_lem f [] a i n 0 z (left * n + r) refl here size' small' in
    let at' : length (a ++ f) ≡ suc i * n = omega (arith, at, l, suc-mul i n) in
    let small_rest : length (a ++ f) + left * n < 2 ^ 32 = omega (arith, small, l, m) in
    let others = fill_rows_lem left (suc i) (left * n + r) r f (a ++ f) at' refl small_rest in
    rw one_row (rw (append_assoc a f (copies left f)) at others)

quotient_lem : (k n r : ℕ) → r < n → (suc k * n + r) / n ≡ suc k
quotient_lem k n r lt =
    let below : suc k * n ≤ suc k * n + r = omega arith in
    let m = suc-mul (suc k) n in
    let above : suc k * n + r < (suc k + 1) * n = omega (arith, lt, m) in
    div-eq_of_lt-le n below above

fields_array_lem :
    (k r : ℕ) (f : List FieldType)
    → r < length f
    → length f ≤ 20
    → suc k * length f + r < 2 ^ 32
    → cmdb_insert_fields_array (length f) (suc k * length f + r) f
      ≡ some (copies (suc k) f ++ zeros r)
unfolding cmdb_insert_fields_array
fields_array_lem k r f lt room small =
    let n = length f in
    let total = suc k * n + r in
    let a : (n == 0) ≡ false = ground arith in
    let b : ltb 20 n ≡ false = ground arith in
    let word : total % 2 ^ 32 ≡ total = omega (arith, small) in
    let within : 0 + suc k * n < 2 ^ 32 = omega (arith, small) in
    rw (a, b, word, quotient_lem k n r lt)
      (fill_rows_lem (suc k) 0 total r f [] (omega arith) refl within)

module _ (query : SqlQuery) (typed : length query.fields ≡ query.number)
    (room : query.number ≤ 20) where
  -- For as many values as make one row or more, and some left over, the statement for one row gets a
  -- further `, (?, ..., ?)` for each row but the first, and the types repeat for each row, with zeros for
  -- what is left over. Everything is written within its block.
  pub cmdb_create_multi_lem :
      (k r : ℕ)
      → r < query.number
      → suc k * query.number + r < 2 ^ 32
      → cmdb_create_multi query (suc k * query.number + r)
        ≡ some (
          pos 0,
          some (record {
            query = codes query.query ++ copies k (row query.number);
            number = query.number;
            total = suc k * query.number + r;
            fields = copies (suc k) query.fields ++ zeros r;
          }),
        )
  unfolding cmdb_create_multi
  cmdb_create_multi_lem k r lt small =
      let n = query.number in
      let q = codes query.query in
      let total = suc k * n + r in
      let some_value : (total == 0) ≡ false = ground (arith, suc-mul k n) in
      let some_place : (n == 0) ≡ false = ground arith in
      let size = length (row n) * suc k + length q in
      let m = mul_comm (length (row n)) (suc k) ∙ suc-mul k (length (row n)) in
      let l = length-copies k (row n) in
      let front : 0 + length q < size = omega (arith, m) in
      let inside : length q + length (copies k (row n)) < size = omega (arith, l, m) in
      let word : total % 2 ^ 32 ≡ total = omega (arith, small) in
      let array =
        rw (typed, some_place) at
          (fields_array_lem k r query.fields (rw typed lt) (rw typed room) (rw typed small)) in
      let further : suc k - 1 ≡ k = omega arith in
      let values = value_string_of_pos n (omega (arith, lt)) in
      rw
        (
          some_value,
          some_place,
          values,
          array,
          quotient_lem k n r lt,
          print_at_end size [] q front,
          further,
          append_values_lem k (length q) size (row n) q refl inside,
          word,
        )
        refl
