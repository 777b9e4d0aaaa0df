-- ===== src/Sql/Multi.antt =====
-- lib/queries.c: the statements for several rows, which are put together in a buffer. `none` is a
-- write behind the end of the buffer, or a division by zero.
pub mod Places
pub mod Rows
pub mod Delete
use cmdb.Base.{
  ℕ, zero, suc, ◌+◌, ◌-◌, ◌*◌, ◌/◌, ◌%◌, ◌^◌, not, ◌||◌, Option, none, some, List, [], ◌∷◌, ◌++◌,
  ◌==◌, if◌then◌else◌, ltb, ℤ, pos, length, take,
}
use cmdb.Data.{Text, codes, ailsa_no_data}
use cmdb.Sql.{SqlQuery, FieldType, field_at}

abbrev pub ailsa_wrong_list_lenght : ℤ
ailsa_wrong_list_lenght = pos 226

abbrev pub ailsa_query_fail : ℤ
ailsa_query_fail = pos 306

-- A block of `size` bytes that holds the C string `text`.
pub record Buffer : Type 0 where
  pub size : ℕ
  pub text : Text

-- `ailsa_calloc(n)`
abbrev pub calloc : ℕ → Buffer
calloc n = record { size = n; text = [] }

abbrev pub bind {ℓ κ} : {A : Type ℓ} {B : Type κ} → Option A → (A → Option B) → Option B
bind none k = none
bind (some a) k = k a

-- `sprintf(buffer + offset, "%s", s)`, for an offset within the string: the text, and a NUL.
unfoldable pub print_at : ℕ → Text → Buffer → Option Buffer
print_at offset s buffer =
    if ltb buffer.size (offset + length s + 1)
    then none
    else some (record buffer { text = take offset buffer.text ++ s })

-- A place for a value, and what separates it from the next one.
abbrev pub place : Text
place = codes "?, "

-- `sprintf(tmp, "?, "); tmp += 3`, so many times from an offset on.
unfoldable pub print_places : ℕ → ℕ → Buffer → Option Buffer
print_places zero offset buffer = some buffer
print_places (suc rounds) offset buffer =
    bind (print_at offset place buffer) (print_places rounds (offset + 3))

-- The loop of `cmdb_create_value_string`, which takes the length of the string anew in each round.
unfoldable pub value_rounds : ℕ → Buffer → Option Buffer
value_rounds zero value = some value
value_rounds (suc rounds) value =
    bind (print_at (length value.text) place value) (value_rounds rounds)

unfoldable pub cmdb_create_value_string : ℕ → Option Text
unfolding print_at value_rounds
cmdb_create_value_string count = bind (print_at 0 (codes ", (") (calloc (count * 3 + 4))) λ start.
    bind (value_rounds count start)
      λ value. bind (print_at (length value.text - 2) (codes ")") value) λ closed. some closed.text

-- `ailsa_sql_multi_s`
pub record SqlMulti : Type 0 where
  pub query : Text
  pub number : ℕ
  pub total : ℕ
  pub fields : List FieldType

-- `m[k] = v`
abbrev pub set_entry : List FieldType → ℕ → FieldType → Option (List FieldType)
set_entry [] k v = none
set_entry (x ∷ m) zero v = some (v ∷ m)
set_entry (x ∷ m) (suc k) v = bind (set_entry m k v) λ r. some (x ∷ r)

-- The entries that ailsa_calloc returns.
abbrev pub zeros : ℕ → List FieldType
zeros zero = []
zeros (suc n) = FieldType.null_type ∷ zeros n

-- The loop over `j`, with the rounds left. `i * n + j` is `j` for the first row as well.
unfoldable pub fill_row : ℕ → ℕ → ℕ → ℕ → List FieldType → List FieldType → Option (List FieldType)
fill_row zero i n j f m = some m
fill_row (suc left) i n j f m =
    bind (set_entry m ((i * n + j) % 2 ^ 32) (field_at f j)) (fill_row left i n (suc j) f)

-- The loop over `i`.
unfoldable pub fill_rows : ℕ → ℕ → ℕ → List FieldType → List FieldType → Option (List FieldType)
fill_rows zero i n f m = some m
fill_rows (suc left) i n f m = bind (fill_row n i n 0 f m) (fill_rows left (suc i) n f)

-- `f` has the entries of an `ailsa_sql_query_s`, twenty of them.
unfoldable pub cmdb_insert_fields_array : ℕ → ℕ → List FieldType → Option (List FieldType)
unfolding fill_row fill_rows
cmdb_insert_fields_array n tot f =
    if n == 0 || ltb 20 n then none else fill_rows (tot % 2 ^ 32 / n) 0 n f (zeros tot)

-- `sprintf(q + len_q, "%s", values); len_q += len_s`, so many times.
unfoldable pub append_values : ℕ → ℕ → Text → Buffer → Option Buffer
append_values zero len_q values q = some q
append_values (suc rounds) len_q values q =
    bind (print_at len_q values q) (append_values rounds (len_q + length values) values)

unfoldable pub cmdb_create_multi : SqlQuery → ℕ → Option (ℤ × Option SqlMulti)
unfolding cmdb_create_value_string cmdb_insert_fields_array print_at append_values
cmdb_create_multi query total =
    let q = codes query.query in
    let n = query.number in
    if total == 0
    then some (ailsa_no_data, none)
    else if n == 0
    then none
    else bind (cmdb_create_value_string n) λ values.
      let len_t = total / n in
      bind (cmdb_insert_fields_array n total query.fields) λ u.
        bind (print_at 0 q (calloc (length values * len_t + length q))) λ start.
          bind (append_values (len_t - 1) (length q) values start) λ whole. some (
            pos 0,
            some (record { query = whole.text; number = n; total = total % 2 ^ 32; fields = u }),
          )

-- `strrchr`: the position of the last `c`.
abbrev pub last_index : ℕ → Text → Option ℕ
last_index c [] = none
last_index c (x ∷ t) = elim (last_index c t) [
  | some i ↦ some (suc i)
  | none ↦ if x == c then some 0 else none
]

-- `ptr[i] = field` for all the entries.
abbrev pub same : ℕ → FieldType → List FieldType
same zero f = []
same (suc n) f = f ∷ same n f

-- The rest of `cmdb_create_delete_multi`, behind `strrchr`. `tmp` ends behind the last place, and goes
-- back over what separates it from the next.
abbrev pub close_delete : Buffer → ℕ → ℕ → Option Text
close_delete q tmp total = bind (print_at tmp (codes "IN (") q) λ opened.
    bind (print_places total (tmp + 4) opened) λ filled.
      bind (print_at (tmp + 4 + 3 * total - 2) (codes ")") filled) λ closed. some closed.text

abbrev pub delete_result : SqlQuery → ℕ → Buffer → Option ℕ → Option (ℤ × Option SqlMulti)
delete_result query total q none = some (ailsa_query_fail, none)
delete_result query total q (some tmp) = bind (close_delete q tmp total) λ t. some (
  pos 0,
  some (record {
    query = t;
    number = query.number;
    total = total % 2 ^ 32;
    fields = same total (field_at query.fields 0);
  }),
)

unfoldable pub cmdb_create_delete_multi : SqlQuery → ℕ → Option (ℤ × Option SqlMulti)
unfolding print_at print_places
cmdb_create_delete_multi query total =
    let q = codes query.query in
    if total == 0
    then some (ailsa_no_data, none)
    else if not (query.number == 1)
    then some (ailsa_wrong_list_lenght, none)
    else bind (print_at 0 q (calloc (total * 3 + 3 + length q)))
        λ start. delete_result query total start (last_index b'=' q)
