-- ===== src/Sql/Lite/Values.antt =====
-- lib/queries.c: the values of a statement's arguments, and those of a row.
use cmdb.Base.{
  ℕ, zero, suc, ◌-◌, ◌%◌, ◌^◌, Bool, not, Option, none, some, List, [], ◌∷◌, ◌++◌, if◌then◌else◌,
  ltb, ℤ, pos, negsuc, is_ok, int_of_size, length,
}
use cmdb.Data.{DbData, DataList, strndup, ailsa_no_data}
use cmdb.Sql.{
  FieldType, field_at, null_type, text_type, lint_type, sint_type, tiny_type, float_type, time_type,
}
use cmdb.Sql.Multi.{ailsa_wrong_list_lenght}
use cmdb.Sql.Lite.{Lite, Session, Bound, Column, is_positive, ailsa_invalid_dbtype}

abbrev pub sql_text_max : ℕ
sql_text_max = 4096

-- `(sqlite3_int64)n` of an `unsigned long int`, and back.
unfoldable pub signed : ℕ → ℤ
signed n = if ltb (n % 2 ^ 64) (2 ^ 63) then pos (n % 2 ^ 64) else negsuc (2 ^ 64 - n % 2 ^ 64 - 1)

unfoldable pub unsigned : ℤ → ℕ
unsigned (pos n) = n % 2 ^ 64
unsigned (negsuc n) = 2 ^ 64 - n % 2 ^ 64 - 1

-- What is bound for an argument. The types that are not handled are `refused`; `unset` is a value
-- that is read as a member of the union that was not stored.
pub data Reading : Type 0 where
  given : Bound → Reading
  refused unset : Reading

unfoldable pub reading : FieldType → DbData → Reading
unfolding signed
reading lint_type (DbData.lint n) = given (Bound.int64 (signed n))
reading text_type (DbData.text t) = given (Bound.text t (int_of_size (length t)))
reading float_type (DbData.point p) = given (Bound.double p)
reading sint_type (DbData.sint n) = given (Bound.int n)
reading null_type d = refused
reading tiny_type d = refused
reading time_type d = refused
reading _ _ = unset

-- The test that follows a call: `> 0` for a text, `!= 0` for the others.
abbrev pub failed : FieldType → ℤ → Bool
failed text_type retval = is_positive retval
failed _ retval = not (is_ok retval)

-- The value that is stored for a column. A type that is not known leaves the memory as it is
-- allocated, which is zero.
unfoldable pub stored : Column → DbData
unfolding unsigned
stored (Column.integer n) = DbData.lint (unsigned n)
stored (Column.text t) = DbData.text (strndup t sql_text_max)
stored (Column.float p) = DbData.point p
stored Column.null = DbData.null
stored Column.blob = DbData.null

-- `(short int)n`, as a number of rounds.
abbrev pub short_rounds : ℕ → ℕ
short_rounds n = if ltb (n % 2 ^ 16) (2 ^ 15) then n % 2 ^ 16 else 0

module _ {World : Type 0} (lite : Lite World) where
  -- A round of the loop over the arguments, with what follows it.
  abbrev pub bind_round :
      Reading
      → FieldType
      → ℕ
      → (ℤ → Session World → Option (ℤ × Session World))
      → Session World
      → Option (ℤ × Session World)
  bind_round unset f i rest s = none
  bind_round refused f i rest s = some (ailsa_invalid_dbtype, s)
  bind_round (given value) f i rest s =
      let (retval, w) = lite.bind_value (suc i) value s.world in
      let t = record s { world = w } in if failed f retval then some (retval, t) else rest retval t

  -- The loop over the arguments, with the rounds left.
  unfoldable pub bind_rounds :
      ℕ → ℕ → List FieldType → DataList → ℤ → Session World → Option (ℤ × Session World)
  unfolding reading
  bind_rounds zero i f args retval s = some (retval, s)
  bind_rounds (suc left) i f [] retval s = some (ailsa_wrong_list_lenght, s)
  bind_rounds (suc left) i f (d ∷ args) retval s =
      bind_round (reading (field_at f i) d) (field_at f i) i (bind_rounds left (suc i) f args) s

  unfoldable pub ailsa_bind_arguments_sqlite :
      Option DataList → ℕ → List FieldType → Session World → Option (ℤ × Session World)
  unfolding bind_rounds
  ailsa_bind_arguments_sqlite none t f s = some (ailsa_no_data, s)
  ailsa_bind_arguments_sqlite (some args) t f s = bind_rounds t 0 f args (pos 0) s

  -- The loop over the columns, with the rounds left.
  abbrev pub store_columns : ℕ → ℕ → World → DataList → DataList
  store_columns zero i w results = results
  store_columns (suc left) i w results =
      store_columns left (suc i) w (results ++ (stored (lite.column w i) ∷ []))

  unfoldable pub ailsa_store_basic_sqlite : Session World → DataList → DataList
  unfolding stored
  ailsa_store_basic_sqlite s results =
      store_columns (short_rounds (lite.column_count s.world)) 0 s.world results
