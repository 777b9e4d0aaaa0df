-- ===== src/Sql/Lite/Queries.antt =====
-- lib/queries.c: the functions that run a statement with SQLite. `none` is a loop that needs more
-- fuel, or a value that was not stored (module Values). A pointer `cmdb` is given by the name of its file.
use cmdb.Base.{
  ℕ, zero, suc, Bool, false, Option, none, some, List, ◌==◌, if◌then◌else◌, ℤ, pos, is_ok, length,
}
use cmdb.Data.{Text, codes, DataList, ailsa_no_data}
use cmdb.Sql.{SqlQuery, FieldType}
use cmdb.Sql.Multi.{SqlMulti}
use cmdb.Sql.Lite.{
  Lite, Session, ailsa_statement_fail, ailsa_setup_ro_sqlite, ailsa_setup_rw_sqlite,
  ailsa_sqlite_cleanup,
}
use cmdb.Sql.Lite.Values.{ailsa_bind_arguments_sqlite, ailsa_store_basic_sqlite}

abbrev pub sqlite_row : ℕ
sqlite_row = 100

abbrev pub sqlite_done : ℕ
sqlite_done = 101

abbrev pub equals : ℤ → ℕ → Bool
equals (pos n) m = n == m
equals _ m = false

-- `if (retval == SQLITE_DONE) retval = 0`
abbrev pub done_is_zero : ℤ → ℤ
done_is_zero retval = if equals retval sqlite_done then pos 0 else retval

module _ {World : Type 0} (lite : Lite World) where
  abbrev pub next_row : Session World → ℤ × Session World
  next_row s = let (retval, w) = lite.step s.world in (retval, record s { world = w })

  -- `while ((retval = sqlite3_step(state)) == SQLITE_ROW)`
  unfoldable pub row_rounds : ℕ → Session World → DataList → Option (ℤ × Session World × DataList)
  row_rounds zero s results = none
  row_rounds (suc fuel) s results =
      let (retval, t) = next_row s in
      let rest = row_rounds fuel t (ailsa_store_basic_sqlite lite t results) in
      if equals retval sqlite_row then rest else some (retval, t, results)

  -- The loop over the rows, and `ailsa_sqlite_cleanup`.
  abbrev pub cleaned : Option (ℤ × Session World × DataList) → Option (ℤ × Session World × DataList)
  cleaned none = none
  cleaned (some (retval, s, results)) =
      some (done_is_zero retval, ailsa_sqlite_cleanup lite s, results)

  -- The caller's list holds them.
  abbrev pub with_results :
      Option (ℤ × Session World × DataList) → Option (ℤ × Session World × Option DataList)
  with_results none = none
  with_results (some (retval, s, results)) = some (retval, s, some results)

  unfoldable pub ailsa_basic_query_sqlite :
      ℕ
      → Option Text
      → Option Text
      → Option DataList
      → Session World
      → Option (ℤ × Session World × Option DataList)
  unfolding row_rounds
  ailsa_basic_query_sqlite fuel (some file) (some query) (some results) s =
      let (retval, t) = ailsa_setup_ro_sqlite lite query file s in
      if is_ok retval
      then with_results (cleaned (row_rounds fuel t results))
      else some (retval, t, some results)
  ailsa_basic_query_sqlite fuel file query results s = some (ailsa_no_data, s, results)

  -- What follows the binding of the arguments.
  abbrev pub run_bound :
      ℕ → DataList → Option (ℤ × Session World) → Option (ℤ × Session World × Option DataList)
  run_bound fuel results none = none
  run_bound fuel results (some (retval, s)) =
      if is_ok retval
      then with_results (cleaned (row_rounds fuel s results))
      else some (retval, s, some results)

  unfoldable pub ailsa_argument_query_sqlite :
      ℕ
      → Option Text
      → SqlQuery
      → Option DataList
      → Option DataList
      → Session World
      → Option (ℤ × Session World × Option DataList)
  unfolding row_rounds
  ailsa_argument_query_sqlite fuel (some file) argument (some args) (some results) s =
      let (retval, t) = ailsa_setup_ro_sqlite lite (codes argument.query) file s in
      if is_ok retval
      then run_bound fuel results
          (ailsa_bind_arguments_sqlite lite (some args) argument.number argument.fields t)
      else some (retval, t, some results)
  ailsa_argument_query_sqlite fuel file argument args results s = some (ailsa_no_data, s, results)

  -- The one step of a statement that changes the database, and `cleanup`.
  abbrev pub change_bound : Option (ℤ × Session World) → Option (ℤ × Session World)
  change_bound none = none
  change_bound (some (retval, s)) =
      let (code, t) = next_row s in
      if is_ok retval
      then some (
        done_is_zero (if equals code sqlite_done then code else ailsa_statement_fail),
        ailsa_sqlite_cleanup lite t,
      )
      else some (done_is_zero retval, ailsa_sqlite_cleanup lite s)

  abbrev pub change :
      Text → Text → ℕ → List FieldType → DataList → Session World → Option (ℤ × Session World)
  change file query t f args s =
      let (retval, u) = ailsa_setup_rw_sqlite lite query (length query) file s in
      if is_ok retval
      then change_bound (ailsa_bind_arguments_sqlite lite (some args) t f u)
      else some (retval, u)

  unfoldable pub ailsa_delete_query_sqlite :
      Option Text → SqlQuery → Option DataList → Session World → Option (ℤ × Session World)
  ailsa_delete_query_sqlite (some file) query (some delete) s =
      change file (codes query.query) query.number query.fields delete s
  ailsa_delete_query_sqlite file query delete s = some (ailsa_no_data, s)

  unfoldable pub ailsa_insert_query_sqlite :
      Option Text → SqlQuery → Option DataList → Session World → Option (ℤ × Session World)
  ailsa_insert_query_sqlite (some file) query (some insert) s =
      change file (codes query.query) query.number query.fields insert s
  ailsa_insert_query_sqlite file query insert s = some (ailsa_no_data, s)

  unfoldable pub ailsa_multiple_query_sqlite :
      Option Text → Option SqlMulti → Option DataList → Session World → Option (ℤ × Session World)
  ailsa_multiple_query_sqlite (some file) (some sql) (some insert) s =
      change file sql.query sql.total sql.fields insert s
  ailsa_multiple_query_sqlite file sql insert s = some (ailsa_no_data, s)
