-- ===== src/Sql/Lite/Rows.antt =====
-- What the queries of SQLite return, and what they leave open.
use cmdb.Base.{
  ℕ, zero, suc, ◌-◌, ◌<◌, ◌≤◌, ◌≡◌, refl, sym, ◌∙◌, true, false, some, List, [], ◌∷◌, ◌++◌,
  append_assoc, append-nil, ◌==◌, ℤ, pos, length, take, arith,
}
use cmdb.Data.{Text, codes, DataList}
use cmdb.Sql.{SqlQuery}
use cmdb.Sql.Multi.{ailsa_wrong_list_lenght}
use cmdb.Sql.Lite.{Lite, Session, Bound, buffer_len, ailsa_setup_ro_sqlite, ailsa_sqlite_cleanup}
use cmdb.Sql.Lite.Values.{stored, short_rounds, store_columns, ailsa_store_basic_sqlite}
use cmdb.Sql.Lite.Queries.{
  sqlite_row, equals, done_is_zero, row_rounds, ailsa_argument_query_sqlite,
}
use cmdb.Sql.Lite.Bind.{Accepts, values_at, bind_all, bind_arguments_lem}

-- The state of a session behind calls that give out and take back nothing.
abbrev pub moved : {World : Type 0} → Session World → World → Session World
moved s w = record s { world = w }

abbrev pub holding : {World : Type 0} → Session World → World → Session World
holding s w = record { world = w; connections = suc s.connections; statements = suc s.statements }

abbrev pub concatenated : List DataList → DataList
concatenated [] = []
concatenated (row ∷ rows) = row ++ concatenated rows

module _ {World : Type 0} (lite : Lite World) where
  -- The file can be opened for reading, and the statement prepared.
  pub record Prepares (file query : Text) (w : World) : Type 0 where
    pub opened : (lite.open_v2 file false w).0 ≡ pos 0
    pub prepared : (lite.prepare_v2 query (lite.open_v2 file false w).1).0 ≡ pos 0

  abbrev pub prepared_world : Text → Text → World → World
  prepared_world file query w = (lite.prepare_v2 query (lite.open_v2 file false w).1).1

  abbrev row_from : ℕ → ℕ → World → DataList
  row_from zero i w = []
  row_from (suc left) i w = stored (lite.column w i) ∷ row_from left (suc i) w

  abbrev pub row : World → DataList
  row w = row_from (short_rounds (lite.column_count w)) 0 w

  -- The statement gives those rows, and then a code other than SQLITE_ROW.
  pub data Yields : World → List DataList → ℤ → World → Type 0 where
    ends :
        {w : World}
        → equals (lite.step w).0 sqlite_row ≡ false
        → Yields w [] (lite.step w).0 (lite.step w).1
    next :
        {w v : World} {rows : List DataList} {code : ℤ}
        → (lite.step w).0 ≡ pos sqlite_row
        → Yields (lite.step w).1 rows code v
        → Yields w (row (lite.step w).1 ∷ rows) code v

  store_columns_lem :
      (left i : ℕ) (w : World) (results : DataList)
      → store_columns lite left i w results ≡ results ++ row_from left i w
  store_columns_lem zero i w results = sym (append-nil results)
  store_columns_lem (suc left) i w results =
      store_columns_lem left (suc i) w (results ++ (stored (lite.column w i) ∷ []))
      ∙ append_assoc results (stored (lite.column w i) ∷ []) (row_from left (suc i) w)

  row_rounds_lem :
      (fuel : ℕ) {w v : World} {rows : List DataList} {code : ℤ} (s : Session World)
      (results : DataList)
      → Yields w rows code v
      → length rows < fuel
      → row_rounds lite fuel (moved s w) results
        ≡ some (code, moved s v, results ++ concatenated rows)
  unfolding row_rounds ailsa_store_basic_sqlite
  row_rounds_lem zero s results yields enough = absurd (omega (arith, enough))
  row_rounds_lem (suc fuel) s results (ends last) enough = rw (last, append-nil results) refl
  row_rounds_lem (suc fuel) s results (next {w} {v} {rows} {code} more yields) enough =
      let here = lite.step w in
      let fewer : length rows < fuel = omega (arith, enough) in
      let rest = row_rounds_lem fuel s (results ++ row here.1) yields fewer in
      rw
        (
          more,
          store_columns_lem (short_rounds (lite.column_count here.1)) 0 here.1 results,
          rest,
          append_assoc results (row here.1) (concatenated rows),
        )
        refl

  setup_lem :
      (file query : Text) (s : Session World)
      → Prepares file (take buffer_len query) s.world
      → ailsa_setup_ro_sqlite lite query file s
        ≡ (pos 0, holding s (prepared_world file (take buffer_len query) s.world))
  unfolding ailsa_setup_ro_sqlite
  setup_lem file query s prepares = rw (prepares.opened, prepares.prepared) refl

  back :
      (s : Session World) (w : World)
      → ailsa_sqlite_cleanup lite (holding s w) ≡ moved s (lite.close (lite.finalize w))
  unfolding ailsa_sqlite_cleanup
  back s w =
      let c : suc s.connections - 1 ≡ s.connections = omega arith in
      let d : suc s.statements - 1 ≡ s.statements = omega arith in rw (c, d) refl

  module _ {places : ℕ} {Ready : World → Type 0} (accepts : Accepts lite places Ready) where
    -- With the file opened and the statement prepared, and one argument of its type for each place of
    -- the statement, the query appends the values of all rows to the results, in their order; its code
    -- is 0 where the rows end with SQLITE_DONE, else the code they end with; and the connection and the
    -- statement are taken back. One round more than there are rows is enough fuel.
    pub argument_query_lem :
        (fuel : ℕ) (file : Text) (q : SqlQuery) (args results : DataList) (vs : List Bound)
        (s : Session World) {rows : List DataList} {code : ℤ} {v : World}
        → q.number ≡ places
        → Prepares file (take buffer_len (codes q.query)) s.world
        → Ready (prepared_world file (take buffer_len (codes q.query)) s.world)
        → values_at q.fields 0 args ≡ some vs
        → length args ≡ places
        → Yields
            (bind_all lite 0 vs (prepared_world file (take buffer_len (codes q.query)) s.world))
            rows
            code
            v
        → length rows < fuel
        → ailsa_argument_query_sqlite lite fuel (some file) q (some args) (some results) s
          ≡ some (
            done_is_zero code,
            moved s (lite.close (lite.finalize v)),
            some (results ++ concatenated rows),
          )
    unfolding ailsa_argument_query_sqlite
    argument_query_lem fuel file q args results vs s {rows} {code} {v} number prepares ready values
          exact yields enough =
        let opened = holding s (prepared_world file (take buffer_len (codes q.query)) s.world) in
        let few : length args ≤ places = omega (arith, exact) in
        let code' : (length args == places) ≡ true = ground arith in
        let bound =
          rw code' at (bind_arguments_lem lite accepts q.fields args vs opened values few ready) in
        let looped = row_rounds_lem fuel opened results yields enough in
        rw (setup_lem file (codes q.query) s prepares, number, bound, looped, back s v) refl

    -- With fewer arguments, the query says AILSA_WRONG_LIST_LENGHT and leaves the results alone, but the
    -- connection and the statement stay open.
    pub argument_query_leaks :
        (fuel : ℕ) (file : Text) (q : SqlQuery) (args results : DataList) (vs : List Bound)
        (s : Session World)
        → q.number ≡ places
        → Prepares file (take buffer_len (codes q.query)) s.world
        → Ready (prepared_world file (take buffer_len (codes q.query)) s.world)
        → values_at q.fields 0 args ≡ some vs
        → length args < places
        → ailsa_argument_query_sqlite lite fuel (some file) q (some args) (some results) s
          ≡ some (
            ailsa_wrong_list_lenght,
            holding s (
                bind_all lite 0 vs (prepared_world file (take buffer_len (codes q.query)) s.world)),
            some results,
          )
    unfolding ailsa_argument_query_sqlite
    argument_query_leaks fuel file q args results vs s number prepares ready values few =
        let opened = holding s (prepared_world file (take buffer_len (codes q.query)) s.world) in
        let fewer : length args ≤ places = omega (arith, few) in
        let code : (length args == places) ≡ false = ground arith in
        let bound =
          rw code at (bind_arguments_lem lite accepts q.fields args vs opened values fewer ready) in
        rw (setup_lem file (codes q.query) s prepares, number, bound) refl
