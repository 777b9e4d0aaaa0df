-- ===== src/Sql/Lite/Several.antt =====
-- `ailsa_multiple_delete` and `ailsa_multiple_query` of lib/queries.c with SQLite: the statement that
-- is put together, and what is run.
use cmdb.Base.{
  ℕ, suc, ◌+◌, ◌*◌, ◌%◌, ◌^◌, ◌<◌, ◌≡◌, true, false, none, some, List, ◌∷◌, ◌++◌, ◌≤◌, ℤ, length,
  arith, append-nil,
}
use cmdb.Data.{Text, codes, DataList}
use cmdb.Sql.{SqlQuery, field_at}
use cmdb.Sql.Multi.{last_index, same}
use cmdb.Sql.Multi.Places.{places}
use cmdb.Sql.Multi.Delete.{opening, cmdb_create_delete_multi_lem}
use cmdb.Sql.Multi.Rows.{row, copies, cmdb_create_multi_lem}
use cmdb.Sql.Lite.{Lite, Session, Bound}
use cmdb.Sql.Lite.Queries.{ailsa_multiple_query_sqlite}
use cmdb.Sql.Lite.Bind.{Accepts, values_at, bind_all}
use cmdb.Sql.Lite.Rows.{moved}
use cmdb.Sql.Lite.Changes.{PreparesChange, change_world, change_code, change_lem}
use cmdb.Sql.Lite.Dispatch.{Source, is_type, ailsa_multiple_delete, ailsa_multiple_query}

-- The statement that inserts so many further rows.
abbrev pub rows_query : Text → ℕ → ℕ → Text
rows_query q k n = q ++ copies k (row n)

-- The statement that deletes what has one of so many values in a column.
abbrev pub in_query : Text → ℕ → Text
in_query a n = a ++ opening ++ places n ++ codes ")"

module _ {World : Type 0} (lite : Lite World) where
  -- The library behind the one step of a statement with those values.
  abbrev pub stepped : Text → Text → List Bound → World → ℤ × World
  stepped file query vs w = lite.step (bind_all lite 0 vs (change_world lite file query w))

  module _ {n : ℕ} {Ready : World → Type 0} (accepts : Accepts lite (suc n) Ready) (source : Source)
      (here : is_type source (codes "sqlite") ≡ true)
      (other : is_type source (codes "none") ≡ false) where
    -- A deletion by one column, `... WHERE c = ?`, of all rows with one of the values of the list: the
    -- statement that is prepared is `... WHERE c IN (?, ?)` with one place for each of them, every value
    -- is bound to its place, and the code is 0 where the one step says SQLITE_DONE, else
    -- AILSA_STATEMENT_FAIL. The connection and the statement are taken back.
    pub ailsa_multiple_delete_lem :
        (query : SqlQuery) (a b : Text) (args : DataList) (vs : List Bound) (s : Session World)
        → query.number ≡ 1
        → codes query.query ≡ a ++ b'=' ∷ b
        → last_index b'=' b ≡ none
        → 0 < length b
        → length args ≡ suc n
        → suc n < 2 ^ 32
        → values_at (same (suc n) (field_at query.fields 0)) 0 args ≡ some vs
        → PreparesChange lite source.file (in_query a (suc n)) s.world
        → Ready (change_world lite source.file (in_query a (suc n)) s.world)
        → ailsa_multiple_delete lite source query args s
          ≡ some (
            change_code (stepped source.file (in_query a (suc n)) vs s.world).0,
            moved s (
                lite.close (lite.finalize (stepped source.file (in_query a (suc n)) vs s.world).1)),
          )
    unfolding ailsa_multiple_delete ailsa_multiple_query_sqlite
    ailsa_multiple_delete_lem query a b args vs s one split last some_behind size small values
          prepares ready =
        let word : suc n % 2 ^ 32 ≡ suc n = omega (arith, small) in
        let made =
          rw word at (cmdb_create_delete_multi_lem query a b one split last n some_behind) in
        rw (size, made, other, here)
          (change_lem lite accepts source.file (in_query a (suc n))
            (same (suc n) (field_at query.fields 0)) args vs s prepares ready values size)

    -- The insertion of several rows: the statement that is prepared has `, (?, ..., ?)` for each row but
    -- the first, every value of the list is bound to its place, and the code is 0 where the one step says
    -- SQLITE_DONE, else AILSA_STATEMENT_FAIL. The connection and the statement are taken back. The list
    -- has whole rows, one or more, and the statement as many types as places.
    pub ailsa_multiple_query_lem :
        (query : SqlQuery) (k : ℕ) (args : DataList) (vs : List Bound) (s : Session World)
        → length query.fields ≡ query.number
        → 0 < query.number
        → query.number ≤ 20
        → suc k * query.number ≡ suc n
        → suc n < 2 ^ 32
        → length args ≡ suc n
        → values_at (copies (suc k) query.fields) 0 args ≡ some vs
        → PreparesChange lite source.file (rows_query (codes query.query) k query.number) s.world
        → Ready
            (change_world lite source.file (rows_query (codes query.query) k query.number) s.world)
        → ailsa_multiple_query lite source query args s
          ≡ some (
            change_code
                (stepped source.file (rows_query (codes query.query) k query.number) vs s.world).0,
            moved s (
                lite.close (
                  lite.finalize
                    (stepped source.file
                      (rows_query (codes query.query) k query.number)
                      vs
                      s.world).1)),
          )
    unfolding ailsa_multiple_query ailsa_multiple_query_sqlite
    ailsa_multiple_query_lem query k args vs s typed some_place room whole small size values
          prepares ready =
        let nothing : suc k * query.number + 0 ≡ suc n = omega (arith, whole) in
        let below : suc k * query.number + 0 < 2 ^ 32 = omega (arith, whole, small) in
        let made =
          rw (nothing, append-nil (copies (suc k) query.fields)) at
            (cmdb_create_multi_lem query typed room k 0 some_place below) in
        rw (size, made, other, here)
          (change_lem lite accepts source.file (rows_query (codes query.query) k query.number)
            (copies (suc k) query.fields) args vs s prepares ready values size)
