-- ===== src/Sql/Lite/Backend.antt =====
-- SQLite behind the interface that lib/helper.c uses: the functions of lib/queries.c as a `Database`.
use cmdb.Base.{
  ℕ, zero, suc, ◌<◌, ◌≡◌, refl, ap, ◌∙◌, true, false, Option, none, some, List, [], ◌∷◌, ◌++◌, ℤ,
  minus_one, get_elem?, length, int_of_size, arith,
}
use cmdb.Data.{Text, codes, DbData, DataList, strndup, config_len}
use cmdb.Query.{Database}
use cmdb.Tables.{server_id_on_name}
use cmdb.Helper.Lookup.{cmdb_add_server_id_to_list}
use cmdb.Helper.Lookup.Answers.{lookups_ask}
use cmdb.Sql.{SqlQuery, statement, text_type}
use cmdb.Sql.Argument.{argument_queries}
use cmdb.Sql.Change.{update_queries}
use cmdb.Sql.Lite.{Lite, Session, Bound, ailsa_wrong_dbtype}
use cmdb.Sql.Lite.Queries.{done_is_zero, ailsa_argument_query_sqlite}
use cmdb.Sql.Lite.Bind.{Accepts, values_at, bind_all}
use cmdb.Sql.Lite.Rows.{Prepares, prepared_world, Yields, concatenated, argument_query_lem}
use cmdb.Sql.Lite.Dispatch.{
  Source, is_type, by_type, at_number, ailsa_basic_query, ailsa_argument_query, ailsa_update_query,
}

-- The code and the rows of a query; a query that does not return gives neither.
abbrev rows_of : {World : Type 0} → Option (ℤ × Session World × Option DataList) → ℤ × DataList
rows_of (some (retval, s, some rows)) = (retval, rows)
rows_of _ = (minus_one, [])

abbrev changed :
    {World : Type 0}
    → Source
    → Session World
    → Option (ℤ × Session World)
    → ℤ × (Source × Session World)
changed source s (some (retval, t)) = (retval, (source, t))
changed source s none = (minus_one, (source, s))

-- The functions of lib/queries.c, with so much fuel for the rows of a query. A query does not change
-- what is stored, and the handles are only counted within it.
abbrev pub backend : {World : Type 0} → Lite World → ℕ → Database (Source × Session World)
backend lite fuel = record {
  ailsa_basic_query = λ (source, s) n. rows_of (ailsa_basic_query lite fuel source n (some []) s);
  ailsa_argument_query = λ (source, s) n args.
      rows_of (ailsa_argument_query lite fuel source n (some args) (some []) s);
  ailsa_update_query = λ (source, s) n args.
      changed source s
        (at_number update_queries n λ query. ailsa_update_query lite source query (some args) s);
}

at_number_lem {ℓ κ} :
    {A : Type ℓ} {Result : Type κ} (xs : List A) (n : ℕ) (k : A → Option Result) (x : A)
    → get_elem? xs n ≡ some x
    → at_number xs n k ≡ k x
at_number_lem [] n k x at = ground (arith, at)
at_number_lem (y ∷ xs) zero k x at = ap (λ o. elim o [ none ↦ k y | some z ↦ k z ]) at
at_number_lem (y ∷ xs) (suc n) k x at = at_number_lem xs n k x at

abbrev pub server_query : SqlQuery
server_query = statement "SELECT server_id FROM server WHERE name = ?" 1 (text_type ∷ [])

-- What is bound for a name: its first 256 bytes.
abbrev pub bound_name : Text → Bound
bound_name name =
    Bound.text (strndup name config_len) (int_of_size (length (strndup name config_len)))

module _ {World : Type 0} (lite : Lite World) {Ready : World → Type 0}
    (accepts : Accepts lite 1 Ready) (source : Source)
    (here : is_type source (codes "sqlite") ≡ true) (other : is_type source (codes "none") ≡ false)
    (s : Session World) where
  abbrev pub prepared_server : World
  prepared_server = prepared_world lite source.file (codes server_query.query) s.world

  answer_lem :
      (fuel : ℕ) (args : DataList) (r : Option (ℤ × Session World × Option DataList))
      → ailsa_argument_query_sqlite lite fuel
          (some source.file)
          server_query
          (some args)
          (some [])
          s
        ≡ r
      → ailsa_argument_query lite fuel source server_id_on_name (some args) (some []) s ≡ r
  unfolding ailsa_argument_query argument_queries
  answer_lem fuel args r e =
      let run = λ (q : SqlQuery).
        by_type source (some (ailsa_wrong_dbtype, s, some []))
          (ailsa_argument_query_sqlite lite fuel (some source.file) q (some args) (some []) s) in
      let chosen : run server_query ≡ r = rw (other, here) e in
      at_number_lem argument_queries server_id_on_name run server_query refl ∙ chosen

  -- The look-up of a server by its name, down to SQLite: the statement that is prepared is
  -- `SELECT server_id FROM server WHERE name = ?`, the first 256 bytes of the name are bound to its one
  -- place, and the values of all rows that it yields go behind what the list of the caller holds; the code
  -- is 0 where the rows end with SQLITE_DONE, else the code they end with. The type of the database is
  -- "sqlite", the file opens, and the statement is prepared.
  pub server_id_from_sqlite :
      (fuel : ℕ) (name : Text) (list : DataList) {rows : List DataList} {code : ℤ} {v : World}
      → Prepares lite source.file (codes server_query.query) s.world
      → Ready prepared_server
      → Yields lite (bind_all lite 0 (bound_name name ∷ []) prepared_server) rows code v
      → length rows < fuel
      → cmdb_add_server_id_to_list (backend lite fuel) (some name) (some (source, s)) (some list)
        ≡ (done_is_zero code, some (list ++ concatenated rows))
  unfolding values_at
  server_id_from_sqlite fuel name list prepares ready yields enough =
      let args = DbData.text (strndup name config_len) ∷ [] in
      let asked = (lookups_ask (backend lite fuel) name (source, s) list).1 in
      let query =
        argument_query_lem lite accepts fuel source.file server_query args [] (bound_name name ∷ [])
          s refl prepares ready refl refl yields enough in
      asked ∙ rw (answer_lem fuel args _ query) refl
