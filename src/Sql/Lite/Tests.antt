-- ===== src/Sql/Lite/Tests.antt =====
-- A library with a number of rows to give, and statements that are run with it.
use cmdb.Base.{ℕ, zero, suc, ◌≡◌, refl, none, some, [], ◌∷◌, ℤ, pos, arith}
use cmdb.Data.{DbData, DataList, codes}
use cmdb.Sql.{SqlQuery, statement, lint_type, text_type}
use cmdb.Sql.Lite.{Lite, Session, Column}
use cmdb.Sql.Lite.Bind.{Accepts, values_at}
use cmdb.Sql.Lite.Rows.{ends, next, argument_query_lem}
use cmdb.Sql.Lite.Handles.{Holds, changes_hold}
use cmdb.Sql.Lite.Values.{stored}
use cmdb.Sql.Lite.Queries.{
  ailsa_argument_query_sqlite, ailsa_delete_query_sqlite, ailsa_insert_query_sqlite,
  ailsa_multiple_query_sqlite,
}
use cmdb.Sql.Lite.Dispatch.{Source, ailsa_multiple_delete, ailsa_multiple_query}
use cmdb.Helper.Lookup.{cmdb_add_server_id_to_list}
use cmdb.Sql.Lite.Backend.{backend, server_id_from_sqlite}
use cmdb.Sql.Lite.Several.{ailsa_multiple_delete_lem, ailsa_multiple_query_lem}

-- As many rows are left as the state says; each has the number of those behind it.
abbrev sample_step : ℕ → ℤ × ℕ
sample_step zero = (pos 101, zero)
sample_step (suc n) = (pos 100, n)

abbrev sample_lite : Lite ℕ
sample_lite = record {
  open_v2 = λ file writable w. (pos 0, w);
  enable_fkey = λ w. w;
  prepare_v2 = λ query w. (pos 0, w);
  bind_value = λ i v w. (pos 0, w);
  step = sample_step;
  column_count = λ w. 1;
  column = λ w i. Column.integer (pos w);
  finalize = λ w. w;
  close = λ w. w;
}

abbrev sample_session : ℕ → Session ℕ
sample_session n = record { world = n; connections = 0; statements = 0 }

abbrev Anything : ℕ → Type 0
Anything w = Unit

accepts : (places : ℕ) → Accepts sample_lite places Anything
accepts places = record {
  accepted = λ i v w ready small. refl;
  still_ready = λ i v w ready small. tt;
}

abbrev sample_query : SqlQuery
sample_query =
    statement "SELECT id FROM zones WHERE name = ? AND id > ?" 2 (text_type ∷ lint_type ∷ [])

abbrev sample_args : DataList
sample_args = DbData.text (codes "a") ∷ DbData.lint 7 ∷ []

argument_query_example :
    ailsa_argument_query_sqlite sample_lite 3
      (some (codes "cmdb.sql"))
      sample_query
      (some sample_args)
      (some (DbData.lint 9 ∷ []))
      (sample_session 2)
    ≡ some (pos 0, sample_session 0, some (DbData.lint 9 ∷ DbData.lint 1 ∷ DbData.lint 0 ∷ []))
unfolding values_at stored
argument_query_example =
    argument_query_lem sample_lite (accepts 2) 3 (codes "cmdb.sql") sample_query sample_args
      (DbData.lint 9 ∷ []) _ (sample_session 2) refl (record { opened = refl; prepared = refl }) tt
      refl refl (next refl (next refl (ends refl))) (omega arith)

changes_hold_example :
    Holds 0 0 (
      ailsa_delete_query_sqlite sample_lite
        (some (codes "cmdb.sql"))
        sample_query
        (some [])
        (sample_session 0))
    × Holds 0 0 (
        ailsa_insert_query_sqlite sample_lite
          (some (codes "cmdb.sql"))
          sample_query
          (some [])
          (sample_session 0))
    × Holds 0 0 (
        ailsa_multiple_query_sqlite sample_lite
          (some (codes "cmdb.sql"))
          none
          (some [])
          (sample_session 0))
changes_hold_example =
    changes_hold sample_lite (λ query w. refl) (codes "cmdb.sql") (sample_session 0) refl
      sample_query none (some [])

abbrev sample_source : Source
sample_source = record { dbtype = codes "sqlite"; file = codes "cmdb.sql" }

abbrev delete_zone : SqlQuery
delete_zone = statement "DELETE FROM zones WHERE id = ?" 1 (lint_type ∷ [])

multiple_delete_example :
    ailsa_multiple_delete sample_lite sample_source delete_zone
      (DbData.lint 4 ∷ DbData.lint 5 ∷ [])
      (sample_session 0)
    ≡ some (pos 0, sample_session 0)
unfolding values_at
multiple_delete_example =
    ailsa_multiple_delete_lem sample_lite (accepts 2) sample_source refl refl delete_zone
      (codes "DELETE FROM zones WHERE id ") (codes " ?") (DbData.lint 4 ∷ DbData.lint 5 ∷ []) _
      (sample_session 0) refl refl refl (omega arith) refl (omega arith) refl
      (record { opened = refl; prepared = refl }) tt

abbrev insert_two : SqlQuery
insert_two = statement "INSERT INTO t (a, b) VALUES (?, ?)" 2 (text_type ∷ lint_type ∷ [])

multiple_query_example :
    ailsa_multiple_query sample_lite sample_source insert_two
      (DbData.text (codes "a") ∷ DbData.lint 5 ∷ DbData.text (codes "b") ∷ DbData.lint 6 ∷ [])
      (sample_session 0)
    ≡ some (pos 0, sample_session 0)
unfolding values_at
multiple_query_example =
    ailsa_multiple_query_lem sample_lite (accepts 4) sample_source refl refl insert_two 1
      (DbData.text (codes "a") ∷ DbData.lint 5 ∷ DbData.text (codes "b") ∷ DbData.lint 6 ∷ []) _
      (sample_session 0) refl (omega arith) (omega arith) (omega arith) (omega arith) refl refl
      (record { opened = refl; prepared = refl }) tt

server_id_example :
    cmdb_add_server_id_to_list
      (backend sample_lite 2)
      (some (codes "web"))
      (some (sample_source, sample_session 1))
      (some [])
    ≡ (pos 0, some (DbData.lint 0 ∷ []))
unfolding stored
server_id_example =
    server_id_from_sqlite sample_lite (accepts 1) sample_source refl refl (sample_session 1) 2
      (codes "web") [] (record { opened = refl; prepared = refl }) tt (next refl (ends refl))
      (omega arith)
