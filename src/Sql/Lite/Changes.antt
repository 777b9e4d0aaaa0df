-- ===== src/Sql/Lite/Changes.antt =====
-- What the statements of SQLite that change the database return.
use cmdb.Base.{
  ℕ, suc, ◌-◌, ◌≤◌, ◌≡◌, refl, Bool-cases, true, some, List, ◌==◌, if◌then◌else◌, ℤ, pos, length,
  take-eq_of_le, arith, inl, inr,
}
use cmdb.Data.{Text, DataList}
use cmdb.Sql.{FieldType}
use cmdb.Sql.Lite.{
  Lite, Session, Bound, ailsa_statement_fail, ailsa_setup_rw_sqlite, ailsa_sqlite_cleanup,
}
use cmdb.Sql.Lite.Queries.{sqlite_done, equals, done_is_zero, change}
use cmdb.Sql.Lite.Bind.{Accepts, values_at, bind_all, bind_arguments_lem}
use cmdb.Sql.Lite.Rows.{moved, holding}

-- The code of the one step of the statement.
abbrev pub change_code : ℤ → ℤ
change_code code = if equals code sqlite_done then pos 0 else ailsa_statement_fail

module _ {World : Type 0} (lite : Lite World) where
  abbrev opened_world : Text → World → World
  opened_world file w = lite.enable_fkey (lite.open_v2 file true w).1

  -- The file can be opened for writing, and the statement prepared.
  pub record PreparesChange (file query : Text) (w : World) : Type 0 where
    pub opened : (lite.open_v2 file true w).0 ≡ pos 0
    pub prepared : (lite.prepare_v2 query (opened_world file w)).0 ≡ pos 0

  abbrev pub change_world : Text → Text → World → World
  change_world file query w = (lite.prepare_v2 query (opened_world file w)).1

  setup_rw_lem :
      (file query : Text) (s : Session World)
      → PreparesChange file query s.world
      → ailsa_setup_rw_sqlite lite query (length query) file s
        ≡ (pos 0, holding s (change_world file query s.world))
  unfolding ailsa_setup_rw_sqlite
  setup_rw_lem file query s prepares =
      let whole = take-eq_of_le (length query) query (omega arith) in
      rw (prepares.opened, whole, prepares.prepared) refl

  back :
      (s : Session World) (w : World)
      → ailsa_sqlite_cleanup lite (holding s w) ≡ moved s (lite.close (lite.finalize w))
  unfolding ailsa_sqlite_cleanup
  back s w =
      let c : suc s.connections - 1 ≡ s.connections = omega arith in
      let d : suc s.statements - 1 ≡ s.statements = omega arith in rw (c, d) refl

  done_code :
      (code : ℤ)
      → done_is_zero (if equals code sqlite_done then code else ailsa_statement_fail)
        ≡ change_code code
  done_code code = elim (Bool-cases (equals code sqlite_done)) [
    | inl e ↦ rw (e, e) refl
    | inr e ↦ rw e refl
  ]

  module _ {places : ℕ} {Ready : World → Type 0} (accepts : Accepts lite places Ready) where
    pub change_lem :
        (file query : Text) (f : List FieldType) (args : DataList) (vs : List Bound)
        (s : Session World)
        → PreparesChange file query s.world
        → Ready (change_world file query s.world)
        → values_at f 0 args ≡ some vs
        → length args ≡ places
        → change lite file query places f args s
          ≡ some (
            change_code (lite.step (bind_all lite 0 vs (change_world file query s.world))).0,
            moved s (
                lite.close (
                  lite.finalize
                    (lite.step (bind_all lite 0 vs (change_world file query s.world))).1)),
          )
    change_lem file query f args vs s prepares ready values exact =
        let opened = holding s (change_world file query s.world) in
        let few : length args ≤ places = omega (arith, exact) in
        let code : (length args == places) ≡ true = ground arith in
        let bound =
          rw code at (bind_arguments_lem lite accepts f args vs opened values few ready) in
        let last = lite.step (bind_all lite 0 vs (change_world file query s.world)) in
        rw (setup_rw_lem file query s prepares, bound, back s last.1, done_code last.0) refl
