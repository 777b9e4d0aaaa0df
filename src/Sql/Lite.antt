-- ===== src/Sql/Lite.antt =====
-- lib/sql.c and lib/queries.c, the half for SQLite: what opens the file of the database, binds the
-- arguments of a statement, runs it and stores its rows. The library itself, sqlite3, is the record
-- `Lite` of its calls.
pub mod Values
pub mod Queries
pub mod Bind
pub mod Rows
pub mod Handles
pub mod Changes
pub mod Dispatch
pub mod Several
pub mod Backend
mod Tests
use cmdb.Base.{
  ℕ, zero, suc, ◌-◌, Bool, true, false, ◌==◌, if◌then◌else◌, ℤ, pos, negsuc, is_ok, take,
}
use cmdb.Data.{Text}

abbrev pub ailsa_invalid_dbtype : ℤ
ailsa_invalid_dbtype = pos 302

abbrev pub ailsa_statement_fail : ℤ
ailsa_statement_fail = pos 308

abbrev pub ailsa_sql_file_init_fail : ℤ
ailsa_sql_file_init_fail = pos 309

abbrev pub ailsa_wrong_dbtype : ℤ
ailsa_wrong_dbtype = pos 311

abbrev pub buffer_len : ℕ
buffer_len = 1024

-- What a call binds to a place: `sqlite3_bind_int64`, `_text` with the length it is given, `_double`
-- (as its bits) and `_int`.
pub data Bound : Type 0 where
  int64 : ℤ → Bound
  text : Text → ℤ → Bound
  double : ℕ → Bound
  int : ℤ → Bound

-- A column of the current row: its type, with what `sqlite3_column_int64`, `_text` or `_double` gives.
pub data Column : Type 0 where
  integer : ℤ → Column
  text : Text → Column
  float : ℕ → Column
  null : Column
  blob : Column

-- The calls of sqlite3 that the code makes. `World` is the state of that library and of the file; a
-- call is about the one connection, or the one statement, that is in use. `enable_fkey` is
-- `sqlite3_db_config` with SQLITE_DBCONFIG_ENABLE_FKEY, whose answers are only logged.
pub record Lite (World : Type 0) : Type 0 where
  pub open_v2 : Text → Bool → World → ℤ × World
  pub enable_fkey : World → World
  pub prepare_v2 : Text → World → ℤ × World
  pub bind_value : ℕ → Bound → World → ℤ × World
  pub step : World → ℤ × World
  pub column_count : World → ℕ
  pub column : World → ℕ → Column
  pub finalize : World → World
  pub close : World → World

-- The library, and the handles that it has given out and not taken back. A connection is given out
-- whether it can be opened or not, a statement only where it can be prepared.
pub record Session (World : Type 0) : Type 0 where
  pub world : World
  pub connections : ℕ
  pub statements : ℕ

-- `retval > 0`
abbrev pub is_positive : ℤ → Bool
is_positive (pos zero) = false
is_positive (pos (suc n)) = true
is_positive (negsuc n) = false

module _ {World : Type 0} (lite : Lite World) where
  abbrev pub open_file : Text → Bool → Session World → ℤ × Session World
  open_file file writable s =
      let (retval, w) = lite.open_v2 file writable s.world in
      (retval, record s { world = w; connections = suc s.connections })

  abbrev pub prepare : Text → Session World → ℤ × Session World
  prepare query s =
      let (retval, w) = lite.prepare_v2 query s.world in
      (
        retval,
        record s {
          world = w;
          statements = if is_ok retval then suc s.statements else s.statements;
        },
      )

  abbrev pub configure : Session World → Session World
  configure s = record s { world = lite.enable_fkey s.world }

  abbrev pub close_file : Session World → Session World
  close_file s = record s { world = lite.close s.world; connections = s.connections - 1 }

  abbrev pub finalize_statement : Session World → Session World
  finalize_statement s = record s { world = lite.finalize s.world; statements = s.statements - 1 }

  abbrev pub prepare_opened : Text → Session World → ℤ × Session World
  prepare_opened query s =
      let (retval, t) = prepare query s in
      if is_positive retval then (ailsa_statement_fail, close_file t) else (retval, t)

  -- `sqlite3_prepare_v2` reads BUFFER_LEN bytes of the text and no more.
  unfoldable pub ailsa_setup_ro_sqlite : Text → Text → Session World → ℤ × Session World
  ailsa_setup_ro_sqlite query file s =
      let (retval, t) = open_file file false s in
      if is_positive retval
      then (ailsa_sql_file_init_fail, t)
      else prepare_opened (take buffer_len query) t

  unfoldable pub ailsa_setup_rw_sqlite : Text → ℕ → Text → Session World → ℤ × Session World
  ailsa_setup_rw_sqlite query len file s =
      let (retval, t) = open_file file true s in
      if is_positive retval
      then (ailsa_sql_file_init_fail, t)
      else prepare_opened (take len query) (configure t)

  unfoldable pub ailsa_sqlite_cleanup : Session World → Session World
  ailsa_sqlite_cleanup s = close_file (finalize_statement s)
