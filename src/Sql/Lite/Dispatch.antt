-- ===== src/Sql/Lite/Dispatch.antt =====
-- lib/queries.c: the functions that the rest of the program calls, in a build with SQLite and without
-- MySQL (HAVE_SQLITE3, no HAVE_MYSQL). `cmdb` is given by its fields `dbtype` and `file`.
use cmdb.Base.{
  ℕ, zero, suc, Bool, Option, none, some, List, [], ◌∷◌, if◌then◌else◌, ℤ, is_ok, length, take,
}
use cmdb.Data.{Text, codes, same_text, DataList, service_len}
use cmdb.Sql.{SqlQuery}
use cmdb.Sql.Basic.{basic_queries}
use cmdb.Sql.Argument.{argument_queries}
use cmdb.Sql.Insert.{insert_queries}
use cmdb.Sql.Multi.{SqlMulti, cmdb_create_multi, cmdb_create_delete_multi}
use cmdb.Sql.Lite.{Lite, Session, ailsa_wrong_dbtype}
use cmdb.Sql.Lite.Queries.{
  ailsa_basic_query_sqlite, ailsa_argument_query_sqlite, ailsa_delete_query_sqlite,
  ailsa_insert_query_sqlite, ailsa_multiple_query_sqlite,
}

-- The fields of `ailsa_cmdb_s` that the queries use.
pub record Source : Type 0 where
  pub dbtype : Text
  pub file : Text

-- `strncmp(dbtype, name, SERVICE_LEN) == 0`, for a `name` that is shorter
abbrev pub is_type : Source → Text → Bool
is_type cmdb_s name = same_text (take service_len cmdb_s.dbtype) name

-- The choice by `dbtype`: what is wrong is said for "none" and for a type that is not built in.
abbrev pub by_type {ℓ} : {Result : Type ℓ} → Source → Result → Result → Result
by_type cmdb_s wrong lite =
    if is_type cmdb_s (codes "none")
    then wrong
    else if is_type cmdb_s (codes "sqlite")
    then lite
    else wrong

-- `table[query_no]`: behind the end of the table there is none.
abbrev pub at_number {ℓ κ} :
    {A : Type ℓ} {Result : Type κ} → List A → ℕ → (A → Option Result) → Option Result
at_number [] n k = none
at_number (x ∷ xs) zero k = k x
at_number (x ∷ xs) (suc n) k = at_number xs n k

module _ {World : Type 0} (lite : Lite World) where
  unfoldable pub ailsa_basic_query :
      ℕ
      → Source
      → ℕ
      → Option DataList
      → Session World
      → Option (ℤ × Session World × Option DataList)
  ailsa_basic_query fuel cmdb_s query_no results s = at_number basic_queries query_no λ query.
      by_type cmdb_s (some (ailsa_wrong_dbtype, s, results))
        (ailsa_basic_query_sqlite lite fuel (some cmdb_s.file) (some (codes query)) results s)

  unfoldable pub ailsa_argument_query :
      ℕ
      → Source
      → ℕ
      → Option DataList
      → Option DataList
      → Session World
      → Option (ℤ × Session World × Option DataList)
  ailsa_argument_query fuel cmdb_s query_no args results s =
      at_number argument_queries query_no λ argument.
        by_type cmdb_s (some (ailsa_wrong_dbtype, s, results))
          (ailsa_argument_query_sqlite lite fuel (some cmdb_s.file) argument args results s)

  unfoldable pub ailsa_individual_query :
      ℕ
      → Source
      → SqlQuery
      → Option DataList
      → Option DataList
      → Session World
      → Option (ℤ × Session World × Option DataList)
  ailsa_individual_query fuel cmdb_s query args results s =
      by_type cmdb_s (some (ailsa_wrong_dbtype, s, results))
        (ailsa_argument_query_sqlite lite fuel (some cmdb_s.file) query args results s)

  unfoldable pub ailsa_delete_query :
      Source → SqlQuery → Option DataList → Session World → Option (ℤ × Session World)
  ailsa_delete_query cmdb_s query delete s =
      by_type cmdb_s (some (ailsa_wrong_dbtype, s))
        (ailsa_delete_query_sqlite lite (some cmdb_s.file) query delete s)

  unfoldable pub ailsa_update_query :
      Source → SqlQuery → Option DataList → Session World → Option (ℤ × Session World)
  ailsa_update_query cmdb_s query update s =
      by_type cmdb_s (some (ailsa_wrong_dbtype, s))
        (ailsa_delete_query_sqlite lite (some cmdb_s.file) query update s)

  unfoldable pub ailsa_insert_query :
      Source → ℕ → Option DataList → Session World → Option (ℤ × Session World)
  ailsa_insert_query cmdb_s query_no insert s = at_number insert_queries query_no λ query.
      by_type cmdb_s (some (ailsa_wrong_dbtype, s))
        (ailsa_insert_query_sqlite lite (some cmdb_s.file) query insert s)

  -- The statement for several rows, where it can be put together.
  abbrev pub multiple :
      Source → Option (ℤ × Option SqlMulti) → DataList → Session World → Option (ℤ × Session World)
  multiple cmdb_s none args s = none
  multiple cmdb_s (some (retval, sql)) args s =
      if is_ok retval
      then by_type cmdb_s (some (ailsa_wrong_dbtype, s))
          (ailsa_multiple_query_sqlite lite (some cmdb_s.file) sql (some args) s)
      else some (retval, s)

  unfoldable pub ailsa_multiple_query :
      Source → SqlQuery → DataList → Session World → Option (ℤ × Session World)
  ailsa_multiple_query cmdb_s query insert s =
      multiple cmdb_s (cmdb_create_multi query (length insert)) insert s

  unfoldable pub ailsa_multiple_delete :
      Source → SqlQuery → DataList → Session World → Option (ℤ × Session World)
  ailsa_multiple_delete cmdb_s query del s =
      multiple cmdb_s (cmdb_create_delete_multi query (length del)) del s
