-- ===== src/Sql.antt =====
-- lib/queries.c: the statements, what runs them, and the statements that are put together at run
-- time. `AILSA_DB_*` of include/ailsasql.h are the types of the values that a statement takes.
pub mod Basic
pub mod Argument
pub mod Insert
pub mod Change
pub mod Fits
pub mod Multi
pub mod Lite
mod Tests
use Prim.Native.String.{String}
use Prim.Native.Char.{code}
use cmdb.Base.{
  ℕ, zero, suc, ◌+◌, ◌<◌, Bool, true, false, ◌&&◌, ◌||◌, List, [], ◌∷◌, ◌==◌, if◌then◌else◌, leb,
  length,
}

-- The types of values, `AILSA_DB_NULL` to `AILSA_DB_TIME`.
pub data FieldType : Type 0 where
  null_type text_type lint_type sint_type tiny_type float_type time_type : FieldType

-- `ailsa_sql_query_s`: the entries of `fields` behind those given are 0.
pub record SqlQuery : Type 0 where
  pub query : String
  pub number : ℕ
  pub fields : List FieldType

abbrev pub statement : String → ℕ → List FieldType → SqlQuery
statement q n f = record { query = q; number = n; fields = f }

abbrev pub field_at : List FieldType → ℕ → FieldType
field_at [] i = FieldType.null_type
field_at (f ∷ fields) zero = f
field_at (f ∷ fields) (suc i) = field_at fields i
