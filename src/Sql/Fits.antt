-- ===== src/Sql/Fits.antt =====
-- What every statement of the tables of lib/queries.c has: as many places for values as it says, and
-- a type for each of them.
use Prim.Native.String.{String}
use Prim.Native.Char.{code}
use cmdb.Base.{
  ℕ, zero, suc, ◌≤◌, ◌≡◌, refl, Bool, true, false, ◌&&◌, none, some, List, [], ◌∷◌, ◌==◌, ==_iff,
  if◌then◌else◌, leb, arith, length, get_elem?, and_split, ◌<◌, sym, ap, subst,
}
use cmdb.Sql.{SqlQuery, FieldType, field_at, text_type, lint_type, sint_type, float_type}
use cmdb.Sql.Argument.{argument_queries}
use cmdb.Sql.Insert.{insert_queries}
use cmdb.Sql.Change.{delete_queries, update_queries}

-- The places for values in a statement.
abbrev pub marks : String → ℕ
marks String.[] = 0
marks (String.◌∷◌ c s) = if code c == b'?' then suc (marks s) else marks s

abbrev bytes : String → ℕ
bytes String.[] = 0
bytes (String.◌∷◌ c s) = suc (bytes s)

-- A type that a value of an argument can have.
abbrev pub binds : FieldType → Bool
binds text_type = true
binds lint_type = true
binds sint_type = true
binds float_type = true
binds _ = false

abbrev all_bind : List FieldType → Bool
all_bind [] = true
all_bind (f ∷ fields) = binds f && all_bind fields

abbrev fits : SqlQuery → Bool
fits q =
    (marks q.query == q.number && length q.fields == q.number)
    && ((leb 1 q.number && leb q.number 20) && (all_bind q.fields && leb (bytes q.query) 1024))

abbrev all_fit : List SqlQuery → Bool
all_fit [] = true
all_fit (q ∷ qs) = fits q && all_fit qs

-- The four tables of statements with arguments.
pub data Table : Type 0 where
  argument insert delete update : Table

unfoldable pub queries_of : Table → List SqlQuery
unfolding argument_queries insert_queries delete_queries update_queries
queries_of argument = argument_queries
queries_of insert = insert_queries
queries_of delete = delete_queries
queries_of update = update_queries

tables_fit : (table : Table) → all_fit (queries_of table) ≡ true
unfolding queries_of
tables_fit argument = refl
tables_fit insert = refl
tables_fit delete = refl
tables_fit update = refl

-- A statement with as many places as it says, from one to the twenty that `fields` has room for,
-- each with a type that can be bound, and in whole within the 1024 bytes that are prepared.
pub record Fits (q : SqlQuery) : Type 0 where
  pub marked : marks q.query ≡ q.number
  pub typed : length q.fields ≡ q.number
  pub some_place : 1 ≤ q.number
  pub room : q.number ≤ 20
  pub bindable : (i : ℕ) → i < q.number → binds (field_at q.fields i) ≡ true
  pub short : bytes q.query ≤ 1024

all_bind-elim :
    (fields : List FieldType)
    → all_bind fields ≡ true
    → (i : ℕ) → i < length fields
    → binds (field_at fields i) ≡ true
all_bind-elim [] all i lt = ground arith
all_bind-elim (f ∷ fields) all zero lt = (and_split (binds f) (all_bind fields) all).0
all_bind-elim (f ∷ fields) all (suc i) lt =
    let less : i < length fields = omega (arith, lt) in
    all_bind-elim fields (and_split (binds f) (all_bind fields) all).1 i less

leb→le : (a b : ℕ) → leb a b ≡ true → a ≤ b
leb→le a b h = ground arith

fits-Fits : (q : SqlQuery) → fits q ≡ true → Fits q
fits-Fits q h =
    let (one, two) = and_split _ _ h in
    let (a, b) = and_split _ _ one in
    let (three, four) = and_split _ _ two in
    let (c, d) = and_split _ _ three in
    let (e, f) = and_split _ _ four in
    let typed = (==_iff (length q.fields) q.number).0 b in
    record {
      marked = (==_iff (marks q.query) q.number).0 a;
      typed = typed;
      some_place = leb→le 1 q.number c;
      room = leb→le q.number 20 d;
      bindable = λ i lt. all_bind-elim q.fields e i (subst (λ n. i < n) (sym typed) lt);
      short = leb→le (bytes q.query) 1024 f;
    }

some_injective : {x y : SqlQuery} → some x ≡ some y → x ≡ y
some_injective {x} e = ap (λ o. elim o [ none ↦ x | some z ↦ z ]) e

all_fit-elim :
    (qs : List SqlQuery)
    → all_fit qs ≡ true
    → (n : ℕ) (q : SqlQuery) → get_elem? qs n ≡ some q
    → Fits q
all_fit-elim [] all n q at = ground arith
all_fit-elim (x ∷ qs) all zero q at =
    subst Fits (some_injective at) (fits-Fits x (and_split (fits x) (all_fit qs) all).0)
all_fit-elim (x ∷ qs) all (suc n) q at =
    all_fit-elim qs (and_split (fits x) (all_fit qs) all).1 n q at

-- Every entry of the four tables says as many places as its text has, has as many types as places,
-- one to twenty of them, each of a kind that can be bound, and a text within the 1024 bytes that are
-- prepared.
pub queries_fit :
    (table : Table) (n : ℕ) (q : SqlQuery) → get_elem? (queries_of table) n ≡ some q → Fits q
queries_fit table n q at = all_fit-elim (queries_of table) (tables_fit table) n q at
