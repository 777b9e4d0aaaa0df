-- ===== src/Sql/Lite/Handles.antt =====
-- The handles of SQLite that a statement that changes the database takes, and gives back.
use cmdb.Base.{
  ℕ, zero, suc, ◌-◌, ◌≡◌, refl, ◌⊎◌, inl, inr, Bool, Bool-cases, true, false, Option, none, some,
  List, [], ◌∷◌, ◌==◌, ℤ, pos, negsuc, is_ok, length, take, arith,
}
use cmdb.Data.{Text, codes, DataList}
use cmdb.Sql.{SqlQuery, FieldType, field_at}
use cmdb.Sql.Multi.{SqlMulti}
use cmdb.Sql.Lite.{
  Lite, Session, is_positive, open_file, configure, ailsa_setup_rw_sqlite, ailsa_sqlite_cleanup,
}
use cmdb.Sql.Lite.Values.{
  Reading, given, refused, unset, reading, failed, bind_round, bind_rounds,
  ailsa_bind_arguments_sqlite,
}
use cmdb.Sql.Lite.Queries.{
  change_bound, change, ailsa_delete_query_sqlite, ailsa_insert_query_sqlite,
  ailsa_multiple_query_sqlite,
}

abbrev is_negative : ℤ → Bool
is_negative (pos n) = false
is_negative (negsuc n) = true

-- A code that is not negative is an error or 0.
code_cases :
    (code : ℤ)
    → is_negative code ≡ false
    → ((is_positive code ≡ true) × (is_ok code ≡ false))
      ⊎ ((is_positive code ≡ false) × (is_ok code ≡ true))
code_cases (pos zero) natural = inr (refl, refl)
code_cases (pos (suc n)) natural = let e : (suc n == 0) ≡ false = ground arith in inl (refl, e)
code_cases (negsuc n) natural = ground arith

-- Where there is a result, as many connections and statements are held as are given.
pub data Holds {World : Type 0} (connections statements : ℕ)
    : Option (ℤ × Session World) → Type 0 where
  faulted : Holds connections statements none
  held :
      {code : ℤ} {s : Session World}
      → s.connections ≡ connections
      → s.statements ≡ statements
      → Holds connections statements (some (code, s))

module _ {World : Type 0} (lite : Lite World) where
  module _ (c n : ℕ) where
    round-Holds :
        (r : Reading) (f : FieldType) (i : ℕ)
        (rest : ℤ → Session World → Option (ℤ × Session World)) (s : Session World)
        → s.connections ≡ c
        → s.statements ≡ n
        → ((code : ℤ) (t : Session World)
            → t.connections ≡ c
            → t.statements ≡ n
            → Holds c n (rest code t))
        → Holds c n (bind_round lite r f i rest s)
    round-Holds unset f i rest s a b others = faulted
    round-Holds refused f i rest s a b others = held a b
    round-Holds (given v) f i rest s a b others =
        let (code, w) = lite.bind_value (suc i) v s.world in
        let t = record s { world = w } in
        elim (Bool-cases (failed f code)) [
          | inl e ↦ rw e (held a b)
          | inr e ↦ rw e (others code t a b)
        ]

    rounds_hold :
        (left i : ℕ) (f : List FieldType) (args : DataList) (code : ℤ) (s : Session World)
        → s.connections ≡ c
        → s.statements ≡ n
        → Holds c n (bind_rounds lite left i f args code s)
    unfolding bind_rounds
    rounds_hold zero i f args code s a b = held a b
    rounds_hold (suc left) i f [] code s a b = held a b
    rounds_hold (suc left) i f (d ∷ args) code s a b =
        round-Holds (reading (field_at f i) d) (field_at f i) i
          (bind_rounds lite left (suc i) f args) s a b (rounds_hold left (suc i) f args)

    -- `cleanup` takes back one of each.
    change_bound-Holds :
        (r : Option (ℤ × Session World)) → Holds (suc c) (suc n) r → Holds c n (change_bound lite r)
    unfolding ailsa_sqlite_cleanup
    change_bound-Holds r faulted = faulted
    change_bound-Holds r (held {code} {s} a b) =
        let d : s.connections - 1 ≡ c = omega (arith, a) in
        let e : s.statements - 1 ≡ n = omega (arith, b) in
        elim (Bool-cases (is_ok code)) [ inl o ↦ rw o (held d e) | inr o ↦ rw o (held d e) ]

  module _ (natural : (query : Text) (w : World) → is_negative (lite.prepare_v2 query w).0 ≡ false)
      (file : Text) (s : Session World)
      (opens : is_positive (lite.open_v2 file true s.world).0 ≡ false) where
    change-Holds :
        (query : Text) (t : ℕ) (f : List FieldType) (args : DataList)
        → Holds s.connections s.statements (change lite file query t f args s)
    unfolding ailsa_setup_rw_sqlite ailsa_bind_arguments_sqlite
    change-Holds query t f args =
        let opened = configure lite (open_file lite file true s).1 in
        let code = (lite.prepare_v2 (take (length query) query) opened.world).0 in
        let closed : suc s.connections - 1 ≡ s.connections = omega arith in
        elim (code_cases code (natural (take (length query) query) opened.world)) [
          | inl (p, o) ↦ rw (opens, p) (held closed (rw o refl))
          | inr (p, o) ↦
              rw (opens, p, o)
                (change_bound-Holds s.connections s.statements _ (
                  rounds_hold (suc s.connections) (suc s.statements) t 0 f args (pos 0) _ refl
                    refl))
        ]

    -- A statement that changes the database, or several rows of it, leaves as many connections and
    -- statements open as there were, whatever its arguments are and whichever call fails behind the
    -- opening of the file. The codes of the preparation are assumed not to be negative.
    pub changes_hold :
        (query : SqlQuery) (sql : Option SqlMulti) (args : Option DataList)
        → Holds s.connections s.statements (ailsa_delete_query_sqlite lite (some file) query args s)
          × Holds s.connections s.statements
              (ailsa_insert_query_sqlite lite (some file) query args s)
          × Holds s.connections s.statements
              (ailsa_multiple_query_sqlite lite (some file) sql args s)
    unfolding ailsa_delete_query_sqlite ailsa_insert_query_sqlite ailsa_multiple_query_sqlite
    changes_hold query none none = (held refl refl, held refl refl, held refl refl)
    changes_hold query (some sql) none = (held refl refl, held refl refl, held refl refl)
    changes_hold query none (some args) =
        let one = change-Holds (codes query.query) query.number query.fields args in
        (one, one, held refl refl)
    changes_hold query (some sql) (some args) =
        let one = change-Holds (codes query.query) query.number query.fields args in
        (one, one, change-Holds sql.query sql.total sql.fields args)
