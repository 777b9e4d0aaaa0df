-- ===== src/Sql/Lite/Bind.antt =====
-- Binding the arguments of a statement with SQLite.
use cmdb.Base.{
  ℕ, zero, suc, ◌+◌, ◌<◌, ◌≤◌, ◌≡◌, refl, sym, ap, false, Option, none, some, List, [], ◌∷◌, ◌==◌,
  if◌then◌else◌, ℤ, pos, length, arith,
}
use cmdb.Data.{DataList}
use cmdb.Sql.{
  FieldType, field_at, null_type, text_type, lint_type, sint_type, tiny_type, float_type, time_type,
}
use cmdb.Sql.Multi.{ailsa_wrong_list_lenght}
use cmdb.Sql.Lite.{Lite, Session, Bound}
use cmdb.Sql.Lite.Values.{
  Reading, given, refused, unset, reading, failed, bind_rounds, ailsa_bind_arguments_sqlite,
}

-- The statement that is prepared has `places` places: a value can be bound to each of them, and that
-- leaves the statement so.
pub record Accepts {World : Type 0} (lite : Lite World) (places : ℕ) (Ready : World → Type 0)
    : Type 0 where
  pub accepted :
      (i : ℕ) (v : Bound) (w : World)
      → Ready w
      → i < places
      → (lite.bind_value (suc i) v w).0 ≡ pos 0
  pub still_ready :
      (i : ℕ) (v : Bound) (w : World) → Ready w → i < places → Ready (lite.bind_value (suc i) v w).1

abbrev with_value : Reading → Option (List Bound) → Option (List Bound)
with_value (given v) (some vs) = some (v ∷ vs)
with_value _ _ = none

-- The values of arguments that have the types that the statement gives them, from a position on.
unfoldable pub values_at : List FieldType → ℕ → DataList → Option (List Bound)
unfolding reading
values_at f i [] = some []
values_at f i (d ∷ args) = with_value (reading (field_at f i) d) (values_at f (suc i) args)

-- What an argument list gives: that it has too few values is only seen behind the last one.
abbrev pub list_code : ℕ → ℕ → ℤ
list_code had wanted = if had == wanted then pos 0 else ailsa_wrong_list_lenght

failed_ok : (f : FieldType) → failed f (pos 0) ≡ false
failed_ok null_type = refl
failed_ok text_type = refl
failed_ok lint_type = refl
failed_ok sint_type = refl
failed_ok tiny_type = refl
failed_ok float_type = refl
failed_ok time_type = refl

some_list : {vs ws : List Bound} → some vs ≡ some ws → vs ≡ ws
some_list {vs} e = ap (λ o. elim o [ none ↦ vs | some z ↦ z ]) e

-- A list of arguments that has values is that of its first and those of the rest.
with_value-elim :
    {G : Type 0} (r : Reading) (rest : Option (List Bound)) (vs : List Bound)
    → with_value r rest ≡ some vs
    → ((v : Bound) (us : List Bound) → r ≡ given v → rest ≡ some us → vs ≡ v ∷ us → G)
    → G
with_value-elim (given v) (some us) vs e k = k v us refl refl (sym (some_list e))
with_value-elim (given v) none vs e k = ground arith
with_value-elim refused rest vs e k = ground arith
with_value-elim unset rest vs e k = ground arith

list_code-suc : (a b : ℕ) → list_code (suc a) (suc b) ≡ list_code a b
list_code-suc a b = let e : (suc a == suc b) ≡ (a == b) = ground arith in rw e refl

module _ {World : Type 0} (lite : Lite World) where
  -- The library behind the calls for those values, from a position on.
  abbrev pub bind_all : ℕ → List Bound → World → World
  bind_all i [] w = w
  bind_all i (v ∷ vs) w = bind_all (suc i) vs (lite.bind_value (suc i) v w).1

  module _ {places : ℕ} {Ready : World → Type 0} (accepts : Accepts lite places Ready) where
    bind_rounds_lem :
        (left i : ℕ) (f : List FieldType) (args : DataList) (vs : List Bound) (s : Session World)
        → values_at f i args ≡ some vs
        → length args ≤ left
        → i + length args ≤ places
        → Ready s.world
        → bind_rounds lite left i f args (pos 0) s
          ≡ some (list_code (length args) left, record s { world = bind_all i vs s.world })
    unfolding bind_rounds values_at
    bind_rounds_lem zero i f [] vs s e few room ready = rw (some_list (sym e)) refl
    bind_rounds_lem zero i f (d ∷ args) vs s e few room ready = absurd (omega (arith, few))
    bind_rounds_lem (suc left) i f [] vs s e few room ready =
        let less : (0 == suc left) ≡ false = ground arith in rw (some_list (sym e), less) refl
    bind_rounds_lem (suc left) i f (d ∷ args) vs s e few room ready =
        with_value-elim (reading (field_at f i) d) (values_at f (suc i) args) vs e
          λ v us read others whole.
            let here : i < places = omega (arith, room) in
            let shorter : length args ≤ left = omega (arith, few) in
            let later : suc i + length args ≤ places = omega (arith, room) in
            let (code, w) = lite.bind_value (suc i) v s.world in
            let ready' = accepts.still_ready i v s.world ready here in
            rw
              (
                read,
                whole,
                accepts.accepted i v s.world ready here,
                failed_ok (field_at f i),
                list_code-suc (length args) left,
              )
              (bind_rounds_lem left (suc i) f args us (record s { world = w }) others shorter later
                ready')

    pub bind_arguments_lem :
        (f : List FieldType) (args : DataList) (vs : List Bound) (s : Session World)
        → values_at f 0 args ≡ some vs
        → length args ≤ places
        → Ready s.world
        → ailsa_bind_arguments_sqlite lite (some args) places f s
          ≡ some (list_code (length args) places, record s { world = bind_all 0 vs s.world })
    unfolding ailsa_bind_arguments_sqlite
    bind_arguments_lem f args vs s e few ready =
        let room : 0 + length args ≤ places = omega (arith, few) in
        bind_rounds_lem places 0 f args vs s e few room ready
