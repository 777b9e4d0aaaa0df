-- ===== src/Sql/Multi/Delete.antt =====
-- `cmdb_create_delete_multi` of lib/queries.c: what it makes of a statement that compares one column.
use cmdb.Base.{
  ℕ, suc, ◌+◌, ◌*◌, ◌%◌, ◌^◌, ◌<◌, ◌≡◌, refl, false, true, none, some, [], ◌∷◌, ◌++◌, ◌==◌, arith,
  length, length-append, pos,
}
use cmdb.Data.{Text, codes}
use cmdb.Sql.{SqlQuery, field_at}
use cmdb.Sql.Multi.{last_index, same, close_delete, cmdb_create_delete_multi}
use cmdb.Sql.Multi.Places.{
  holding, print_at_inside, print_at_end, places, print_places_lem, close_places,
}

-- A text with one place less its last separator, which a parenthesis takes the place of.
abbrev pub opening : Text
opening = codes "IN ("

last_index-append :
    (c : ℕ) (a b : Text) → last_index c b ≡ none → last_index c (a ++ c ∷ b) ≡ some (length a)
last_index-append c [] b absent = let e : (c == c) ≡ true = ground arith in rw (absent, e) refl
last_index-append c (x ∷ a) b absent = rw (last_index-append c a b absent) refl

-- The steps behind `strrchr`, for a text with an `=` and something behind it.
close_delete_lem :
    (n total : ℕ) (a rest : Text)
    → length a + 4 + 3 * suc total < n
    → close_delete (holding n (a ++ rest)) (length a) (suc total)
      ≡ some (a ++ opening ++ places (suc total) ++ codes ")")
close_delete_lem n total a rest room =
    let l = length-append a opening in
    let front : length a + 4 < n = omega (arith, room) in
    let offset : length a + 4 ≡ length (a ++ opening) = omega (arith, l) in
    let inside : length (a ++ opening) + 3 * suc total < n = omega (arith, l, room) in
    rw
      (
        print_at_inside n a rest opening front,
        print_places_lem (suc total) n (length a + 4) (a ++ opening) offset inside,
        offset,
        close_places n total (a ++ opening) inside,
      )
      refl

module _ (query : SqlQuery) (a b : Text) (one : query.number ≡ 1)
    (split : codes query.query ≡ a ++ b'=' ∷ b) (last : last_index b'=' b ≡ none) where
  -- A statement that compares one column with one value, `... WHERE c = ?`, becomes for one value or
  -- more `... WHERE c IN (?, ?)`, with one place for each value and the type of the first for all of
  -- them, and everything is written within the block, if something stands behind the last `=`.
  pub cmdb_create_delete_multi_lem :
      (total : ℕ)
      → 0 < length b
      → cmdb_create_delete_multi query (suc total)
        ≡ some (
          pos 0,
          some (record {
            query = a ++ opening ++ places (suc total) ++ codes ")";
            number = 1;
            total = suc total % 2 ^ 32;
            fields = same (suc total) (field_at query.fields 0);
          }),
        )
  unfolding cmdb_create_delete_multi
  cmdb_create_delete_multi_lem total some_behind =
      let l = length-append a (b'=' ∷ b) in
      let size = suc total * 3 + 3 + length (a ++ b'=' ∷ b) in
      let front : 0 + length (a ++ b'=' ∷ b) < size = omega arith in
      let room : length a + 4 + 3 * suc total < size = omega (arith, l, some_behind) in
      let some_value : (suc total == 0) ≡ false = ground arith in
      rw
        (
          some_value,
          one,
          split,
          print_at_end size [] (a ++ b'=' ∷ b) front,
          last_index-append b'=' a b last,
          close_delete_lem size total a (b'=' ∷ b) room,
        )
        refl
