-- ===== src/Sql/Tests.antt =====
-- Statements of lib/queries.c, and what is put together from them.
use cmdb.Base.{◌≡◌, refl, some, [], ◌∷◌, pos, get_elem?, arith}
use cmdb.Data.{codes}
use cmdb.Tables.{rev_zone_overlap}
use cmdb.Sql.{SqlQuery, FieldType, statement, lint_type, text_type}
use cmdb.Sql.Argument.{argument_queries}
use cmdb.Sql.Fits.{Fits, argument, queries_of, queries_fit}
use cmdb.Sql.Multi.{cmdb_create_multi, cmdb_create_delete_multi}
use cmdb.Sql.Multi.Delete.{cmdb_create_delete_multi_lem}
use cmdb.Sql.Multi.Rows.{cmdb_create_multi_lem}

abbrev server_id : SqlQuery
server_id = statement "SELECT server_id FROM server WHERE name = ?" 1 (text_type ∷ [])

queries_fit_example : Fits server_id
unfolding queries_of argument_queries
queries_fit_example = queries_fit argument 11 server_id refl

abbrev deletion : SqlQuery
deletion = statement "DELETE FROM zones WHERE id = ?" 1 (lint_type ∷ [])

create_delete_multi_example :
    cmdb_create_delete_multi deletion 3
    ≡ some (
      pos 0,
      some (record {
        query = codes "DELETE FROM zones WHERE id IN (?, ?, ?)";
        number = 1;
        total = 3;
        fields = lint_type ∷ lint_type ∷ lint_type ∷ [];
      }),
    )
create_delete_multi_example =
    cmdb_create_delete_multi_lem deletion (codes "DELETE FROM zones WHERE id ") (codes " ?") refl
      refl refl 2 (omega arith)

abbrev insertion : SqlQuery
insertion = statement "INSERT INTO t (a, b) VALUES (?, ?)" 2 (text_type ∷ lint_type ∷ [])

create_multi_example :
    cmdb_create_multi insertion 5
    ≡ some (
      pos 0,
      some (record {
        query = codes "INSERT INTO t (a, b) VALUES (?, ?), (?, ?)";
        number = 2;
        total = 5;
        fields = text_type ∷ lint_type ∷ text_type ∷ lint_type ∷ FieldType.null_type ∷ [];
      }),
    )
create_multi_example =
    cmdb_create_multi_lem insertion refl (omega arith) 1 1 (omega arith) (omega arith)

-- The text whose condition `selected` of Zone/Overlap gives.
overlap_text :
    get_elem? argument_queries rev_zone_overlap
    ≡ some (
        statement
          "SELECT rev_zone_id FROM rev_zones WHERE (start_ip >= ? AND finish_ip <= ?) OR (start_ip <= ? AND finish_ip >= ?) OR (start_ip <= ? AND finish_ip >= ?)"
          6
          (lint_type ∷ lint_type ∷ lint_type ∷ lint_type ∷ lint_type ∷ lint_type ∷ []))
unfolding argument_queries
overlap_text = refl
