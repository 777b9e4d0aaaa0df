-- ===== src/Helper/Tests.antt =====
-- The look-ups and the tests against a database that answers every query with one value.
use cmdb.Base.{refl, ℕ, ◌+◌, ◌≡◌, some, [], ◌∷◌, pos}
use cmdb.Data.{cmdb_add_string_to_list, Text, codes, lint}
use cmdb.Query.{Database}
use cmdb.Tables.{identity_id_on_server_user}
use cmdb.Helper.Check.{
  cmdb_check_add_identity_id_to_list, cmdb_add_identity_id_to_list,
  cmdb_check_add_server_id_to_list,
}
use cmdb.Helper.Lookup.{cmdb_add_server_id_to_list}

abbrev one_value : Database ℕ
one_value = record {
  ailsa_basic_query = λ dc query. (pos 0, lint query ∷ []);
  ailsa_argument_query = λ dc query args. (pos 0, lint query ∷ []);
  ailsa_update_query = λ dc query args. (pos 0, dc + 1);
}

abbrev web : Text
web = codes "web"

identity_of_web :
    cmdb_check_add_identity_id_to_list one_value (some (some web, some web)) (some 0) (some [])
    ≡ (pos 0, some (lint identity_id_on_server_user ∷ []))
unfolding cmdb_check_add_identity_id_to_list cmdb_add_identity_id_to_list cmdb_add_server_id_to_list
    cmdb_check_add_server_id_to_list cmdb_add_string_to_list
identity_of_web = refl
