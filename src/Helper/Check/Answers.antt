-- ===== src/Helper/Check/Answers.antt =====
-- What the look-ups that must find exactly one row return, for every answer of the database.
use cmdb.Base.{
  ℕ, ◌+◌, ◌≡◌, Option, none, some, [], ◌∷◌, ◌++◌, List, Bool, true, false, ◌==◌, if◌then◌else◌, ℤ,
  is_ok, arith, length, length-append,
}
use cmdb.Data.{Text, DataList, cmdb_add_string_to_list}
use cmdb.Query.{Database}
use cmdb.Tables.{
  server_id_on_name, ip_id_on_server_name, vm_server_id_on_name, cust_id_on_coid, default_customer,
  default_varient, scheme_id_on_name, fwd_zone_id_on_zone_name, rev_zone_id_on_range,
  identity_id_on_server_user,
}
use cmdb.Helper.Lookup.{
  cmdb_add_server_id_to_list, cmdb_add_ip_id_to_list, cmdb_add_vm_server_id_to_list,
}
use cmdb.Helper.Default.{
  cmdb_add_cust_id_to_list, cmdb_add_varient_id_to_list, cmdb_add_scheme_id_to_list,
}
use cmdb.Helper.Several.{forward_zone, reverse_zone, cmdb_add_zone_id_to_list}
use cmdb.Helper.Lookup.Answers.{append_rows, lookups_ask}
use cmdb.Helper.Default.Answers.{argument, defaults_ask, names_ask}
use cmdb.Helper.Several.Answers.{or_master, zone_id_lem}
use cmdb.Helper.Check.{
  check_one, ailsa_server_not_found, ailsa_customer_not_found, ailsa_zone_not_found,
  ailsa_build_ip_not_found, ailsa_varient_not_found, ailsa_no_scheme, ailsa_no_vm_host,
  cannot_find_identity_id, cmdb_check_add_server_id_to_list, cmdb_check_add_cust_id_to_list,
  cmdb_check_add_varient_id_to_list, cmdb_check_add_ip_id_to_list, cmdb_check_add_scheme_id_to_list,
  cmdb_check_add_vm_id_to_list, cmdb_check_add_zone_id_to_list, cmdb_add_identity_id_to_list,
  cmdb_check_add_identity_id_to_list,
}

abbrev pub is_singleton {ℓ} : {A : Type ℓ} → List A → Bool
is_singleton [] = false
is_singleton (x ∷ []) = true
is_singleton (x ∷ y ∷ r) = false

-- The code of the query where that is an error or the answer has one value, `code` where it has
-- none or several. The values stay in the list on every path.
abbrev pub found_one : ℤ → DataList → ℤ × DataList → ℤ × Option DataList
found_one code list (retval, rows) = (
  if is_ok retval then (if is_singleton rows then retval else code) else retval,
  some (list ++ rows),
)

one-length {ℓ} :
    {A : Type ℓ} (xs ys : List A) → (length (xs ++ ys) == length xs + 1) ≡ is_singleton ys
one-length xs [] = ground (arith, length-append xs [])
one-length xs (y ∷ []) = ground (arith, length-append xs (y ∷ []))
one-length xs (y ∷ z ∷ r) = ground (arith, length-append xs (y ∷ z ∷ r))

-- The check by the total of the list is the check of the answer for a single value.
check_one_lem :
    {Cmdb : Type 0} (code : ℤ) (find : Option DataList → ℤ × Option DataList) (dc : Cmdb)
    (list : DataList) (answer : ℤ × DataList)
    → find (some list) ≡ append_rows list answer
    → check_one code find (some dc) (some list) ≡ found_one code list answer
check_one_lem code find dc list (retval, rows) e = rw e (ground (arith, one-length list rows))

module _ {Cmdb : Type 0} (db : Database Cmdb) (dc : Cmdb) where
  server_finds_one :
      (list : DataList) (name : Text)
      → cmdb_check_add_server_id_to_list db (some name) (some dc) (some list)
        ≡ found_one ailsa_server_not_found list
            (db.ailsa_argument_query dc server_id_on_name (argument name ∷ []))
  unfolding cmdb_check_add_server_id_to_list
  server_finds_one list name =
      check_one_lem ailsa_server_not_found (cmdb_add_server_id_to_list db (some name) (some dc)) dc
        list _ (lookups_ask db name dc list).1

module _ {Cmdb : Type 0} (db : Database Cmdb) (dc : Cmdb) (list : DataList) where
  abbrev pub ask_one : ℤ → ℕ → Text → ℤ × Option DataList
  ask_one code query name =
      found_one code list (db.ailsa_argument_query dc query (argument name ∷ []))

  -- Each of the five checked look-ups by a name asks the query of its kind; it returns the query's
  -- error, or 0 where the answer has exactly one value, or else the error of its own kind.
  pub names_find_one :
      (name : Text)
      → (cmdb_check_add_server_id_to_list db (some name) (some dc) (some list)
          ≡ ask_one ailsa_server_not_found server_id_on_name name)
        × (cmdb_check_add_ip_id_to_list db (some name) (some dc) (some list)
            ≡ ask_one ailsa_build_ip_not_found ip_id_on_server_name name)
        × (cmdb_check_add_vm_id_to_list db (some name) (some dc) (some list)
            ≡ ask_one ailsa_no_vm_host vm_server_id_on_name name)
        × (cmdb_check_add_cust_id_to_list db (some name) (some dc) (some list)
            ≡ ask_one ailsa_customer_not_found cust_id_on_coid name)
        × (cmdb_check_add_scheme_id_to_list db (some name) (some dc) (some list)
            ≡ ask_one ailsa_no_scheme scheme_id_on_name name)
  unfolding cmdb_check_add_server_id_to_list cmdb_check_add_ip_id_to_list
      cmdb_check_add_vm_id_to_list cmdb_check_add_cust_id_to_list cmdb_check_add_scheme_id_to_list
  names_find_one name =
      let asked = lookups_ask db name dc list in
      let named = names_ask db dc list name in
      (
        server_finds_one db dc list name,
        check_one_lem ailsa_build_ip_not_found (cmdb_add_ip_id_to_list db (some name) (some dc)) dc
            list _ asked.9,
        check_one_lem ailsa_no_vm_host (cmdb_add_vm_server_id_to_list db (some name) (some dc)) dc
            list _ asked.7,
        check_one_lem ailsa_customer_not_found (cmdb_add_cust_id_to_list db (some name) (some dc))
            dc list _ named.1,
        check_one_lem ailsa_no_scheme (cmdb_add_scheme_id_to_list db (some name) (some dc)) dc list
            _ named.3,
      )

  -- The checked look-ups of a customer and a varient take the default where no name is given, and
  -- require exactly one value of it too.
  pub defaults_find_one :
      (cmdb_check_add_cust_id_to_list db none (some dc) (some list)
        ≡ found_one ailsa_customer_not_found list (db.ailsa_basic_query dc default_customer))
      × (cmdb_check_add_varient_id_to_list db none (some dc) (some list)
          ≡ found_one ailsa_varient_not_found list (db.ailsa_basic_query dc default_varient))
  unfolding cmdb_check_add_cust_id_to_list cmdb_check_add_varient_id_to_list
  defaults_find_one =
      let asked = defaults_ask db dc list in
      (
        check_one_lem ailsa_customer_not_found (cmdb_add_cust_id_to_list db none (some dc)) dc list
            _ asked.1,
        check_one_lem ailsa_varient_not_found (cmdb_add_varient_id_to_list db none (some dc)) dc
            list _ asked.2,
      )

  -- A forward or a reverse zone that is looked up with the check is found where the answer of its
  -- query has exactly one value, and AILSA_ZONE_NOT_FOUND where it has none or several.
  pub zones_find_one :
      (zone : Text) (ztype : Option Text)
      → let args = argument zone ∷ argument (or_master ztype) ∷ [] in
        (cmdb_check_add_zone_id_to_list db (some zone) forward_zone ztype (some dc) (some list)
          ≡ found_one ailsa_zone_not_found list
              (db.ailsa_argument_query dc fwd_zone_id_on_zone_name args))
        × (cmdb_check_add_zone_id_to_list db (some zone) reverse_zone ztype (some dc) (some list)
            ≡ found_one ailsa_zone_not_found list
                (db.ailsa_argument_query dc rev_zone_id_on_range args))
  unfolding cmdb_check_add_zone_id_to_list
  zones_find_one zone ztype = (
    check_one_lem ailsa_zone_not_found
        (cmdb_add_zone_id_to_list db (some zone) forward_zone ztype (some dc)) dc list _
        (zone_id_lem db dc list zone forward_zone ztype),
    check_one_lem ailsa_zone_not_found
        (cmdb_add_zone_id_to_list db (some zone) reverse_zone ztype (some dc)) dc list _
        (zone_id_lem db dc list zone reverse_zone ztype),
  )

  -- The look-up of an identity, from the answer for the server: the query for the identity is asked
  -- only where the server was found, with the value found and the user as its arguments.
  abbrev pub identity_answer : Text → ℤ × DataList → ℤ × Option DataList
  identity_answer user (retval, rows) =
      if is_ok retval
      then (if is_singleton rows
          then found_one cannot_find_identity_id list
              (db.ailsa_argument_query dc identity_id_on_server_user (rows ++ (argument user ∷ [])))
          else (ailsa_server_not_found, some list))
      else (retval, some list)

  identity_step :
      (server user : Text) (answer : ℤ × DataList)
      → cmdb_check_add_server_id_to_list db (some server) (some dc) (some [])
        ≡ found_one ailsa_server_not_found [] answer
      → cmdb_check_add_identity_id_to_list db (some (some server, some user)) (some dc) (some list)
        ≡ identity_answer user answer
  unfolding cmdb_check_add_identity_id_to_list cmdb_add_identity_id_to_list cmdb_add_string_to_list
  identity_step server user (retval, []) e = rw e (ground arith)
  identity_step server user (retval, x ∷ y ∷ r) e = rw e (ground arith)
  identity_step server user (retval, x ∷ []) e =
      let (code, rows) =
        db.ailsa_argument_query dc identity_id_on_server_user (x ∷ argument user ∷ []) in
      rw e (ground (arith, one-length list rows))

  -- The checked look-up of an identity first looks the server up; an error of that, or
  -- AILSA_SERVER_NOT_FOUND, comes back with the list as it was. Then it asks for the identity by
  -- the server's identifier and the user, and requires exactly one value of the answer.
  pub identity_find_one :
      (server user : Text)
      → cmdb_check_add_identity_id_to_list db (some (some server, some user)) (some dc) (some list)
        ≡ identity_answer user (db.ailsa_argument_query dc server_id_on_name (argument server ∷ []))
  unfolding cmdb_check_add_identity_id_to_list cmdb_add_identity_id_to_list cmdb_add_string_to_list
  identity_find_one server user =
      identity_step server user
        (db.ailsa_argument_query dc server_id_on_name (argument server ∷ []))
        (server_finds_one db dc [] server)
