-- ===== src/Helper/Default/Answers.antt =====
-- What the look-ups with a default return, for every answer of the database.
use cmdb.Base.{◌≡◌, refl, Option, none, some, [], ◌∷◌, ℤ}
use cmdb.Data.{
  Text, DbData, DataList, text, strndup, config_len, ailsa_no_data, cmdb_add_string_to_list,
}
use cmdb.Query.{Database}
use cmdb.Tables.{
  default_domain, build_domain_id_on_domain, default_customer, cust_id_on_coid, default_varient,
  varient_id_on_variant_or_valias, default_scheme, scheme_id_on_name, default_locale,
  locale_id_from_name, default_os, build_os_on_name_version, build_os_on_all,
}
use cmdb.Helper.Lookup.Answers.{append_rows, ask}
use cmdb.Helper.Default.{
  cmdb_add_build_domain_id_to_list, cmdb_add_cust_id_to_list, cmdb_add_varient_id_to_list,
  cmdb_add_scheme_id_to_list, cmdb_add_locale_id_to_list, cmdb_add_os_id_to_list,
}

abbrev pub argument : Text → DbData
argument t = text (strndup t config_len)

module _ {Cmdb : Type 0} (db : Database Cmdb) (dc : Cmdb) (list : DataList) where
  -- With no name, each of the five look-ups asks the query for its default, which takes no
  -- arguments, and appends the rows of the answer to the list of the caller.
  pub defaults_ask :
      (cmdb_add_build_domain_id_to_list db none (some dc) (some list)
        ≡ append_rows list (db.ailsa_basic_query dc default_domain))
      × (cmdb_add_cust_id_to_list db none (some dc) (some list)
          ≡ append_rows list (db.ailsa_basic_query dc default_customer))
      × (cmdb_add_varient_id_to_list db none (some dc) (some list)
          ≡ append_rows list (db.ailsa_basic_query dc default_varient))
      × (cmdb_add_scheme_id_to_list db none (some dc) (some list)
          ≡ append_rows list (db.ailsa_basic_query dc default_scheme))
      × (cmdb_add_locale_id_to_list db none (some dc) (some list)
          ≡ append_rows list (db.ailsa_basic_query dc default_locale))
  unfolding cmdb_add_build_domain_id_to_list cmdb_add_cust_id_to_list cmdb_add_varient_id_to_list
      cmdb_add_scheme_id_to_list cmdb_add_locale_id_to_list
  defaults_ask = (refl, refl, refl, refl, refl)

  -- With a name, each of the five asks the query by that name and appends the rows of the answer;
  -- the query for a varient has the name twice, as the name and as the alias.
  pub names_ask :
      (name : Text)
      → let arg = argument name in
        (cmdb_add_build_domain_id_to_list db (some name) (some dc) (some list)
          ≡ ask db dc build_domain_id_on_domain (arg ∷ []) list)
        × (cmdb_add_cust_id_to_list db (some name) (some dc) (some list)
            ≡ ask db dc cust_id_on_coid (arg ∷ []) list)
        × (cmdb_add_varient_id_to_list db (some name) (some dc) (some list)
            ≡ ask db dc varient_id_on_variant_or_valias (arg ∷ arg ∷ []) list)
        × (cmdb_add_scheme_id_to_list db (some name) (some dc) (some list)
            ≡ ask db dc scheme_id_on_name (arg ∷ []) list)
        × (cmdb_add_locale_id_to_list db (some name) (some dc) (some list)
            ≡ ask db dc locale_id_from_name (arg ∷ []) list)
  unfolding cmdb_add_build_domain_id_to_list cmdb_add_cust_id_to_list cmdb_add_varient_id_to_list
      cmdb_add_scheme_id_to_list cmdb_add_locale_id_to_list cmdb_add_string_to_list
  names_ask name = (refl, refl, refl, refl, refl)

  -- What the look-up of an operating system does with each choice of arguments: all absent is the
  -- default; a name and a version select by both, in the two columns of each; the architecture is
  -- added where it is given; anything less is refused.
  abbrev pub os_answer : Option Text → Option Text → Option Text → ℤ × Option DataList
  os_answer none none none = append_rows list (db.ailsa_basic_query dc default_os)
  os_answer (some os) (some version) none =
      ask db dc build_os_on_name_version
        (argument os ∷ argument os ∷ argument version ∷ argument version ∷ []) list
  os_answer (some os) (some version) (some arch) =
      ask db dc build_os_on_all
        (argument os ∷ argument os ∷ argument version ∷ argument version ∷ argument arch ∷ []) list
  os_answer _ _ _ = (ailsa_no_data, some list)

  -- For every choice of name, version and architecture, `cmdb_add_os_id_to_list` answers as
  -- `os_answer` says: a default only where all three are absent, four or five arguments where both
  -- the name and the version are given, and AILSA_NO_DATA, with no query and the list as it was, in
  -- the other cases.
  pub os_id_lem :
      (os version arch : Option Text)
      → cmdb_add_os_id_to_list db (os, version, arch) (some dc) (some list)
        ≡ os_answer os version arch
  unfolding cmdb_add_os_id_to_list cmdb_add_string_to_list
  os_id_lem none none none = refl
  os_id_lem none none (some arch) = refl
  os_id_lem none (some version) none = refl
  os_id_lem none (some version) (some arch) = refl
  os_id_lem (some os) none none = refl
  os_id_lem (some os) none (some arch) = refl
  os_id_lem (some os) (some version) none = refl
  os_id_lem (some os) (some version) (some arch) = refl
