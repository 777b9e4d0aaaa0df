-- ===== src/Helper/Default.antt =====
-- lib/helper.c: the look-ups that fall back on a default.
pub mod Answers
use cmdb.Base.{Option, ◌&&◌, if◌then◌else◌, is_null, ℤ}
use cmdb.Data.{Text, DataList}
use cmdb.Query.{Database, ◌>>◌, add_string, with_lists, basic_query, argument_query}
use cmdb.Tables.{
  default_locale, default_os, default_scheme, default_varient, default_domain, default_customer,
  cust_id_on_coid, build_os_on_name_version, build_os_on_all, varient_id_on_variant_or_valias,
  scheme_id_on_name, build_domain_id_on_domain, locale_id_from_name,
}

module _ {Cmdb : Type 0} (db : Database Cmdb) where
  unfoldable pub cmdb_add_build_domain_id_to_list :
      Option Text → Option Cmdb → Option DataList → ℤ × Option DataList
  cmdb_add_build_domain_id_to_list domain dc list = with_lists dc list λ c.
      if is_null domain
      then basic_query db c default_domain
      else add_string domain >> argument_query db c build_domain_id_on_domain

  unfoldable pub cmdb_add_cust_id_to_list :
      Option Text → Option Cmdb → Option DataList → ℤ × Option DataList
  cmdb_add_cust_id_to_list coid dc list = with_lists dc list λ c.
      if is_null coid
      then basic_query db c default_customer
      else add_string coid >> argument_query db c cust_id_on_coid

  unfoldable pub cmdb_add_varient_id_to_list :
      Option Text → Option Cmdb → Option DataList → ℤ × Option DataList
  cmdb_add_varient_id_to_list varient dc list = with_lists dc list λ c.
      if is_null varient
      then basic_query db c default_varient
      else add_string varient
        >> add_string varient
        >> argument_query db c varient_id_on_variant_or_valias

  unfoldable pub cmdb_add_scheme_id_to_list :
      Option Text → Option Cmdb → Option DataList → ℤ × Option DataList
  cmdb_add_scheme_id_to_list scheme dc list = with_lists dc list λ c.
      if is_null scheme
      then basic_query db c default_scheme
      else add_string scheme >> argument_query db c scheme_id_on_name

  unfoldable pub cmdb_add_locale_id_to_list :
      Option Text → Option Cmdb → Option DataList → ℤ × Option DataList
  cmdb_add_locale_id_to_list locale dc list = with_lists dc list λ c.
      if is_null locale
      then basic_query db c default_locale
      else add_string locale >> argument_query db c locale_id_from_name

  -- `args` holds the name, the version and the architecture.
  unfoldable pub cmdb_add_os_id_to_list :
      Option Text × Option Text × Option Text → Option Cmdb → Option DataList → ℤ × Option DataList
  cmdb_add_os_id_to_list (os, version, arch) dc list = with_lists dc list λ c.
      if is_null os && (is_null version && is_null arch)
      then basic_query db c default_os
      else add_string os
        >> add_string os
        >> add_string version
        >> add_string version
        >> (if is_null arch
            then argument_query db c build_os_on_name_version
            else add_string arch >> argument_query db c build_os_on_all)
