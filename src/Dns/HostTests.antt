-- ===== src/Dns/HostTests.antt =====
-- Records and delegations at concrete inputs, in a database with one zone, whose identifier is 3.
use cmdb.Base.{in_order, ◌≡◌, refl, none, some, [], ◌∷◌, ◌==◌, if◌then◌else◌, pos, arith}
use cmdb.Data.{codes, text, lint, DataList, cmdb_add_string_to_list}
use cmdb.Query.{Database}
use cmdb.Tables.{
  set_fwd_zone_updated_on_name, fwd_zone_id_on_zone_name, insert_glue_zone, insert_record_mx,
}
use cmdb.Helper.Several.{cmdb_add_zone_id_to_list}
use cmdb.Helper.Check.{cmdb_check_add_zone_id_to_list}
use cmdb.Helper.Count.{cmdb_check_for_fwd_record}
use cmdb.Zone.Columns.{Inserts}
use cmdb.Build.Tests.{still}
use cmdb.Dns.Steps.{CommLine}
use cmdb.Dns.Host.{zone_id_of, add_host}
use cmdb.Dns.Recorded.{Kind, record_values, add_host_lem}
use cmdb.Dns.Glue.{add_glue_zone}
use cmdb.Dns.Delegated.{add_glue_zone_lem}

abbrev one_zone : Database DataList
one_zone = record {
  ailsa_basic_query = λ dc query. (pos 0, []);
  ailsa_argument_query =
      λ dc query args. (pos 0, if query == fwd_zone_id_on_zone_name then dc else []);
  ailsa_update_query = λ dc query args. (pos 0, dc);
}

abbrev empty_line : CommLine
empty_line = record {
  prefix = 0;
  rtype = none;
  ztype = none;
  service = none;
  protocol = none;
  domain = none;
  toplevel = none;
  host = none;
  dest = none;
  master = none;
  glue_ip = none;
  glue_ns = none;
}

abbrev mail : CommLine
mail = record empty_line {
  prefix = 10;
  rtype = some (codes "MX");
  domain = some (codes "cmdb.org");
  host = some (codes "@");
  dest = some (codes "mail.cmdb.org.");
}

abbrev mail_row : DataList
mail_row =
    record_values 3 Kind.mx (codes "@") (codes "mail.cmdb.org.") 10 (lint 1000 ∷ lint 1000 ∷ [])

add_host_example :
    let (retval, c) =
      in_order
        (λ c. still.ailsa_insert_query c insert_record_mx mail_row)
        ((λ c.
            one_zone.ailsa_update_query c set_fwd_zone_updated_on_name
              (lint 1000 ∷ text (codes "cmdb.org") ∷ []))
          ∷ [])
        (lint 3 ∷ []) in
    (add_host one_zone still 1000 (some (lint 3 ∷ [])) (some mail) ≡ some (retval, some c))
    × Inserts insert_record_mx mail_row
unfolding zone_id_of cmdb_check_add_zone_id_to_list cmdb_add_zone_id_to_list cmdb_add_string_to_list
    cmdb_check_for_fwd_record
add_host_example =
    add_host_lem one_zone still 1000 (lint 3 ∷ []) mail Kind.mx (codes "cmdb.org") (codes "@")
      (codes "mail.cmdb.org.") 3 refl
      (record { rtype_given = refl; host_given = refl; dest_given = refl; kind_given = tt }) refl
      refl

abbrev service : CommLine
service = record empty_line {
  rtype = some (codes "SRV");
  domain = some (codes "cmdb.org");
  host = some (codes "ldap");
  protocol = some (codes "tcp");
  service = some (codes "ldap");
}

abbrev delegation : CommLine
delegation = record empty_line {
  domain = some (codes "lab.cmdb.org");
  glue_ns = some (codes "ns1,ns2");
  glue_ip = some (codes "10.0.0.1,10.0.0.2");
}

abbrev glue_values : DataList
glue_values =
    lint 3
    ∷ text (codes "lab.cmdb.org")
    ∷ text (codes "ns1")
    ∷ text (codes "ns2")
    ∷ text (codes "10.0.0.1")
    ∷ text (codes "10.0.0.2")
    ∷ lint 1000
    ∷ lint 1000
    ∷ []

add_glue_zone_example :
    let (retval, c) =
      in_order
        (λ c. still.ailsa_insert_query c insert_glue_zone glue_values)
        ((λ c.
            one_zone.ailsa_update_query c set_fwd_zone_updated_on_name
              (lint 1000 ∷ text (codes "cmdb.org") ∷ []))
          ∷ [])
        (lint 3 ∷ []) in
    (add_glue_zone one_zone still 1000 (λ name. none) (some (lint 3 ∷ [])) (some delegation)
      ≡ some (retval, some c))
    × Inserts insert_glue_zone glue_values
unfolding zone_id_of cmdb_check_add_zone_id_to_list cmdb_add_zone_id_to_list cmdb_add_string_to_list
add_glue_zone_example =
    add_glue_zone_lem one_zone still 1000 (λ name. none) (lint 3 ∷ []) delegation (codes "lab")
      (codes "cmdb.org") (codes "ns1") (codes "ns2") (codes "10.0.0.1") (codes "10.0.0.2") 3 refl
      (omega arith) refl refl (record { free = omega arith; fits = omega arith })
      (record { free = omega arith; fits = omega arith })
      (record { free = omega arith; fits = omega arith })
      (record { free = omega arith; fits = omega arith }) refl
