-- ===== src/Dns/Tests.antt =====
-- A reverse zone in a database that is the list of its records.
use cmdb.Base.{
  Bool-cases, inl, inr, ◌&&◌, ℕ, ◌≡◌, refl, ap, none, some, List, [], ◌∷◌, ◌++◌, ◌==◌,
  if◌then◌else◌, ℤ, pos, arith,
}
use cmdb.Data.{Text, DataList, codes, text, lint, cmdb_add_string_to_list, cmdb_add_number_to_list}
use cmdb.Query.{Database}
use cmdb.Tables.{prefix_on_net_range, rev_zone_id_on_range, full_rev_records, records_on_net_range}
use cmdb.Net.{dot, get_zone_index, get_offset_ip}
use cmdb.Net.Tests.{dotted_text, offset_text}
use cmdb.Zone.Update.{cmdb_validate_zone}
use cmdb.Dns.Records.{ZoneRecord, Preferred, cmdb_trim_record_list}
use cmdb.Dns.Reverse.{cmdb_records_to_remove, cmdb_records_to_add, add_rounds}
use cmdb.Dns.Pairs.{Pair, pair_in}
use cmdb.Dns.Mirror.{Forwards, Reverses, forward_pairs, reverse_pairs}
use cmdb.Dns.Kept.{without}
use cmdb.Dns.Gained.{inserted}
use cmdb.Dns.InStep.{network, reverse_zone_in_step}
use cmdb.Dns.Trim.{filter_agrees, missed_in_wide_zone, trim_keeps_agreeing}
use cmdb.Dns.Steps.{CommLine, Changes}
use cmdb.Dns.Rebuilt.{RevTable}

abbrev Zone : Type 0
Zone = List ZoneRecord

-- The rows of the query for the records of the zone.
abbrev rows_of : Zone → DataList
rows_of [] = []
rows_of (r ∷ rs) = text r.host ∷ text r.dest ∷ lint r.id ∷ lint r.zone ∷ rows_of rs

abbrev pointer : ℕ → Text → Text → ZoneRecord
pointer id host dest = record {
  host = host;
  dest = dest;
  domain = none;
  id = id;
  zone = 7;
  index = 0;
}

-- The rows that name the zone 7 and its piece 0.
abbrev decoded : DataList → Zone
decoded (lint z ∷ lint j ∷ text host ∷ text dest ∷ lint cuser ∷ lint muser ∷ rows) =
    let rest = decoded rows in if z == 7 && j == 0 then pointer 0 host dest ∷ rest else rest
decoded rows = []

abbrev answers : Zone → ℕ → DataList → ℤ × DataList
answers zone query args =
    if query == prefix_on_net_range
    then (pos 0, text (codes "24") ∷ [])
    else if query == rev_zone_id_on_range
    then (pos 0, lint 7 ∷ [])
    else if query == full_rev_records
    then (pos 0, rows_of zone)
    else if query == records_on_net_range
    then (
      pos 0,
      text (codes "10.1.2.5")
          ∷ lint 11
          ∷ text (codes "www")
          ∷ text (codes "cmdb.org")
          ∷ text (codes "10.1.2.5")
          ∷ lint 12
          ∷ text (codes "@")
          ∷ text (codes "cmdb.org")
          ∷ text (codes "10.1.2.6")
          ∷ lint 13
          ∷ text (codes "mail")
          ∷ text (codes "cmdb.org")
          ∷ [],
    )
    else (pos 0, text (codes "10.1.2.5") ∷ text (codes "www.cmdb.org") ∷ lint 11 ∷ [])

abbrev zone_db : Database Zone
zone_db = record {
  ailsa_basic_query = λ dc query. (pos 0, []);
  ailsa_argument_query = answers;
  ailsa_update_query = λ dc query args. (pos 0, dc);
}

abbrev zone_changes : Changes Zone
zone_changes = record {
  files = record {
    write_fwd_zone_file = λ dc zone. (pos 0, dc);
    write_rev_zone_file = λ dc zone prefix i. (pos 0, dc);
    cmdb_check_zone = λ dc zone. (pos 0, dc);
  };
  ailsa_insert_query = λ dc query row. (pos 0, dc);
  ailsa_delete_query = λ dc query args. (pos 0, dc);
  ailsa_multiple_query = λ dc query rows. (pos 0, dc ++ decoded rows);
  ailsa_multiple_delete = λ dc query ids. (pos 0, without ids dc);
  cmdb_write_fwd_zone_config = λ dc. (pos 0, dc);
  cmdb_write_rev_zone_config = λ dc. (pos 0, dc);
  reload = λ dc. (pos 0, dc);
}

abbrev range : Text
range = codes "10.1.2.0"

abbrev before : Text
before = network (codes "10") (codes "1") (codes "2") ++ (dot ∷ [])

pairs_decoded : (rows : DataList) → reverse_pairs before (decoded rows) ≡ inserted 7 0 before rows
unfolding inserted
pairs_decoded (lint z ∷ lint j ∷ text host ∷ text dest ∷ lint cuser ∷ lint muser ∷ rows) =
    elim (Bool-cases (z == 7 && j == 0)) [
      | inl e ↦ rw e (ap (λ l. (before ++ host, dest) ∷ l) (pairs_decoded rows))
      | inr e ↦ rw e (pairs_decoded rows)
    ]
pairs_decoded _ = refl

inserted-decoded :
    (zone : Zone) (rows : DataList)
    → reverse_pairs before (zone ++ decoded rows)
      ≡ reverse_pairs before zone ++ inserted 7 0 before rows
inserted-decoded [] rows = pairs_decoded rows
inserted-decoded (r ∷ zone) rows =
    ap (λ l. (before ++ r.host, r.dest) ∷ l) (inserted-decoded zone rows)

zone_table : RevTable zone_db dotted_text zone_changes range before 7
unfolding cmdb_validate_zone get_zone_index get_offset_ip cmdb_add_string_to_list
    cmdb_add_number_to_list cmdb.Net.convert_text_ipv4_to_bin cmdb.Net.convert_bin_ipv4_to_text
zone_table = record {
  records = λ dc. dc;
  deleted = λ dc ids. refl;
  added = λ dc rows. inserted-decoded dc rows;
  noted = λ uid dc. refl;
  judged = λ dc. refl;
  reloaded = λ dc. refl;
}

abbrev zone : Zone
zone =
    pointer 3 (codes "9") (codes "old.cmdb.org.")
    ∷ pointer 4 (codes "5") (codes "www.cmdb.org.")
    ∷ []

abbrev host_record : ℕ → Text → Text → ZoneRecord
host_record id host dest = record {
  host = host;
  dest = dest;
  domain = some (codes "cmdb.org");
  id = id;
  zone = 0;
  index = 0;
}

abbrev hosts : List ZoneRecord
hosts =
    host_record 11 (codes "www") (codes "10.1.2.5")
    ∷ host_record 12 (codes "@") (codes "10.1.2.5")
    ∷ host_record 13 (codes "mail") (codes "10.1.2.6")
    ∷ []

abbrev preferred : List Preferred
preferred = record { ip = codes "10.1.2.5"; fqdn = codes "www.cmdb.org"; record_id = 11 } ∷ []

abbrev command : CommLine
command = record {
  prefix = 0;
  rtype = none;
  ztype = none;
  service = none;
  protocol = none;
  domain = some range;
  toplevel = none;
  host = none;
  dest = none;
  master = none;
  glue_ip = none;
  glue_ns = none;
}

hosts_inside : Forwards before hosts
hosts_inside = (
  record { last = codes "5"; begins = refl; free = omega arith; short = omega arith },
  (
    record { last = codes "5"; begins = refl; free = omega arith; short = omega arith },
    (record { last = codes "6"; begins = refl; free = omega arith; short = omega arith }, tt),
  ),
)

zone_pointers : Reverses 0 zone
zone_pointers =
    (refl, omega arith, omega arith, omega arith, (refl, omega arith, omega arith, omega arith, tt))

in_step_example :
    (remove : DataList) × (add : DataList) × (cmdb_records_to_remove dotted_text range 24 hosts zone
        []
      ≡ (pos 0, remove))
    × (cmdb_records_to_add dotted_text range 24 1000 7 hosts zone [] ≡ some (pos 0, add))
    × ((p : Pair)
        → pair_in p (reverse_pairs before (without remove zone) ++ inserted 7 0 before add)
          ≡ pair_in p (forward_pairs hosts))
in_step_example =
    reverse_zone_in_step dotted_text range (codes "10") (codes "1") (codes "2") (codes "0")
      (omega arith) (omega arith) (omega arith) offset_text (omega arith) 1000 7 hosts zone
      hosts_inside zone_pointers refl

trim_keeps_agreeing_example :
    cmdb_trim_record_list hosts preferred ≡ (pos 0, filter_agrees preferred hosts)
trim_keeps_agreeing_example = trim_keeps_agreeing hosts preferred

-- The preferred record of 10.1.2.5 drives out the other one.
trimmed :
    filter_agrees preferred hosts
    ≡ host_record 11 (codes "www") (codes "10.1.2.5")
      ∷ host_record 13 (codes "mail") (codes "10.1.2.6")
      ∷ []
unfolding filter_agrees
trimmed = refl

-- 10.1.3.6 is not added to the zone 10.1, which has 10.1.2.5 and no other address.
missed_example :
    add_rounds 1000 7
      (codes "10.1.%")
      (codes "10.1.")
      0
      (host_record 11 (codes "www") (codes "10.1.2.5")
        ∷ host_record 13 (codes "mail") (codes "10.1.3.6")
        ∷ [])
      ([] ++ (pointer 4 (codes "2.5") (codes "www.cmdb.org.") ∷ []))
      (codes "10.1.%")
      []
    ≡ some (pos 0, [])
missed_example =
    missed_in_wide_zone 1000 7 0 (codes "10.1.%") (codes "10.1.") (codes "2") (codes "5")
      (omega arith) (omega arith)
      (host_record 11 (codes "www") (codes "10.1.2.5")
        ∷ host_record 13 (codes "mail") (codes "10.1.3.6")
        ∷ [])
      [] (pointer 4 (codes "2.5") (codes "www.cmdb.org.")) (codes "10.1.%") [] refl (omega arith)
      (inl refl, (inr refl, tt))
