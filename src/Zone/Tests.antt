-- ===== src/Zone/Tests.antt =====
-- New zones at concrete inputs, with a database that counts what was done to it.
use cmdb.Base.{
  ◌/◌, ◌%◌, ◌<◌, inl, inr, ltb, ltb_cases, if◌then◌else◌, ℕ, ◌+◌, ◌≡◌, refl, none, some, [], ◌∷◌,
  pos, arith,
}
use cmdb.Data.{Text, codes, ailsa_no_data}
use cmdb.Query.{Database}
use cmdb.Net.{get_start_finsh_ips, convert_bin_ipv4_to_text}
use cmdb.Net.Tests.{four_bytes, four_bytes-Inverse, network}
use cmdb.Zone.{Date, generate_zone_serial, Settings, Outside}
use cmdb.Tables.{insert_reverse_zone}
use cmdb.Zone.Columns.{Inserts}
use cmdb.Zone.Rows.{rev_zone_row}
use cmdb.Zone.Serial.{Numeral, value, serial_lem}
use cmdb.Zone.Reverse.{Actions, add_reverse_zone, class_a_refused, added_lem}

abbrev pub server : Settings
server = record {
  prins = some (codes "ns1");
  secns = none;
  refresh = 28800;
  retry = 7200;
  expire = 1209600;
  ttl = 86400;
}

abbrev pub machine : Outside
machine = record {
  inet = four_bytes;
  decimal = λ n. codes "24";
  today = some (record { tm_year = 121; tm_mon = 2; tm_mday = 5 });
  uid = 1000;
}

-- The state counts the changes; no zone overlaps.
abbrev pub counting : Database ℕ
counting = record {
  ailsa_basic_query = λ dc query. (pos 0, []);
  ailsa_argument_query = λ dc query args. (pos 0, []);
  ailsa_update_query = λ dc query args. (pos 0, dc + 1);
}

abbrev changes : Actions ℕ
changes = record {
  settings = λ dc. server;
  insert_reverse_zone = λ dc row. (pos 0, dc + 1);
  cmdb_validate_zone = λ dc range type prefix. (pos 0, dc + 1);
  cmdb_write_rev_zone_config = λ dc. (pos 0, dc + 1);
  reload = λ dc. (pos 0, dc + 1);
}

added_lem_example :
    (add_reverse_zone machine counting changes (some 0) (some network) none none 24
      ≡ (pos 0, some 4))
    × Inserts insert_reverse_zone (
        rev_zone_row machine server
          (codes "ns1")
          refl
          network
          none
          24
          (167838208, 167838463)
          (10 ∷ 1 ∷ 2 ∷ 255 ∷ []))
added_lem_example =
    added_lem machine counting changes network 167838208 refl four_bytes-Inverse (omega arith) 24
      (omega arith) (omega arith) (omega arith) 0 (codes "ns1") (10 ∷ 1 ∷ 2 ∷ 255 ∷ []) refl refl
      none none

class_a_refused_example :
    add_reverse_zone machine counting changes (some 0) (some network) none none 8
    ≡ (ailsa_no_data, some 0)
class_a_refused_example =
    class_a_refused machine counting changes network 167838208 refl four_bytes-Inverse (omega arith)
      (omega arith) 0 none none

bounds : get_start_finsh_ips four_bytes (some network) 24 (0, 0) ≡ (pos 0, 167838208, 167838463)
unfolding get_start_finsh_ips cmdb.Net.get_zone_index cmdb.Net.get_offset_ip
    cmdb.Net.convert_text_ipv4_to_bin convert_bin_ipv4_to_text
bounds = refl

shown : convert_bin_ipv4_to_text four_bytes 167838463 ≡ (pos 0, some (10 ∷ 1 ∷ 2 ∷ 255 ∷ []))
unfolding convert_bin_ipv4_to_text
shown = refl

abbrev decimal_of : ℕ → Text
decimal_of n =
    if ltb n 10
    then (48 + n) ∷ []
    else if ltb n 100
    then (48 + n / 10) ∷ (48 + n % 10) ∷ []
    else if ltb n 1000
    then (48 + n / 100) ∷ (48 + n / 10 % 10) ∷ (48 + n % 10) ∷ []
    else (48 + n / 1000) ∷ (48 + n / 100 % 10) ∷ (48 + n / 10 % 10) ∷ (48 + n % 10) ∷ []

decimal_of-Numeral : (n : ℕ) → n < 10000 → Numeral n (decimal_of n)
decimal_of-Numeral n lt = elim (ltb_cases n 10) [
  | inl (p, a) ↦ rw p ((omega arith, omega (arith, a), tt), omega arith, refl)
  | inr (p, a) ↦ elim (ltb_cases n 100) [
    | inl (q, b) ↦
        rw (p, q)
          ((omega arith, omega (arith, b), (omega arith, omega arith, tt)), omega arith, refl)
    | inr (q, b) ↦ elim (ltb_cases n 1000) [
      | inl (r, c) ↦
          rw (p, q, r)
            (
              (
                omega arith,
                omega (arith, c),
                (omega arith, omega arith, (omega arith, omega arith, tt)),
              ),
              omega arith,
              refl,
            )
      | inr (r, c) ↦
          rw (p, q, r)
            (
              (
                omega arith,
                omega (arith, lt),
                (
                  omega arith,
                  omega arith,
                  (omega arith, omega arith, (omega arith, omega arith, tt)),
                ),
              ),
              omega arith,
              refl,
            )
    ]
  ]
]

abbrev fifth_of_march : Date
fifth_of_march = record { tm_year = 121; tm_mon = 2; tm_mday = 5 }

abbrev with_clock : Outside
with_clock = record {
  inet = record { pton = λ t. none; ntop = λ ip. none; strtoul = value 0 };
  decimal = decimal_of;
  today = some fifth_of_march;
  uid = 1000;
}

serial_lem_example : generate_zone_serial with_clock ≡ 2021030501
serial_lem_example =
    serial_lem with_clock fifth_of_march refl (omega arith) (omega arith) (omega arith)
      decimal_of-Numeral (λ t digits short. refl)
