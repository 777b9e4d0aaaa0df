-- ===== src/Build/Tests.antt =====
-- A build domain at concrete inputs: the addresses 10 to 12, and a database that does not change.
use cmdb.Base.{
  ℕ, List, ◌≤◌, ◌<◌, ◌≡◌, ◌^◌, ◌%◌, refl, none, some, [], ◌∷◌, ◌==◌, if◌then◌else◌, Bool-cases, inl,
  inr, true, arith, pos, length,
}
use cmdb.Data.{Text, codes, text, lint, DataList}
use cmdb.Query.{Database}
use cmdb.Tables.{build_ip_on_build_domain_id, default_domain, a_records_with_ip, record_id_base}
use cmdb.Helper.Default.{cmdb_add_build_domain_id_to_list}
use cmdb.Helper.Default.Answers.{argument}
use cmdb.Net.{Inet}
use cmdb.Net.Tests.{dotted_text}
use cmdb.Dns.Steps.{Changes}
use cmdb.Build.Address.{BuildLine, pool, cbc_calculate_build_ip}
use cmdb.Build.Search.{member}
use cmdb.Build.Site.{Site, Owner, owner_values}
use cmdb.Build.Full.{full_pool_succeeds}

-- A host with two digits belongs to the mail server.
abbrev owners_of : DataList → List Owner
owners_of (text (_ ∷ _ ∷ _) ∷ args) = (codes "mail", codes "cmdb.org") ∷ []
owners_of args = []

-- The taken addresses are the database.
abbrev site : Database DataList
site = record {
  ailsa_basic_query = λ dc query.
      (pos 0, if query == default_domain then lint 1 ∷ [] else text (codes "cmdb.org") ∷ []);
  ailsa_argument_query = λ dc query args. (
    pos 0,
    if query == build_ip_on_build_domain_id
        then dc
        else if query == a_records_with_ip
        then owner_values (owners_of args)
        else if query == record_id_base
        then []
        else lint 7 ∷ [],
  );
  ailsa_update_query = λ dc query args. (pos 0, dc);
}

abbrev two_shown : ℕ → Text
two_shown a = if a == 11 then codes "11" else codes "1"

abbrev two_hosts : Inet
two_hosts = record { pton = λ t. some 0; ntop = λ ip. some (two_shown ip); strtoul = λ t. 24 }

abbrev pub still : Changes DataList
still = record {
  files = record {
    write_fwd_zone_file = λ dc zone. (pos 0, dc);
    write_rev_zone_file = λ dc zone prefix i. (pos 0, dc);
    cmdb_check_zone = λ dc zone. (pos 0, dc);
  };
  ailsa_insert_query = λ dc query row. (pos 0, dc);
  ailsa_delete_query = λ dc query args. (pos 0, dc);
  ailsa_multiple_query = λ dc query rows. (pos 0, dc);
  ailsa_multiple_delete = λ dc query ids. (pos 0, dc);
  cmdb_write_fwd_zone_config = λ dc. (pos 0, dc);
  cmdb_write_rev_zone_config = λ dc. (pos 0, dc);
  reload = λ dc. (pos 0, dc);
}

abbrev web : BuildLine
web = record { name = codes "web"; build_domain = none }

abbrev named_web : BuildLine
named_web = record { name = codes "web"; build_domain = some (codes "cmdb.org") }

abbrev bounds : DataList
bounds = lint 1 ∷ lint 10 ∷ lint 12 ∷ []

abbrev two_taken : DataList
two_taken = lint 10 ∷ lint 12 ∷ []

few : (a : ℕ) → length (owner_values (owners_of (argument (two_shown a) ∷ []))) < 2 ^ 31
few a = elim (Bool-cases (a == 11)) [ inl e ↦ rw e (omega arith) | inr e ↦ rw e (omega arith) ]

-- The address 11 belongs to the mail server.
abbrev answers : Site site two_hosts two_taken named_web (codes "cmdb.org") (10 ∷ 12 ∷ [])
answers = record {
  shown = λ a. two_shown (a % 2 ^ 32);
  owners = λ a. owners_of (argument (two_shown (a % 2 ^ 32)) ∷ []);
  held = λ a. [];
  domain_id = 7;
  server_id = 7;
  zone_id = 7;
  ip_id = 7;
  named = refl;
  shows = λ a. refl;
  domain_row = refl;
  taken_rows = refl;
  owner_rows = λ a. refl;
  few_owners = λ a. few (a % 2 ^ 32);
  server_row = refl;
  ip_row = λ c. refl;
  zone_row = λ c. refl;
  held_rows = λ c a. refl;
  few_held = λ a. omega arith;
}

all_three : (b : ℕ) → 10 ≤ b → b ≤ 12 → member b (10 ∷ 11 ∷ 12 ∷ []) ≡ true
all_three b least most = ground arith

full_pool_example :
    cbc_calculate_build_ip site dotted_text still 1000 100
      (lint 10 ∷ lint 11 ∷ lint 12 ∷ [])
      web
      bounds
    ≡ some (pos 0, lint 10 ∷ lint 11 ∷ lint 12 ∷ [], bounds)
unfolding pool cmdb_add_build_domain_id_to_list
full_pool_example =
    full_pool_succeeds site dotted_text still 1000 100 (lint 10 ∷ lint 11 ∷ lint 12 ∷ []) web bounds
      (codes "cmdb.org") 10 12 10 (11 ∷ 12 ∷ []) refl (omega arith) all_three (omega arith)
