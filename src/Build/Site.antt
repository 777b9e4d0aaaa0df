-- ===== src/Build/Site.antt =====
-- src/createbuild.c: what the database answers for a build, and what the choice of its address comes to
-- then.
use cmdb.Base.{
  ℕ, zero, suc, ◌%◌, ◌^◌, ◌<◌, ◌≡◌, refl, ap, Bool, not, ◌&&◌, ◌||◌, Bool-cases, inl, inr, true,
  false, some, List, [], ◌∷◌, ◌++◌, ◌==◌, if◌then◌else◌, ℤ, pos, is_ok, int_of_size_small, length,
  in_order, arith,
}
use cmdb.Data.{
  Text, DataList, codes, text, lint, ailsa_no_data, cmdb_add_string_to_list,
  cmdb_add_number_to_list, cmdb_populate_cuser_muser,
}
use cmdb.Query.{Database}
use cmdb.Tables.{
  build_domain_id_on_domain, build_ip_on_build_domain_id, server_id_on_name, ip_id_on_server_name,
  fwd_zone_id_on_zone_name, record_id_base, a_records_with_ip, insert_build_ip, insert_record_base,
  set_fwd_zone_updated,
}
use cmdb.Helper.Default.Answers.{argument}
use cmdb.Helper.Default.{cmdb_add_build_domain_id_to_list}
use cmdb.Helper.Lookup.{cmdb_add_ip_id_to_list, cmdb_add_server_id_to_list}
use cmdb.Helper.Several.{master, cmdb_add_zone_id_to_list}
use cmdb.Helper.Check.{cmdb_check_add_zone_id_to_list, cmdb_check_add_server_id_to_list}
use cmdb.Helper.Count.{cmdb_check_for_fwd_record}
use cmdb.Net.{Inet}
use cmdb.Dns.Records.{same_start}
use cmdb.Sql.Lite.{is_positive}
use cmdb.Dns.Steps.{Changes, got, ◌⇛◌}
use cmdb.Build.Search.{member, taken}
use cmdb.Build.Address.{
  BuildLine, numbers, dns_answer, cbc_check_ip_in_dns, cbc_add_ip_to_build, cbc_add_host_to_dns,
  assigned, pool, zone_updated, is_negative,
}

-- The host and the zone of a record.
abbrev pub Owner : Type 0
Owner = Text × Text

abbrev pub owner_values : List Owner → DataList
owner_values [] = []
owner_values ((host, zone) ∷ owners) = text host ∷ text zone ∷ owner_values owners

abbrev pub address_values : List ℕ → DataList
address_values [] = []
address_values (a ∷ as') = lint a ∷ address_values as'

-- The address is that of another host, or of several.
abbrev pub is_foreign : Text → Text → List Owner → Bool
is_foreign host domain [] = false
is_foreign host domain ((h, z) ∷ []) = not (same_start 64 host h && same_start 256 domain z)
is_foreign host domain (o ∷ p ∷ owners) = true

-- The build has a name, a domain and a server; the DNS has a zone for the domain. `owners` are the records in
-- the DNS for an address, `held` what it has for the host itself.
pub record Site {Cmdb : Type 0} (db : Database Cmdb) (inet : Inet) (cbt : Cmdb) (cml : BuildLine)
    (domain : Text) (all : List ℕ) : Type 0 where
  pub shown : ℕ → Text
  pub owners : ℕ → List Owner
  pub held : ℕ → DataList
  pub domain_id : ℕ
  pub server_id : ℕ
  pub zone_id : ℕ
  pub ip_id : ℕ
  pub named : cml.build_domain ≡ some domain
  pub shows : (a : ℕ) → inet.ntop (a % 2 ^ 32) ≡ some (shown a)
  pub domain_row :
      db.ailsa_argument_query cbt build_domain_id_on_domain (argument domain ∷ [])
      ≡ (pos 0, lint domain_id ∷ [])
  pub taken_rows :
      db.ailsa_argument_query cbt build_ip_on_build_domain_id (lint domain_id ∷ [])
      ≡ (pos 0, address_values all)
  pub owner_rows :
      (a : ℕ)
      → db.ailsa_argument_query cbt a_records_with_ip (argument (shown a) ∷ [])
        ≡ (pos 0, owner_values (owners a))
  pub few_owners : (a : ℕ) → length (owner_values (owners a)) < 2 ^ 31
  pub server_row :
      db.ailsa_argument_query cbt server_id_on_name (argument cml.name ∷ [])
      ≡ (pos 0, lint server_id ∷ [])
  pub ip_row :
      (c : Cmdb)
      → db.ailsa_argument_query c ip_id_on_server_name (argument cml.name ∷ [])
        ≡ (pos 0, lint ip_id ∷ [])
  pub zone_row :
      (c : Cmdb)
      → db.ailsa_argument_query c fwd_zone_id_on_zone_name (argument domain ∷ argument master ∷ [])
        ≡ (pos 0, lint zone_id ∷ [])
  pub held_rows :
      (c : Cmdb) (a : ℕ)
      → db.ailsa_argument_query c record_id_base
          (lint zone_id ∷ text (codes "A") ∷ argument cml.name ∷ argument (shown a) ∷ [])
        ≡ (pos 0, held a)
  pub few_held : (a : ℕ) → length (held a) < 2 ^ 31

module _ {Cmdb : Type 0} (db : Database Cmdb) (inet : Inet) (changes : Changes Cmdb) (uid : ℕ)
    (cbt : Cmdb) (cml : BuildLine) (domain : Text) (all : List ℕ)
    (site : Site db inet cbt cml domain all) where
  -- The record of the address and the mark of the zone, where the DNS does not have the record.
  abbrev pub recorded : ℕ → Cmdb → ℤ × Cmdb
  recorded a c =
      if length (site.held a) == 0
      then in_order
          (λ c. changes.ailsa_insert_query c insert_record_base (
            lint site.zone_id
            ∷ text (codes "A")
            ∷ argument cml.name
            ∷ argument (site.shown a)
            ∷ lint uid
            ∷ lint uid
            ∷ []))
          ((λ c. db.ailsa_update_query c set_fwd_zone_updated (lint uid ∷ lint site.zone_id ∷ []))
            ∷ [])
          c
      else (pos 0, c)

  abbrev pub given_row : ℕ → ℤ × Cmdb
  given_row a = changes.ailsa_insert_query cbt insert_build_ip (
      lint a
      ∷ argument cml.name
      ∷ argument domain
      ∷ lint site.domain_id
      ∷ lint site.server_id
      ∷ lint uid
      ∷ lint uid
      ∷ [])

  -- The row of the address, then the record; the identifier of the row goes behind what the caller has.
  abbrev pub given_address : ℕ → DataList → ℤ × Cmdb × DataList
  given_address a bdom =
      let (retval, c) = given_row a in
      let (code, d) = recorded a c in
      if is_ok retval then (code, d, bdom ++ (lint site.ip_id ∷ [])) else (retval, c, bdom)

  numbers_lem : (l : List ℕ) → numbers (address_values l) ≡ got l
  numbers_lem [] = refl
  numbers_lem (a ∷ l) = rw (numbers_lem l) refl

  pub pool_lem :
      (d : ℕ) (ip lip : ℕ) (more : DataList)
      → pool db inet changes uid cbt cml (lint d ∷ lint ip ∷ lint lip ∷ more)
        ≡ got (domain, ip, lip, all)
  unfolding pool cmdb_add_build_domain_id_to_list cmdb_add_string_to_list
  pool_lem d ip lip more = rw (site.named, site.domain_row, site.taken_rows, numbers_lem all) refl

  added_row : (a : ℕ) → 0 < a → cbc_add_ip_to_build db inet changes uid cbt cml a ≡ given_row a
  unfolding cbc_add_ip_to_build cmdb_add_build_domain_id_to_list cmdb_add_string_to_list
      cmdb_add_number_to_list cmdb_populate_cuser_muser cmdb_check_add_server_id_to_list
      cmdb_add_server_id_to_list
  added_row a positive =
      let some_one : (a == 0) ≡ false = ground (arith, positive) in
      rw (site.named, site.domain_row, site.server_row, some_one) refl

  marks :
      (c : Cmdb)
      → zone_updated db inet changes uid domain c
        ≡ db.ailsa_update_query c set_fwd_zone_updated (lint uid ∷ lint site.zone_id ∷ [])
  unfolding cmdb_check_add_zone_id_to_list cmdb_add_zone_id_to_list cmdb_add_string_to_list
      cmdb_add_number_to_list
  marks c = rw (site.zone_row c) refl

  chain :
      (m : ℤ × Cmdb)
      → (m ⇛ zone_updated db inet changes uid domain) ≡ (
          if is_ok m.0
          then db.ailsa_update_query m.1 set_fwd_zone_updated (lint uid ∷ lint site.zone_id ∷ [])
          else m)
  chain m = elim (Bool-cases (is_ok m.0)) [ inl e ↦ rw e (marks m.1) | inr e ↦ rw e refl ]

  positive_length : (n : ℕ) → is_positive (pos n) ≡ not (n == 0)
  positive_length zero = refl
  positive_length (suc n) = ground arith

  added_record :
      (a : ℕ) (c : Cmdb)
      → 0 < a
      → cbc_add_host_to_dns db inet changes uid c domain cml.name a ≡ recorded a c
  unfolding cbc_add_host_to_dns cmdb_check_add_zone_id_to_list cmdb_add_zone_id_to_list
      cmdb_add_string_to_list cmdb_add_number_to_list cmdb_populate_cuser_muser
      cmdb_check_for_fwd_record
  added_record a c positive =
      let some_one : (a == 0) ≡ false = ground (arith, positive) in
      rw
        (
          site.zone_row c,
          some_one,
          site.shows a,
          site.held_rows c a,
          int_of_size_small (length (site.held a)) (site.few_held a),
          positive_length (length (site.held a)),
        )
        (elim (Bool-cases (length (site.held a) == 0)) [
          | inr e ↦ rw e refl
          | inl e ↦ rw e (
              chain (
                changes.ailsa_insert_query c insert_record_base (
                  lint site.zone_id
                  ∷ text (codes "A")
                  ∷ argument cml.name
                  ∷ argument (site.shown a)
                  ∷ lint uid
                  ∷ lint uid
                  ∷ [])))
        ])

  -- What is assigned, for an address other than 0.
  pub assigned_lem :
      (a : ℕ) (bdom : DataList)
      → 0 < a
      → assigned db inet changes uid cbt cml domain bdom a ≡ given_address a bdom
  unfolding cmdb_add_ip_id_to_list cmdb_add_string_to_list
  assigned_lem a bdom positive =
      let c = (given_row a).1 in
      rw (added_row a positive, site.ip_row c, added_record a c positive) refl

  -- What the DNS says of an address.
  abbrev pub says : ℕ → ℤ
  says a =
      if a == 0
      then ailsa_no_data
      else if is_foreign cml.name domain (site.owners a)
      then pos (length (owner_values (site.owners a)))
      else pos 0

  answer_lem :
      (os : List Owner)
      → length (owner_values os) < 2 ^ 31
      → dns_answer cml.name domain (pos 0, owner_values os)
        ≡ some (if is_foreign cml.name domain os then pos (length (owner_values os)) else pos 0)
  answer_lem [] few = refl
  answer_lem ((h, z) ∷ []) few =
      elim (Bool-cases (same_start 64 cml.name h && same_start 256 domain z)) [
        | inl e ↦ rw e refl
        | inr e ↦ rw e refl
      ]
  answer_lem ((h, z) ∷ (i, w) ∷ os) few = ap some (int_of_size_small _ few)

  pub dns_lem :
      (a : ℕ) → cbc_check_ip_in_dns db inet (some cbt) (some domain) cml.name a ≡ some (says a)
  unfolding cbc_check_ip_in_dns cmdb_add_string_to_list
  dns_lem a = elim (Bool-cases (a == 0)) [
    | inl e ↦ rw e refl
    | inr e ↦
        rw (e, site.shows a, site.owner_rows a) (answer_lem (site.owners a) (site.few_owners a))
  ]

  -- The address belongs to a build, or to another host.
  abbrev pub in_use : ℕ → Bool
  in_use a = member a all || is_foreign cml.name domain (site.owners a)

  foreign_some :
      (os : List Owner)
      → is_positive
          (if is_foreign cml.name domain os then pos (length (owner_values os)) else pos 0)
        ≡ is_foreign cml.name domain os
  foreign_some [] = refl
  foreign_some ((h, z) ∷ []) =
      elim (Bool-cases (same_start 64 cml.name h && same_start 256 domain z)) [
        | inl e ↦ rw e refl
        | inr e ↦ rw e refl
      ]
  foreign_some ((h, z) ∷ (i, w) ∷ os) = refl

  pub taken-in_use : (lip a : ℕ) → 0 < a → taken says all lip a ≡ in_use a
  taken-in_use lip a positive =
      let some_one : (a == 0) ≡ false = ground (arith, positive) in
      rw (some_one, foreign_some (site.owners a)) refl

  pub never_negative : (a : ℕ) → is_negative (says a) ≡ false
  never_negative a = elim (Bool-cases (a == 0)) [
    | inl e ↦ rw e refl
    | inr e ↦ elim (Bool-cases (is_foreign cml.name domain (site.owners a))) [
      | inl f ↦ rw (e, f) refl
      | inr f ↦ rw (e, f) refl
    ]
  ]
