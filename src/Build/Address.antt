-- ===== src/Build/Address.antt =====
-- src/createbuild.c, in a build with HAVE_DNSA: the choice of an address for a build, its row and its
-- record in the DNS.
use cmdb.Base.{
  ℕ, zero, suc, ◌+◌, ◌%◌, ◌^◌, Bool, true, false, ◌&&◌, Option, none, some, List, [], ◌∷◌, ◌++◌,
  ◌==◌, if◌then◌else◌, ltb, ℤ, pos, negsuc, minus_one, is_ok, length, int_of_size,
}
use cmdb.Data.{Text, codes, text, lint, DataList, ailsa_no_data}
use cmdb.Data.Partition.{domain_len}
use cmdb.Query.{Database}
use cmdb.Tables.{
  build_ip_on_build_domain_id, default_domain_details, a_records_with_ip, insert_build_ip,
  insert_record_base, set_fwd_zone_updated,
}
use cmdb.Helper.Default.{cmdb_add_build_domain_id_to_list}
use cmdb.Helper.Lookup.{cmdb_add_ip_id_to_list}
use cmdb.Helper.Several.{forward_zone, master}
use cmdb.Helper.Check.{cmdb_check_add_zone_id_to_list, cmdb_check_add_server_id_to_list}
use cmdb.Helper.Count.{cmdb_check_for_fwd_record}
use cmdb.Net.{Inet}
use cmdb.Sql.Lite.{is_positive}
use cmdb.Sql.Multi.{ailsa_wrong_list_lenght}
use cmdb.Zone.{string, number, cuser_muser, ◌⨟◌}
use cmdb.Dns.Records.{host_len, same_start}
use cmdb.Dns.Steps.{Changes, Got, got, stop, fault, ◌>>=◌, coded, looked_up, ◌⇛◌}

-- The fields of `cbc_comm_line_s` that are read here. The name is required of the command line.
pub record BuildLine : Type 0 where
  pub name : Text
  pub build_domain : Option Text

abbrev pub is_negative : ℤ → Bool
is_negative (pos n) = false
is_negative (negsuc n) = true

-- What the search for an address comes to.
pub data Found : Type 0 where
  address : ℕ → Found
  given_up : ℤ → Found
  no_fuel : Found
  broken : Found

-- What the body of the loop says: begin again with the next address, look at the next one that is
-- taken, or go to `cleanup`.
pub data Turn : Type 0 where
  again : ℤ → Turn
  onward : ℤ → Turn
  halt : ℤ → Turn
  crash : Turn

-- `cbc_check_ip_in_dns` is called behind the last address that is taken.
abbrev pub dns_turn : Option ℤ → Turn
dns_turn none = crash
dns_turn (some retval) =
    if is_positive retval
    then again retval
    else if is_negative retval
    then halt retval
    else onward retval

abbrev pub turn : (ℕ → Option ℤ) → ℕ → ℕ → ℕ → List ℕ → ℤ → Turn
turn dns ip lip bip [] retval =
    if ltb lip ip then halt retval else if bip == ip then again retval else dns_turn (dns ip)
turn dns ip lip bip (_ ∷ _) retval =
    if ltb lip ip then halt retval else if bip == ip then again retval else onward retval

abbrev pub follow : Turn → (ℤ → Found) → (ℤ → Found) → Found
follow (again retval) restart next = restart retval
follow (onward retval) restart next = next retval
follow (halt retval) restart next = given_up retval
follow crash restart next = broken

-- `while (e)`, over the addresses that are taken.
unfoldable pub search_ip : (ℕ → Option ℤ) → List ℕ → ℕ → ℕ → ℕ → List ℕ → ℤ → Found
search_ip dns all lip zero ip rest retval = no_fuel
search_ip dns all lip (suc fuel) ip [] retval = address ip
search_ip dns all lip (suc fuel) ip (bip ∷ rest) retval =
    follow (turn dns ip lip bip rest retval)
      (λ code. search_ip dns all lip fuel ((ip + 1) % 2 ^ 64) all code)
      (λ code. search_ip dns all lip fuel ip rest code)

-- Every taken address is a number.
abbrev pub numbers : DataList → Got (List ℕ)
numbers [] = got []
numbers (lint n ∷ l) = do ns ← numbers l; got (n ∷ ns)
numbers (_ ∷ l) = fault

-- The two records of a host that has this address already: its name and the name of its zone.
abbrev pub own_record : Text → Text → DataList → Option Bool
own_record host domain (text h ∷ text z ∷ []) =
    some (same_start host_len host h && same_start domain_len domain z)
own_record host domain (_ ∷ _ ∷ []) = none
own_record host domain _ = some false

abbrev pub dns_count : Option Bool → DataList → Option ℤ
dns_count none r = none
dns_count (some own) r = some (if own then pos 0 else int_of_size (length r))

abbrev pub dns_answer : Text → Text → ℤ × DataList → Option ℤ
dns_answer host domain (retval, r) =
    if is_ok retval then dns_count (own_record host domain r) r else some minus_one

abbrev pub first_domain : DataList → Got Text
first_domain (text t ∷ l) = got t
first_domain _ = fault

-- The bounds of the build domain: the second and the third value.
abbrev pub bounds_of : DataList → Got (ℕ × ℕ)
bounds_of (d ∷ lint ip ∷ lint lip ∷ l) = got (ip, lip)
bounds_of _ = fault

-- The name on the command line, else the default.
abbrev pub or_else_text : Text → Option Text → Text
or_else_text default none = default
or_else_text default (some t) = t

module _ {Cmdb : Type 0} (db : Database Cmdb) (inet : Inet) where
  abbrev pub dns_text : Cmdb → Text → Text → Option Text → Option ℤ
  dns_text cbt domain host none = some minus_one
  dns_text cbt domain host (some ip_addr) =
      let (retval, l) = string (some ip_addr) [] in
      if is_ok retval
      then dns_answer host domain (db.ailsa_argument_query cbt a_records_with_ip l)
      else some minus_one

  unfoldable pub cbc_check_ip_in_dns : Option Cmdb → Option Text → Text → ℕ → Option ℤ
  cbc_check_ip_in_dns (some cbt) (some domain) host ip =
      if ip == 0 then some ailsa_no_data else dns_text cbt domain host (inet.ntop (ip % 2 ^ 32))
  cbc_check_ip_in_dns cbt _ host ip = some ailsa_no_data

  module _ (changes : Changes Cmdb) (uid : ℕ) where
    abbrev pub domain_name : Cmdb → Option Text → DataList → ℤ × DataList
    domain_name cbt none l =
        let (retval, rows) = db.ailsa_basic_query cbt default_domain_details in (retval, l ++ rows)
    domain_name cbt (some domain) l = string (some domain) l

    unfoldable pub cbc_add_ip_to_build : Cmdb → BuildLine → ℕ → ℤ × Cmdb
    cbc_add_ip_to_build cbt cml ip =
        let (retval, l) =
          (number ip
              ⨟ string (some cml.name)
              ⨟ domain_name cbt cml.build_domain
              ⨟ looked_up (cmdb_add_build_domain_id_to_list db cml.build_domain (some cbt))
              ⨟ looked_up (cmdb_check_add_server_id_to_list db (some cml.name) (some cbt))
              ⨟ cuser_muser uid)
            [] in
        if ip == 0
        then (ailsa_no_data, cbt)
        else if is_ok retval
        then changes.ailsa_insert_query cbt insert_build_ip l
        else (retval, cbt)

    -- The zone of the domain gets its mark.
    abbrev pub zone_updated : Text → Cmdb → ℤ × Cmdb
    zone_updated domain c =
        let (retval, zone) =
          (number uid
              ⨟ looked_up (
                  cmdb_check_add_zone_id_to_list db (some domain) forward_zone (some master)
                    (some c)))
            [] in
        if is_ok retval then db.ailsa_update_query c set_fwd_zone_updated zone else (retval, c)

    -- By what the test for the record says.
    abbrev pub new_record : Text → Cmdb → ℤ → DataList → ℤ × Cmdb
    new_record domain cbt count rec =
        if is_negative count
        then (count, cbt)
        else if is_positive count
        then (pos 0, cbt)
        else let (retval, l) = cuser_muser uid rec in
          if is_ok retval
          then changes.ailsa_insert_query cbt insert_record_base l ⇛ zone_updated domain
          else (retval, cbt)

    -- Where the address cannot be printed the code is still 0.
    abbrev pub with_address : Text → Cmdb → DataList → Option Text → ℤ × Cmdb
    with_address domain cbt rec none = (pos 0, cbt)
    with_address domain cbt rec (some ip_addr) =
        let (retval, l) = string (some ip_addr) rec in
        if is_ok retval
        then (if length l == 4
            then new_record domain cbt (cmdb_check_for_fwd_record db (some cbt) (some l)) l
            else (ailsa_wrong_list_lenght, cbt))
        else (retval, cbt)

    unfoldable pub cbc_add_host_to_dns : Cmdb → Text → Text → ℕ → ℤ × Cmdb
    cbc_add_host_to_dns cbt domain host ip =
        let (retval, rec) =
          (looked_up (
                cmdb_check_add_zone_id_to_list db (some domain) forward_zone (some master)
                  (some cbt))
              ⨟ string (some (codes "A"))
              ⨟ string (some host))
            [] in
        if ip == 0
        then (ailsa_no_data, cbt)
        else if is_ok retval
        then with_address domain cbt rec (inet.ntop (ip % 2 ^ 32))
        else (retval, cbt)

    -- The row of the address, its identifier behind the values of the caller, and the record.
    abbrev pub assigned : Cmdb → BuildLine → Text → DataList → ℕ → ℤ × Cmdb × DataList
    assigned cbt cml domain bdom ip =
        let (retval, c) = cbc_add_ip_to_build cbt cml ip in
        let (code, l) = looked_up (cmdb_add_ip_id_to_list db (some cml.name) (some c)) bdom in
        let (last, d) = cbc_add_host_to_dns c domain cml.name ip in
        if is_ok retval
        then (if is_ok code then (last, d, l) else (code, c, l))
        else (retval, c, bdom)

    -- `none` is a fault, or no fuel.
    abbrev pub by_search : Cmdb → BuildLine → Text → DataList → Found → Option (ℤ × Cmdb × DataList)
    by_search cbt cml domain bdom (address ip) = some (assigned cbt cml domain bdom ip)
    by_search cbt cml domain bdom (given_up retval) = some (retval, cbt, bdom)
    by_search cbt cml domain bdom no_fuel = none
    by_search cbt cml domain bdom broken = none

    -- The name of the domain, its bounds, and the addresses that are taken.
    unfoldable pub pool : Cmdb → BuildLine → DataList → Got (Text × ℕ × ℕ × List ℕ)
    pool cbt cml bdom = do
      bounds ← bounds_of bdom
      l ← coded (looked_up (cmdb_add_build_domain_id_to_list db cml.build_domain (some cbt)) [])
      r ← coded (db.ailsa_argument_query cbt build_ip_on_build_domain_id l)
      names ← coded (domain_name cbt cml.build_domain [])
      named ← first_domain names
      ips ← numbers r
      got (or_else_text named cml.build_domain, bounds.0, bounds.1, ips)

    abbrev pub searched :
        ℕ → Cmdb → BuildLine → DataList → Got (Text × ℕ × ℕ × List ℕ) → Option (ℤ × Cmdb × DataList)
    searched fuel cbt cml bdom (got (domain, ip, lip, ips)) = by_search cbt cml domain bdom (
        search_ip (cbc_check_ip_in_dns (some cbt) (some domain) cml.name) ips lip fuel ip ips
          (pos 0))
    searched fuel cbt cml bdom (stop retval) = some (retval, cbt, bdom)
    searched fuel cbt cml bdom fault = none

    unfoldable pub cbc_calculate_build_ip :
        ℕ → Cmdb → BuildLine → DataList → Option (ℤ × Cmdb × DataList)
    cbc_calculate_build_ip fuel cbt cml bdom = searched fuel cbt cml bdom (pool cbt cml bdom)
