-- ===== src/Zone/Rows.antt =====
-- The rows that a new zone puts into the database.
use cmdb.Base.{
  ℕ, ◌≡◌, refl, ap, ◌∙◌, Option, none, some, [], ◌∷◌, ◌++◌, append_assoc, false, ◌==◌,
  if◌then◌else◌, is_null, pos,
}
use cmdb.Data.{
  Text, lint, DataList, codes, cmdb_add_string_to_list, cmdb_add_number_to_list,
  cmdb_populate_cuser_muser,
}
use cmdb.Helper.Several.{master}
use cmdb.Helper.Default.Answers.{argument}
use cmdb.Net.{get_start_finsh_ips, convert_bin_ipv4_to_text}
use cmdb.Zone.{
  Settings, Outside, Add, ◌⨟◌, string, number, secondary, cuser_muser, net_finish, rev_zone_rest,
  behind_bounds, generate_zone_serial, zone_values, dnsa_populate_zone, dnsa_populate_rev_zone,
}

-- The call succeeds on every list and puts these values behind it.
pub record Adds (m : Add) (vs : DataList) : Type 0 where
  pub on : (list : DataList) → m list ≡ (pos 0, list ++ vs)

infixl 5 ◌⊕◌
pub ◌⊕◌ : {m k : Add} {vs ws : DataList} → Adds m vs → Adds k ws → Adds (m ⨟ k) (vs ++ ws)
◌⊕◌ {m} {k} {vs} {ws} p q = record {
  on = λ list. rw (p.on list) (q.on (list ++ vs) ∙ ap (λ l. (pos 0, l)) (append_assoc list vs ws));
}

pub Adds-string : (t : Text) → Adds (string (some t)) (argument t ∷ [])
unfolding cmdb_add_string_to_list
Adds-string t = record { on = λ list. refl }

pub Adds-number : (n : ℕ) → Adds (number n) (lint n ∷ [])
unfolding cmdb_add_number_to_list
Adds-number n = record { on = λ list. refl }

Adds-cuser_muser : (uid : ℕ) → Adds (cuser_muser uid) (lint uid ∷ lint uid ∷ [])
unfolding cmdb_populate_cuser_muser
Adds-cuser_muser uid = record { on = λ list. refl }

-- The secondary name server of a row.
abbrev pub or_none : Option Text → Text
or_none none = codes "none"
or_none (some secns) = secns

Adds-secondary : (secns : Option Text) → Adds (secondary secns) (argument (or_none secns) ∷ [])
Adds-secondary none = Adds-string (codes "none")
Adds-secondary (some secns) = Adds-string secns

-- The type and the master's address of a zone with a master elsewhere.
abbrev pub kind_type : Option (Text × Text) → Option Text
kind_type none = none
kind_type (some (type, ip)) = some type

abbrev pub kind_master : Option (Text × Text) → Option Text
kind_master none = none
kind_master (some (type, ip)) = some ip

abbrev kind_values : Option (Text × Text) → DataList
kind_values none = argument master ∷ []
kind_values (some (type, ip)) = argument type ∷ argument ip ∷ []

module _ (outside : Outside) (cbs : Settings) (prins : Text) (given : cbs.prins ≡ some prins) where
  -- The row of a forward zone: the master's address only where there is one.
  abbrev pub zone_row : Text → Option (Text × Text) → DataList
  zone_row domain kind =
      argument domain
      ∷ argument prins
      ∷ argument (or_none cbs.secns)
      ∷ lint cbs.refresh
      ∷ lint cbs.retry
      ∷ lint cbs.expire
      ∷ lint cbs.ttl
      ∷ lint (generate_zone_serial outside)
      ∷ (kind_values kind ++ (lint outside.uid ∷ lint outside.uid ∷ []))

  Adds-zone :
      (domain : Text) (kind : Option (Text × Text))
      → Adds
          (zone_values outside cbs domain (kind_type kind) (kind_master kind))
          (zone_row domain kind)
  unfolding zone_values
  Adds-zone domain none = rw given (
      Adds-string domain
      ⊕ Adds-string prins
      ⊕ Adds-secondary cbs.secns
      ⊕ Adds-number cbs.refresh
      ⊕ Adds-number cbs.retry
      ⊕ Adds-number cbs.expire
      ⊕ Adds-number cbs.ttl
      ⊕ Adds-number (generate_zone_serial outside)
      ⊕ Adds-string master
      ⊕ Adds-cuser_muser outside.uid)
  Adds-zone domain (some (type, ip)) = rw given (
      Adds-string domain
      ⊕ Adds-string prins
      ⊕ Adds-secondary cbs.secns
      ⊕ Adds-number cbs.refresh
      ⊕ Adds-number cbs.retry
      ⊕ Adds-number cbs.expire
      ⊕ Adds-number cbs.ttl
      ⊕ Adds-number (generate_zone_serial outside)
      ⊕ (Adds-string type ⊕ Adds-string ip)
      ⊕ Adds-cuser_muser outside.uid)

  -- `dnsa_populate_zone` puts the row of a forward zone behind the list, in the order of the
  -- columns, with "none" for an absent secondary name server, and with the given type and the
  -- master's address, or "master" where the zone has none elsewhere. The primary name server is set.
  pub zone_row_lem :
      (domain : Text) (kind : Option (Text × Text)) (list : DataList)
      → dnsa_populate_zone outside
          (some cbs)
          (some domain)
          (kind_type kind)
          (kind_master kind)
          (some list)
        ≡ (pos 0, some (list ++ zone_row domain kind))
  unfolding dnsa_populate_zone
  zone_row_lem domain kind list = rw ((Adds-zone domain kind).on list) refl

  abbrev slave_values : Option Text → DataList
  slave_values none = argument master ∷ argument (codes "NULL") ∷ []
  slave_values (some ip) = argument (codes "slave") ∷ argument ip ∷ []

  -- The row of a reverse zone, from its bounds and the text of its end.
  abbrev pub rev_zone_row : Text → Option Text → ℕ → ℕ × ℕ → Text → DataList
  rev_zone_row range master_ip prefix (start, finish) finish_text =
      argument range
      ∷ argument (outside.decimal prefix)
      ∷ argument range
      ∷ lint start
      ∷ argument finish_text
      ∷ lint finish
      ∷ argument prins
      ∷ argument (or_none cbs.secns)
      ∷ lint (generate_zone_serial outside)
      ∷ lint cbs.refresh
      ∷ lint cbs.retry
      ∷ lint cbs.expire
      ∷ lint cbs.ttl
      ∷ (slave_values master_ip
          ++ (argument (codes "no") ∷ lint outside.uid ∷ lint outside.uid ∷ []))

  module _ (range : Text) (prefix start finish : ℕ) (finish_text : Text)
      (bounds : get_start_finsh_ips outside.inet (some range) prefix (0, 0)
        ≡ (pos 0, start, finish))
      (shown : convert_bin_ipv4_to_text outside.inet finish ≡ (pos 0, some finish_text)) where
    Adds-net_finish : Adds (net_finish outside finish) (argument finish_text ∷ [])
    Adds-net_finish = record { on = λ list. rw shown ((Adds-string finish_text).on list) }

    Adds-slave :
        (master_ip : Option Text)
        → Adds
            (if is_null master_ip
              then (string (some master) ⨟ string (some (codes "NULL")))
              else (string (some (codes "slave")) ⨟ string master_ip))
            (slave_values master_ip)
    Adds-slave none = Adds-string master ⊕ Adds-string (codes "NULL")
    Adds-slave (some ip) = Adds-string (codes "slave") ⊕ Adds-string ip

    Adds-rest :
        (master_ip : Option Text)
        → Adds (rev_zone_rest outside cbs master_ip (start, finish)) (
            lint start
            ∷ argument finish_text
            ∷ lint finish
            ∷ argument prins
            ∷ argument (or_none cbs.secns)
            ∷ lint (generate_zone_serial outside)
            ∷ lint cbs.refresh
            ∷ lint cbs.retry
            ∷ lint cbs.expire
            ∷ lint cbs.ttl
            ∷ (slave_values master_ip
                ++ (argument (codes "no") ∷ lint outside.uid ∷ lint outside.uid ∷ [])))
    Adds-rest none = rw given (
        Adds-number start
        ⊕ Adds-net_finish
        ⊕ Adds-number finish
        ⊕ Adds-string prins
        ⊕ Adds-secondary cbs.secns
        ⊕ Adds-number (generate_zone_serial outside)
        ⊕ Adds-number cbs.refresh
        ⊕ Adds-number cbs.retry
        ⊕ Adds-number cbs.expire
        ⊕ Adds-number cbs.ttl
        ⊕ Adds-slave none
        ⊕ Adds-string (codes "no")
        ⊕ Adds-cuser_muser outside.uid)
    Adds-rest (some ip) = rw given (
        Adds-number start
        ⊕ Adds-net_finish
        ⊕ Adds-number finish
        ⊕ Adds-string prins
        ⊕ Adds-secondary cbs.secns
        ⊕ Adds-number (generate_zone_serial outside)
        ⊕ Adds-number cbs.refresh
        ⊕ Adds-number cbs.retry
        ⊕ Adds-number cbs.expire
        ⊕ Adds-number cbs.ttl
        ⊕ Adds-slave (some ip)
        ⊕ Adds-string (codes "no")
        ⊕ Adds-cuser_muser outside.uid)

    Adds-bounds :
        (master_ip : Option Text) (vs : DataList)
        → Adds (rev_zone_rest outside cbs master_ip (start, finish)) vs
        → Adds (behind_bounds outside cbs range master_ip prefix) vs
    Adds-bounds master_ip vs rest = record { on = λ list. rw bounds (rest.on list) }

    -- `dnsa_populate_rev_zone` puts the row of a reverse zone behind the list, in the order of the
    -- columns: the range, its prefix, its bounds as texts and as numbers, the settings, "slave" and
    -- the master's address or "master" and "NULL", and "no" as the mark of a zone not yet valid.
    -- The primary name server is set, the prefix is not 0, the range has these bounds, and its end
    -- this text.
    pub rev_zone_row_lem :
        (master_ip : Option Text) (list : DataList)
        → (prefix == 0) ≡ false
        → dnsa_populate_rev_zone outside (some cbs) (some range) master_ip prefix (some list)
          ≡ (pos 0, some (list ++ rev_zone_row range master_ip prefix (start, finish) finish_text))
    unfolding dnsa_populate_rev_zone
    rev_zone_row_lem master_ip list n =
        rw
          (
            n,
            (Adds-string range
                  ⊕ Adds-string (outside.decimal prefix)
                  ⊕ Adds-string range
                  ⊕ Adds-bounds master_ip _ (Adds-rest master_ip)).on
                list,
          )
          refl
