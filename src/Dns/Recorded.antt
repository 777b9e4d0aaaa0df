-- ===== src/Dns/Recorded.antt =====
-- src/zones.c: what `add_host` inserts and `delete_record` deletes, against the statements of lib/queries.c.
use cmdb.Base.{ℕ, ◌≡◌, refl, false, some, [], ◌∷◌, pos, in_order}
use cmdb.Data.{
  Text, codes, same_text, text, lint, DataList, strndup, config_len, cmdb_add_string_to_list,
  cmdb_add_number_to_list, cmdb_populate_cuser_muser,
}
use cmdb.Query.{Database}
use cmdb.Tables.{
  insert_record_base, set_fwd_zone_updated_on_name, insert_record_mx, insert_record_srv,
}
use cmdb.Helper.Count.{set_db_row_updated, cmdb_check_for_fwd_record}
use cmdb.Sql.Insert.{insert_queries}
use cmdb.Sql.Lite.Bind.{values_at}
use cmdb.Sql.Multi.{ailsa_wrong_list_lenght}
use cmdb.Zone.Columns.{Inserts}
use cmdb.Dns.Steps.{CommLine, Changes, got}
use cmdb.Dns.Host.{dnsa_populate_record, zone_id_of, host_row, add_host, doomed, delete_record}

-- A record with neither priority nor service, a mail server, or a service.
pub data Kind : Type 0 where
  plain : Text → Kind
  mx : Kind
  srv : Text → Text → Kind

abbrev pub rtype_of : Kind → Text
rtype_of (plain rtype) = rtype
rtype_of mx = codes "MX"
rtype_of (srv protocol service) = codes "SRV"

abbrev pub IsPlain : Kind → CommLine → Type 0
IsPlain (plain rtype) cm =
    (same_text rtype (codes "MX") ≡ false) × (same_text rtype (codes "SRV") ≡ false)
IsPlain mx cm = Unit {0}
IsPlain (srv protocol service) cm = (cm.protocol ≡ some protocol) × (cm.service ≡ some service)

-- The command line gives a record of this kind.
pub record Gives (cm : CommLine) (kind : Kind) (host dest : Text) : Type 0 where
  pub rtype_given : cm.rtype ≡ some (rtype_of kind)
  pub host_given : cm.host ≡ some host
  pub dest_given : cm.dest ≡ some dest
  pub kind_given : IsPlain kind cm

-- The first 256 bytes of a text, as a value.
abbrev pub cut : Text → DataList → DataList
cut t l = text (strndup t config_len) ∷ l

abbrev pub extras : Kind → ℕ → DataList → DataList
extras (plain rtype) pri l = l
extras mx pri l = lint pri ∷ l
extras (srv protocol service) pri l = lint pri ∷ cut protocol (cut service l)

-- The values of the record in the zone with this identifier.
abbrev pub record_values : ℕ → Kind → Text → Text → ℕ → DataList → DataList
record_values zone kind host dest pri l =
    lint zone ∷ cut (rtype_of kind) (cut host (cut dest (extras kind pri l)))

abbrev pub statement_for : Kind → ℕ
statement_for (plain rtype) = insert_record_base
statement_for mx = insert_record_mx
statement_for (srv protocol service) = insert_record_srv

row_fits :
    (zone : ℕ) (kind : Kind) (host dest : Text) (pri uid : ℕ)
    → Inserts
        (statement_for kind)
        (record_values zone kind host dest pri (lint uid ∷ lint uid ∷ []))
unfolding insert_queries values_at
row_fits zone (plain rtype) host dest pri uid = record {
  query = _;
  listed = refl;
  binds = record { values = _; as_many = refl; typed = refl };
}
row_fits zone mx host dest pri uid = record {
  query = _;
  listed = refl;
  binds = record { values = _; as_many = refl; typed = refl };
}
row_fits zone (srv protocol service) host dest pri uid = record {
  query = _;
  listed = refl;
  binds = record { values = _; as_many = refl; typed = refl };
}

populates :
    (cm : CommLine) (kind : Kind) (host dest : Text) (zone : ℕ)
    → Gives cm kind host dest
    → dnsa_populate_record cm (lint zone ∷ [])
      ≡ (pos 0, record_values zone kind host dest cm.prefix [])
unfolding dnsa_populate_record cmdb_add_string_to_list cmdb_add_number_to_list
populates cm (plain rtype) host dest zone gives =
    rw
      (
        gives.rtype_given, gives.host_given, gives.dest_given, gives.kind_given.0,
        gives.kind_given.1,
      )
      refl
populates cm mx host dest zone gives =
    rw (gives.rtype_given, gives.host_given, gives.dest_given) refl
populates cm (srv protocol service) host dest zone gives =
    rw
      (
        gives.rtype_given, gives.host_given, gives.dest_given, gives.kind_given.0,
        gives.kind_given.1,
      )
      refl

module _ {Cmdb : Type 0} (db : Database Cmdb) (changes : Changes Cmdb) (uid : ℕ) where
  rows :
      (dc : Cmdb) (cm : CommLine) (kind : Kind) (host dest : Text) (zone : ℕ)
      → Gives cm kind host dest
      → zone_id_of db dc cm.domain [] ≡ (pos 0, lint zone ∷ [])
      → cmdb_check_for_fwd_record db
          (some dc)
          (some (record_values zone kind host dest cm.prefix []))
        ≡ pos 0
      → host_row db changes uid dc cm
        ≡ got (
          statement_for kind,
          record_values zone kind host dest cm.prefix (lint uid ∷ lint uid ∷ []),
        )
  unfolding host_row cmdb_populate_cuser_muser
  rows dc cm (plain rtype) host dest zone gives zoned free =
      rw (zoned, populates cm (plain rtype) host dest zone gives, free) refl
  rows dc cm mx host dest zone gives zoned free =
      rw (zoned, populates cm mx host dest zone gives, free) refl
  rows dc cm (srv protocol service) host dest zone gives zoned free =
      rw (zoned, populates cm (srv protocol service) host dest zone gives, free) refl

  -- `add_host` inserts a record that the zone does not have with the statement for its type, of six,
  -- seven or nine places: the row has one value of its type for each place. Behind an insertion that says
  -- 0 the zone is updated by its name, which marks it; the code is that of the last call. The command
  -- line gives the type, the host and the destination, and for SRV the protocol and the service; the zone
  -- is found.
  pub add_host_lem :
      (dc : Cmdb) (cm : CommLine) (kind : Kind) (domain host dest : Text) (zone : ℕ)
      → cm.domain ≡ some domain
      → Gives cm kind host dest
      → zone_id_of db dc cm.domain [] ≡ (pos 0, lint zone ∷ [])
      → cmdb_check_for_fwd_record db
          (some dc)
          (some (record_values zone kind host dest cm.prefix []))
        ≡ pos 0
      → let row = record_values zone kind host dest cm.prefix (lint uid ∷ lint uid ∷ []) in
        let (retval, c) =
          in_order
            (λ c. changes.ailsa_insert_query c (statement_for kind) row)
            ((λ c.
                db.ailsa_update_query c set_fwd_zone_updated_on_name
                  (lint uid ∷ text (strndup domain config_len) ∷ []))
              ∷ [])
            dc in
        (add_host db changes uid (some dc) (some cm) ≡ some (retval, some c))
        × Inserts (statement_for kind) row
  unfolding add_host set_db_row_updated cmdb_add_number_to_list cmdb_add_string_to_list
  add_host_lem dc cm kind domain host dest zone named gives zoned free = (
    rw (rows dc cm kind host dest zone gives zoned free, named) refl,
    row_fits zone kind host dest cm.prefix uid,
  )

  -- A service with the priority 0 cannot be deleted: the list has five values, `delete_record` says
  -- AILSA_WRONG_LIST_LENGHT and nothing changes. The zone is found.
  pub srv_priority_zero :
      (dc : Cmdb) (cm : CommLine) (rtype host protocol service : Text) (zone : ℕ)
      → cm.rtype ≡ some rtype
      → cm.host ≡ some host
      → cm.protocol ≡ some protocol
      → cm.service ≡ some service
      → cm.prefix ≡ 0
      → zone_id_of db dc cm.domain [] ≡ (pos 0, lint zone ∷ [])
      → delete_record db changes uid (some dc) (some cm) ≡ some (ailsa_wrong_list_lenght, some dc)
  unfolding delete_record doomed cmdb_add_string_to_list cmdb_add_number_to_list
  srv_priority_zero dc cm rtype host protocol service zone t h p s zero_given zoned =
      rw (zoned, t, h, p, s, zero_given) refl
