-- ===== src/Dns/Commit.antt =====
-- src/zones.c: the removal of zones, and the commit of zones to the files of the name server.
use cmdb.Base.{
  ℕ, ◌%◌, ◌≡◌, refl, Bool, true, false, Option, none, some, List, [], ◌∷◌, ◌==◌, if◌then◌else◌,
  is_null, ℤ, pos, is_ok, length,
}
use cmdb.Data.{Text, text, DataList, ailsa_no_data}
use cmdb.Data.Partition.{domain_len}
use cmdb.Query.{Database}
use cmdb.Tables.{
  delete_fwd_zone, delete_rev_zone, zone_type_on_name, zone_name_types, rev_zones_net_range,
}
use cmdb.Helper.Several.{forward_zone, reverse_zone, master}
use cmdb.Helper.Check.{cmdb_check_add_zone_id_to_list}
use cmdb.Net.{Inet}
use cmdb.Zone.{Add, string}
use cmdb.Zone.Update.{cmdb_validate_zone}
use cmdb.Dns.Records.{same_start}
use cmdb.Dns.Steps.{
  CommLine, Changes, Got, got, stop, fault, ◌>>=◌, coded, looked_up, still_there, ◌⇛◌, finish,
}

-- A failure of the look-up is no failure of the removal.
abbrev pub forgiven : {A : Type 0} → ℤ × A → Got A
forgiven (retval, a) = if is_ok retval then got a else stop (pos 0)

-- The zones of an answer with their types.
abbrev pub zones_of : DataList → Got (List (Text × Text))
zones_of [] = got []
zones_of (text zone ∷ text type ∷ l) = do zs ← zones_of l; got ((zone, type) ∷ zs)
zones_of _ = fault

-- The zones of an answer with their types and prefixes.
abbrev pub rev_zones_of : DataList → Got (List (Text × Text × Text))
rev_zones_of [] = got []
rev_zones_of (text zone ∷ text type ∷ text prefix ∷ l) = do
  zs ← rev_zones_of l
  got ((zone, type, prefix) ∷ zs)
rev_zones_of _ = fault

abbrev pub nonempty : DataList → Got (Unit {0})
nonempty [] = stop (pos 0)
nonempty (_ ∷ _) = got tt

abbrev pub first_type : DataList → Got Text
first_type [] = stop (pos 0)
first_type (text t ∷ l) = got t
first_type (_ ∷ l) = fault

-- A list that is not of pairs ends the commit with 0.
abbrev pub even : DataList → Got (Unit {0})
even l = if length l % 2 == 0 then got tt else stop (pos 0)

module _ {Cmdb : Type 0} (db : Database Cmdb) (inet : Inet) (changes : Changes Cmdb) where
  -- The identifier of the zone, of the type of the command line, or a master.
  unfoldable pub typed_zone_id : ℕ → Cmdb → CommLine → Add
  typed_zone_id kind dc cm = looked_up (
      cmdb_check_add_zone_id_to_list db cm.domain kind
        (if is_null cm.ztype then some master else cm.ztype) (some dc))

  abbrev pub remove_fwd : Cmdb → DataList → ℤ × Cmdb
  remove_fwd dc z =
      changes.ailsa_delete_query dc delete_fwd_zone z
      ⇛ changes.cmdb_write_fwd_zone_config
      ⇛ changes.reload

  unfoldable pub delete_forward : Option Cmdb → Option CommLine → Option (ℤ × Option Cmdb)
  delete_forward (some dc) (some cm) =
      finish dc (coded (typed_zone_id forward_zone dc cm [])) (remove_fwd dc)
  delete_forward dc _ = some (ailsa_no_data, dc)

  abbrev pub remove_rev : Cmdb → DataList → ℤ × Cmdb
  remove_rev dc z =
      changes.ailsa_delete_query dc delete_rev_zone z
      ⇛ changes.cmdb_write_rev_zone_config
      ⇛ changes.reload

  unfoldable pub delete_reverse_zone : Option Cmdb → Option CommLine → Option (ℤ × Option Cmdb)
  delete_reverse_zone (some dc) (some cm) =
      finish dc (forgiven (typed_zone_id reverse_zone dc cm [])) (remove_rev dc)
  delete_reverse_zone dc _ = some (ailsa_no_data, dc)

  abbrev pub validate : ℕ → Text → Text → ℕ → Cmdb → ℤ × Cmdb
  validate kind zone type prefix c =
      still_there c
        (cmdb_validate_zone db changes.files inet (some c) kind (some zone) (some type) prefix)

  -- The zones are validated one behind the other, whatever the codes are.
  unfoldable pub validate_all : List (Text × Text) → Cmdb → Cmdb
  validate_all [] c = c
  validate_all ((zone, type) ∷ zs) c = validate_all zs (validate forward_zone zone type 0 c).1

  abbrev pub publish_fwd : Cmdb → ℤ × Cmdb
  publish_fwd c = changes.cmdb_write_fwd_zone_config c ⇛ changes.reload

  abbrev pub commit_named : Cmdb → Text → Option (ℤ × Option Cmdb)
  commit_named dc zone =
      finish dc
        (do
          l ← coded (string (some zone) [])
          r ← coded (db.ailsa_argument_query dc zone_type_on_name l)
          first_type r)
        (λ type. validate forward_zone zone type 0 dc ⇛ publish_fwd)

  abbrev pub commit_all : Cmdb → Option (ℤ × Option Cmdb)
  commit_all dc =
      finish dc
        (do
          r ← coded (db.ailsa_basic_query dc zone_name_types)
          _ ← nonempty r
          _ ← even r
          zones_of r)
        (λ zs. publish_fwd (validate_all zs dc))

  unfoldable pub commit_fwd_zones : Option Cmdb → Option Text → Option (ℤ × Option Cmdb)
  commit_fwd_zones none name = some (ailsa_no_data, none)
  commit_fwd_zones (some dc) (some zone) = commit_named dc zone
  commit_fwd_zones (some dc) none = commit_all dc

  -- The zone is named, or all are meant.
  abbrev pub meant : Option Text → Text → Bool
  meant none zone = true
  meant (some name) zone = same_start domain_len name zone

  unfoldable pub validate_reverse : Option Text → List (Text × Text × Text) → Cmdb → Cmdb
  validate_reverse name [] c = c
  validate_reverse name ((zone, type, prefix) ∷ zs) c =
      validate_reverse name zs
        (if meant name zone then (validate reverse_zone zone type (inet.strtoul prefix) c).1 else c)

  unfoldable pub commit_rev_zones : Option Cmdb → Option Text → Option (ℤ × Option Cmdb)
  commit_rev_zones none name = some (ailsa_no_data, none)
  commit_rev_zones (some dc) name =
      finish dc
        (do l ← coded (db.ailsa_basic_query dc rev_zones_net_range); _ ← nonempty l; rev_zones_of l)
        (λ zs. changes.cmdb_write_rev_zone_config (validate_reverse name zs dc) ⇛ changes.reload)

  -- A zone that is not found is not removed, and nothing changes; for a forward zone the code is that of
  -- the look-up, for a reverse zone it is 0, whatever failed.
  pub missing_zone_stays :
      (dc : Cmdb) (cm : CommLine) (code : ℤ) (l : DataList)
      → is_ok code ≡ false
      → typed_zone_id forward_zone dc cm [] ≡ (code, l)
      → typed_zone_id reverse_zone dc cm [] ≡ (code, l)
      → (delete_forward (some dc) (some cm) ≡ some (code, some dc))
        × (delete_reverse_zone (some dc) (some cm) ≡ some (pos 0, some dc))
  unfolding delete_forward delete_reverse_zone
  missing_zone_stays dc cm code l failed fwd rev = (rw (fwd, failed) refl, rw (rev, failed) refl)
