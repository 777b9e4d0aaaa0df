-- ===== src/Zone/Update.antt =====
-- lib/dnsa_net.c: the serial numbers of zones whose records have changed, and the validation of zones.
-- `none` is a list with a value of another kind, or none, where the code reads one.
use cmdb.Base.{
  ℕ, zero, suc, ◌+◌, ◌%◌, ◌^◌, Bool, true, false, Option, none, some, [], ◌∷◌, ◌==◌, if◌then◌else◌,
  leb, ℤ, pos, is_ok, length, take,
}
use cmdb.Data.{Text, codes, same_text, DataList, text, lint, ailsa_no_data}
use cmdb.Query.{Database}
use cmdb.Tables.{
  fwd_zone_serial_update, rev_zone_serial_update, fwd_zone_validate, rev_zone_validate,
}
use cmdb.Helper.Several.{forward_zone, reverse_zone, ailsa_wrong_zone_type}
use cmdb.Net.{Inet, or_old, get_zone_index, get_offset_ip}
use cmdb.Sql.Multi.{ailsa_wrong_list_lenght}
use cmdb.Zone.{Outside, string, number, ◌⨟◌, generate_zone_serial}

-- The serial number of the day, or the next one where it is not above the old one; `++` of 64 bits.
unfoldable pub next_serial : Outside → ℕ → ℕ
next_serial outside old =
    let serial = generate_zone_serial outside in
    if leb serial old then (old + 1) % 2 ^ 64 else serial

abbrev pub byte_len : ℕ
byte_len = 8

-- `ztype` is given, and `strncmp(ztype, "slave", BYTE_LEN) == 0`
abbrev pub is_slave : Option Text → Bool
is_slave none = false
is_slave (some ztype) = same_text (take byte_len ztype) (codes "slave")

-- The files of zones: what writes one, and `cmdb_check_zone`, which runs the checking program.
pub record Files (Cmdb : Type 0) : Type 0 where
  pub write_fwd_zone_file : Cmdb → Text → ℤ × Cmdb
  pub write_rev_zone_file : Cmdb → Text → ℕ → ℕ → ℤ × Cmdb
  pub cmdb_check_zone : Cmdb → Text → ℤ × Cmdb

-- How the pieces of a reverse zone are judged.
pub data Verdict (Cmdb : Type 0) : Type 0 where
  failed : ℤ → Cmdb → Verdict Cmdb
  judged : Bool → Cmdb → Verdict Cmdb

module _ {Cmdb : Type 0} (db : Database Cmdb) where
  -- The update with the serial number and the name of the zone, and the list that the caller sees.
  abbrev pub serial_update : Cmdb → ℕ → ℕ → Text → DataList → Option (ℤ × Cmdb × DataList)
  serial_update cbs query serial zone list =
      let (retval, s) = (number serial ⨟ string (some zone)) [] in
      let (code, c) = db.ailsa_update_query cbs query s in
      some (if is_ok retval then (code, c, list) else (retval, cbs, list))

  -- The list of a forward zone has its serial number second and its mark sixth.
  abbrev pub forward_update : Outside → Cmdb → Text → DataList → Option (ℤ × Cmdb × DataList)
  forward_update outside cbs zone (a ∷ lint old ∷ b ∷ c ∷ d ∷ text updated ∷ rest) =
      let serial = next_serial outside old in
      if same_text (codes "yes") updated
      then serial_update cbs fwd_zone_serial_update serial zone
          (a ∷ lint serial ∷ b ∷ c ∷ d ∷ text updated ∷ rest)
      else some (pos 0, cbs, a ∷ lint old ∷ b ∷ c ∷ d ∷ text updated ∷ rest)
  forward_update outside cbs zone list = none

  unfoldable pub ailsa_check_for_zone_update :
      Outside → Cmdb → DataList → Text → Option (ℤ × Cmdb × DataList)
  ailsa_check_for_zone_update outside cbs l zone =
      if length l % 6 == 0
      then forward_update outside cbs zone l
      else some (ailsa_wrong_list_lenght, cbs, l)

  -- That of a reverse zone has its serial number fourth and its mark eighth.
  abbrev pub reverse_update : Outside → Cmdb → Text → DataList → Option (ℤ × Cmdb × DataList)
  reverse_update outside cbs zone (a ∷ b ∷ c ∷ lint old ∷ d ∷ e ∷ f ∷ text updated ∷ rest) =
      let serial = next_serial outside old in
      if same_text (codes "yes") updated
      then serial_update cbs rev_zone_serial_update serial zone
          (a ∷ b ∷ c ∷ lint serial ∷ d ∷ e ∷ f ∷ text updated ∷ rest)
      else some (pos 0, cbs, a ∷ b ∷ c ∷ lint old ∷ d ∷ e ∷ f ∷ text updated ∷ rest)
  reverse_update outside cbs zone list = none

  unfoldable pub ailsa_check_for_rev_zone_update :
      Outside → Cmdb → DataList → Text → Option (ℤ × Cmdb × DataList)
  ailsa_check_for_rev_zone_update outside cbs l zone =
      if length l % 8 == 0
      then reverse_update outside cbs zone l
      else some (ailsa_wrong_list_lenght, cbs, l)

  -- From the label `validate` on: the mark, and the name of the zone.
  abbrev pub marked : Cmdb → ℕ → Bool → Text → ℤ × Cmdb
  marked cbc query valid zone =
      let (retval, l) =
        (string (some (if valid then codes "yes" else codes "no")) ⨟ string (some zone)) [] in
      if is_ok retval then db.ailsa_update_query cbc query l else (retval, cbc)

  module _ (files : Files Cmdb) where
    abbrev pub checked : ℕ → Text → ℤ × Cmdb → ℤ × Cmdb
    checked query zone (retval, c) = marked c query (is_ok retval) zone

    abbrev pub written : ℤ × Cmdb → (Cmdb → ℤ × Cmdb) → ℤ × Cmdb
    written (retval, c) k = if is_ok retval then k c else (retval, c)

    unfoldable pub cmdb_validate_fwd_zone :
        Option Cmdb → Option Text → Option Text → ℤ × Option Cmdb
    cmdb_validate_fwd_zone (some cbc) (some zone) ztype =
        let (retval, c) =
          if is_slave ztype
          then marked cbc fwd_zone_validate true zone
          else written (files.write_fwd_zone_file cbc zone)
              λ c. checked fwd_zone_validate zone (files.cmdb_check_zone c zone) in
        (retval, some c)
    cmdb_validate_fwd_zone cbc _ ztype = (ailsa_no_data, cbc)

    -- The loop over the pieces of the zone, with the rounds left.
    unfoldable pub piece_rounds : Inet → Text → ℕ → ℕ → ℕ → Cmdb → Verdict Cmdb
    piece_rounds inet zone prefix zero i cbc = judged true cbc
    piece_rounds inet zone prefix (suc left) i cbc =
        let (retval, addr) = get_offset_ip inet (some zone) prefix i in
        let (code, c) = files.write_rev_zone_file cbc zone prefix i in
        let (verdict, d) = files.cmdb_check_zone c (or_old [] addr) in
        let rest = piece_rounds inet zone prefix left (suc i) d in
        if is_ok retval
        then (if is_ok code
            then (if is_ok verdict then rest else judged false d)
            else failed code c)
        else failed retval cbc

    abbrev pub judge : Text → Verdict Cmdb → ℤ × Cmdb
    judge zone (failed retval c) = (retval, c)
    judge zone (judged valid c) = marked c rev_zone_validate valid zone

    abbrev pub pieces : Inet → Text → ℕ → Cmdb → ℤ × Option ℕ → ℤ × Cmdb
    pieces inet zone prefix cbc (retval, index) =
        if is_ok retval
        then judge zone (piece_rounds inet zone prefix (or_old 0 index) 0 cbc)
        else (retval, cbc)

    unfoldable pub cmdb_validate_rev_zone :
        Inet → Option Cmdb → Option Text → Option Text → ℕ → ℤ × Option Cmdb
    unfolding piece_rounds
    cmdb_validate_rev_zone inet (some cbc) (some zone) ztype prefix =
        let (retval, c) =
          if is_slave ztype
          then marked cbc rev_zone_validate true zone
          else pieces inet zone prefix cbc (get_zone_index prefix) in
        (retval, some c)
    cmdb_validate_rev_zone inet cbc _ ztype prefix = (ailsa_no_data, cbc)

    unfoldable pub cmdb_validate_zone :
        Inet → Option Cmdb → ℕ → Option Text → Option Text → ℕ → ℤ × Option Cmdb
    unfolding cmdb_validate_fwd_zone cmdb_validate_rev_zone
    cmdb_validate_zone inet (some cbc) type (some zone) ztype prefix =
        if type == forward_zone
        then cmdb_validate_fwd_zone (some cbc) (some zone) ztype
        else if type == reverse_zone
        then cmdb_validate_rev_zone inet (some cbc) (some zone) ztype prefix
        else (ailsa_wrong_zone_type, some cbc)
    cmdb_validate_zone inet cbc type _ ztype prefix = (ailsa_no_data, cbc)
