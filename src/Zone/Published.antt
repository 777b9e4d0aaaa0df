-- ===== src/Zone/Published.antt =====
-- lib/dnsa_net.c: `write_fwd_zone_file` and `write_rev_zone_file`. The answer is the code, the database
-- and the file that was opened; `none` is a fault.
use cmdb.Base.{ℕ, Option, none, some, [], ◌++◌, if◌then◌else◌, ℤ, pos, is_ok}
use cmdb.Data.{Text, DataList, ailsa_no_data}
use cmdb.Query.{Database}
use cmdb.Tables.{
  name_servers_on_name, zone_soa_on_name, ns_mx_srv_records, zone_records_on_name,
  glue_zone_on_zone_name, rev_soa_on_net_range, rev_records_on_net_range,
}
use cmdb.Net.{or_old, get_offset_ip}
use cmdb.Zone.{Outside, string, number}
use cmdb.Zone.Update.{ailsa_check_for_zone_update, ailsa_check_for_rev_zone_update}
use cmdb.Zone.Writer.{
  ◌>>=◌, Services, write_zone_file_header, write_fwd_header_records, write_fwd_records,
  write_glue_records,
}
use cmdb.Zone.Disk.{
  Places, Opens, File, path, ailsa_file_error, write_rev_zone_header, write_rev_zone_records,
}

module _ {Cmdb : Type 0} (db : Database Cmdb) (outside : Outside) (getservbyname : Services)
    (places : Places) (open_file : Opens) where
  open outside use {inet, decimal}

  abbrev pub Stored : Type 0
  Stored = Option (ℤ × Cmdb × File)

  -- A call that fills a list, and what follows where it says 0.
  abbrev pub ask : ℤ × DataList → Cmdb → (DataList → Stored) → Stored
  ask (retval, l) c k = if is_ok retval then k l else some (retval, c, none)

  abbrev pub fill_fwd :
      Cmdb → Text → Text → DataList → DataList → DataList → DataList → DataList → Option ℕ → Stored
  fill_fwd c zone name n s hr r g none = some (ailsa_file_error, c, none)
  fill_fwd c zone name n s hr r g (some fd) = do
    header ← write_zone_file_header decimal fd n s places.hostmaster
    services ← write_fwd_header_records decimal getservbyname fd hr zone
    records ← write_fwd_records fd r
    glue ← write_glue_records fd g
    some (glue.0, c, some (name, header ++ (services ++ (records ++ glue.1))))

  -- Behind the serial number, which the list `s` holds now.
  abbrev pub fwd_bodies : Text → DataList → DataList → Option (ℤ × Cmdb × DataList) → Stored
  fwd_bodies zone a n none = none
  fwd_bodies zone a n (some (retval, c, s)) =
      if is_ok retval
      then ask (db.ailsa_argument_query c ns_mx_srv_records a) c (λ hr.
        ask (db.ailsa_argument_query c zone_records_on_name a) c (λ r.
          ask (db.ailsa_argument_query c glue_zone_on_zone_name a) c (λ g.
            fill_fwd c zone (path places.dir zone) n s hr r g (open_file (path places.dir zone)))))
      else some (retval, c, none)

  -- The database is there, here and below.
  unfoldable pub write_fwd_zone_file : Cmdb → Option Text → Stored
  write_fwd_zone_file cbc (some zone) = ask (string (some zone) []) cbc (λ a.
      ask (db.ailsa_argument_query cbc name_servers_on_name a) cbc (λ n.
        ask (db.ailsa_argument_query cbc zone_soa_on_name a) cbc
          (λ s. fwd_bodies zone a n (ailsa_check_for_zone_update db outside cbc s zone))))
  write_fwd_zone_file cbc none = some (ailsa_no_data, cbc, none)

  abbrev pub fill_rev : Cmdb → Text → DataList → DataList → Option ℕ → Stored
  fill_rev c name s r none = some (ailsa_file_error, c, none)
  fill_rev c name s r (some fd) = do
    header ← write_rev_zone_header decimal fd s places.hostmaster
    records ← write_rev_zone_records fd r
    some (pos 0, c, some (name, header ++ records))

  -- The file is named by the address of the piece.
  abbrev pub at_piece : Cmdb → DataList → DataList → ℤ × Option Text → Stored
  at_piece c s r (retval, ip) =
      let name = path places.dir (or_old [] ip) in
      if is_ok retval then fill_rev c name s r (open_file name) else some (retval, c, none)

  abbrev pub rev_bodies : Text → ℕ → ℕ → DataList → Option (ℤ × Cmdb × DataList) → Stored
  rev_bodies zone prefix index a none = none
  rev_bodies zone prefix index a (some (retval, c, s)) =
      if is_ok retval
      then ask (number index a) c (λ l.
        ask (db.ailsa_argument_query c rev_records_on_net_range l) c
          (λ r. at_piece c s r (get_offset_ip inet (some zone) prefix index)))
      else some (retval, c, none)

  unfoldable pub write_rev_zone_file : Cmdb → Option Text → ℕ → ℕ → Stored
  write_rev_zone_file cbc (some zone) prefix index = ask (string (some zone) []) cbc (λ a.
      ask (db.ailsa_argument_query cbc rev_soa_on_net_range a) cbc (λ s.
        rev_bodies zone prefix index a (ailsa_check_for_rev_zone_update db outside cbc s zone)))
  write_rev_zone_file cbc none prefix index = some (ailsa_no_data, cbc, none)
