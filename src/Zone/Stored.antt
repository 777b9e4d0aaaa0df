-- ===== src/Zone/Stored.antt =====
-- lib/dnsa_net.c: what `write_fwd_zone_file` writes for a zone with changes.
use cmdb.Base.{
  true, false, sym, suc, ◌≤◌, ◌⊎◌, take, ℕ, ◌+◌, ◌^◌, ◌<◌, ◌≡◌, ◌≢◌, refl, ap, ◌∙◌, Bool, false,
  some, List, [], ◌∷◌, ◌++◌, append_assoc, ◌==◌, pos, length, arith,
}
use cmdb.Data.{same_text, Text, codes, DataList, text, lint, cmdb_add_string_to_list}
use cmdb.Query.{Database}
use cmdb.Tables.{
  name_servers_on_name, zone_soa_on_name, ns_mx_srv_records, zone_records_on_name,
  glue_zone_on_zone_name, fwd_zone_serial_update,
}
use cmdb.Helper.Default.Answers.{argument}
use cmdb.Net.Search.{Free}
use cmdb.Zone.{Outside}
use cmdb.Zone.Update.{next_serial}
use cmdb.Zone.Rises.{updated, serials_rise}
use cmdb.Zone.Writer.{
  Services, number_line, server_line, tab, newline, tabs, with_dot, write_zone_file_header,
}
use cmdb.Zone.Disk.{Places, Opens, path}
use cmdb.Zone.Readable.{
  Free-append, record_lines-read, HostRecord, lines_of, read_record, read_all, record_values,
  ArePlain,
}
use cmdb.Zone.ReadBack.{fwd_records-lines}
use cmdb.Zone.Whole.{
  Ended, IsWhole, Ended-IsWhole, append-Ended, server_line-Ended, lacks_read, append-Tail,
  second_lem,
}
use cmdb.Zone.Services.{
  ServiceRow, GlueRow, service_values, glue_values, HaveDest, services_lem, records-IsWhole,
  glue_written,
}
use cmdb.Net.{dot}
use cmdb.Zone.Published.{write_fwd_zone_file}
use cmdb.Zone.Headed.{serial_in, headed, serial_in-headed}

-- The numbers behind the serial number.
abbrev behind_serial : (ℕ → Text) → ℕ → ℕ → ℕ → ℕ → Text
behind_serial d ttl refresh retry expire =
    number_line d refresh (codes "\t\t; Refresh")
    ++ (number_line d retry (codes "\t\t; Retry")
        ++ (number_line d expire (codes "\t\t; Expire")
            ++ (number_line d ttl (codes "\t\t); TTL") ++ codes ";\n")))

abbrev header_of : Text → Text → Text → Text → Text → Text → Text
header_of ttl name master serial numbers servers =
    codes "$TTL "
    ++ (ttl
        ++ (codes "\n@\tIN\tSOA\t"
            ++ (name
                ++ (tab
                    ∷ (master
                        ++ (codes "\t(\n"
                            ++ (((tabs ++ (serial ++ (codes "\t; Serial" ++ (newline ∷ []))))
                                  ++ numbers)
                                ++ servers)))))))

-- The header as it is written, with what follows it.
header-headed :
    (ttl name master serial numbers servers rest : Text)
    → header_of ttl name master serial numbers servers ++ rest
      ≡ headed ttl name master serial ((numbers ++ servers) ++ rest)
header-headed ttl name master serial numbers servers rest =
    let numbered = serial ++ (codes "\t; Serial" ++ (newline ∷ [])) in
    let third = ((tabs ++ numbered) ++ numbers) ++ servers in
    let second = codes "\n@\tIN\tSOA\t" ++ (name ++ (tab ∷ (master ++ (codes "\t(\n" ++ third)))) in
    rw
      (
        append_assoc ttl second rest,
        append_assoc name (tab ∷ (master ++ (codes "\t(\n" ++ third))) rest,
        append_assoc master (codes "\t(\n" ++ third) rest,
        append_assoc numbered numbers servers,
        append_assoc numbered (numbers ++ servers) rest,
        append_assoc serial (codes "\t; Serial" ++ (newline ∷ [])) ((numbers ++ servers) ++ rest),
      )
      refl

-- The header as it is written is whole.
header-IsWhole :
    (ttl name master serial numbers servers : Text)
    → Ended servers
    → IsWhole (header_of ttl name master serial numbers servers)
header-IsWhole ttl name master serial numbers servers ended =
    Ended-IsWhole (header_of ttl name master serial numbers servers) (
      append-Ended (codes "$TTL ") (
        append-Ended ttl (
          append-Ended (codes "\n@\tIN\tSOA\t") (
            append-Ended name (
              append-Ended (tab ∷ []) (
                append-Ended master (
                  append-Ended (codes "\t(\n") (
                    append-Ended
                      ((tabs ++ (serial ++ (codes "\t; Serial" ++ (newline ∷ [])))) ++ numbers)
                      ended))))))))

Free-with_dot : (b : Bool) (t : Text) → Free newline t → Free newline (with_dot b t)
Free-with_dot true t free = Free-append newline t (dot ∷ []) free (omega arith, tt)
Free-with_dot false t free = free

-- What the database and the file system answer for the zone, whose mark is "yes". The name of the first
-- server is not empty; that of the second begins with "none", or is no more than one byte shorter, so the
-- byte that the code reads of it is there. Every service has a destination.
pub record Answered {Cmdb : Type 0} (db : Database Cmdb) (outside : Outside) (places : Places)
    (open_file : Opens) (cbc c : Cmdb) (zone : Text) (old : ℕ) (rs : List HostRecord) : Type 0 where
  pub pri : Text
  pub sec : Text
  pub more : DataList
  pub ttl : ℕ
  pub refresh : ℕ
  pub retry : ℕ
  pub expire : ℕ
  pub services : List ServiceRow
  pub glue : List GlueRow
  pub fd : ℕ
  pub name_rows :
      db.ailsa_argument_query cbc name_servers_on_name (argument zone ∷ [])
      ≡ (pos 0, text pri ∷ text sec ∷ more)
  pub soa_rows : db.ailsa_argument_query cbc zone_soa_on_name (argument zone ∷ []) ≡ (
    pos 0,
    lint ttl ∷ lint old ∷ lint refresh ∷ lint retry ∷ lint expire ∷ text (codes "yes") ∷ [],
  )
  pub stored :
      db.ailsa_update_query cbc fwd_zone_serial_update
        (lint (next_serial outside old) ∷ argument zone ∷ [])
      ≡ (pos 0, c)
  pub service_rows :
      db.ailsa_argument_query c ns_mx_srv_records (argument zone ∷ [])
      ≡ (pos 0, service_values services)
  pub record_rows :
      db.ailsa_argument_query c zone_records_on_name (argument zone ∷ [])
      ≡ (pos 0, record_values rs)
  pub glue_rows :
      db.ailsa_argument_query c glue_zone_on_zone_name (argument zone ∷ [])
      ≡ (pos 0, glue_values glue)
  pub opens : open_file (path places.dir zone) ≡ some fd
  pub open_fd : 0 < fd
  pub first_name : 0 < length pri
  pub second_name : (same_text (take 4 sec) (codes "none") ≡ true) ⊎ (length pri ≤ suc (length sec))
  pub have_dest : HaveDest services
  pub plain : ArePlain rs
  pub pri_line : Free newline pri

-- What `%lu` prints: some text without white space.
abbrev pub Prints : (ℕ → Text) → Type 0
Prints decimal = (n : ℕ) → Free newline (decimal n) × Free tab (decimal n) × (decimal n ≢ [])

-- `write_fwd_zone_file` for a zone with the mark "yes" returns 0 and writes one file, named by the zone. The
-- third line of the file begins with the number that is the zone's serial number in the database from now
-- on, which is above the old one. Among the lines of the file there are, one behind the other, lines that
-- are read as the records of the zone, in their order. The queries, the update of the serial number and
-- the opening of the file succeed; the rows of the database have values of the right kind; the name of
-- the first server is not empty and has no newline, that of the second begins with "none" or is at most one
-- byte shorter; every service has a destination; the old number is not the largest of 64 bits; a number is
-- printed as some text without white space; the mail address has no newline, the records no newline,
-- nor a tab in host and type.
pub zone_file_lem :
    {Cmdb : Type 0} (db : Database Cmdb) (outside : Outside) (getservbyname : Services)
    (places : Places) (open_file : Opens) (cbc c : Cmdb) (zone : Text) (old : ℕ)
    (rs : List HostRecord)
    → Prints outside.decimal
    → Free newline places.hostmaster
    → old + 1 < 2 ^ 64
    → Answered db outside places open_file cbc c zone old rs
    → (content : Text) × (front lines back : List Text) × (let serial = next_serial outside old in
        (write_fwd_zone_file db outside getservbyname places open_file cbc (some zone)
          ≡ some (pos 0, c, some (path places.dir zone, content)))
        × (serial_in content ≡ some (outside.decimal serial))
        × (old < serial)
        × (updated db outside cbc zone fwd_zone_serial_update serial ≡ (pos 0, c))
        × (lines_of content ≡ front ++ (lines ++ back))
        × (read_all read_record lines ≡ some rs))
unfolding write_fwd_zone_file write_zone_file_header cmdb_add_string_to_list
zone_file_lem db outside getservbyname places open_file cbc c zone old rs prints master_line small
      a =
    let (records, written, read) = record_lines-read rs a.plain in
    let d = outside.decimal in
    let (services, served, whole_services) =
      services_lem d getservbyname zone a.fd a.services a.open_fd a.have_dest in
    let (glue, delegated) = glue_written a.fd a.glue a.open_fd in
    let (lacks, first_read) = lacks_read (length a.pri) a.pri a.first_name (omega arith) in
    let (second, second_read, tail) = second_lem (length a.pri) a.sec a.first_name a.second_name in
    let serial = next_serial outside old in
    let (rises, checked, other) =
      serials_rise db outside cbc zone (lint a.ttl) (lint a.refresh) (lint a.retry) (lint a.expire)
        (lint 0) (lint 0) old [] [] refl refl small in
    let is_open : (a.fd == 0) ≡ false = ground (arith, a.open_fd) in
    let name = with_dot lacks a.pri in
    let numbers = behind_serial d a.ttl a.refresh a.retry a.expire in
    let servers = server_line (tab ∷ []) name ++ second in
    let header = header_of (d a.ttl) name places.hostmaster (d serial) numbers servers in
    let behind = services ++ (records ++ glue) in
    let whole =
      header-IsWhole (d a.ttl) name places.hostmaster (d serial) numbers servers (
        append-Tail (server_line (tab ∷ []) name) second (server_line-Ended (tab ∷ []) name)
          tail) in
    (
      header ++ behind,
      lines_of header ++ lines_of services,
      lines_of records,
      lines_of glue,
      (
        rw
            (
              a.name_rows,
              a.soa_rows,
              checked,
              a.stored,
              a.service_rows,
              a.record_rows,
              a.glue_rows,
              a.opens,
              is_open,
              first_read,
              second_read,
              served,
              fwd_records-lines a.fd rs a.open_fd,
              written,
              delegated,
            )
            refl,
        ap serial_in
              (header-headed (d a.ttl) name places.hostmaster (d serial) numbers servers behind)
            ∙ serial_in-headed (d a.ttl) name places.hostmaster (d serial) (prints a.ttl).0
                (Free-with_dot lacks a.pri a.pri_line) master_line (prints serial).0
                (prints serial).1 (prints serial).2 ((numbers ++ servers) ++ behind),
        rises,
        a.stored,
        rw (whole behind, whole_services (records ++ glue), records-IsWhole rs records written glue)
            (sym (append_assoc (lines_of header) (lines_of services) _)),
        read,
      ),
    )
