-- ===== src/Zone/WriterTests.antt =====
-- Zone files of one zone, written and read.
use cmdb.Base.{
  List, inr, ap, length, ℕ, ◌+◌, ◌<◌, ◌==◌, ◌++◌, if◌then◌else◌, ◌≡◌, refl, none, some, [], ◌∷◌,
  pos, arith,
}
use cmdb.Data.{Text, codes, text, lint, DataList}
use cmdb.Zone.Readable.{
  HostRecord, IsPlain, lines_of, read_record, read_pointer, read_all, record_values, pointer_values,
}
use cmdb.Zone.Writer.{write_fwd_header_records, write_glue_records, write_fwd_records}
use cmdb.Zone.Disk.{write_rev_zone_records}
use cmdb.Zone.ReadBack.{records_read_back}
use cmdb.Query.{Database}
use cmdb.Zone.Services.{ServiceRow, service_values}
use cmdb.Tables.{
  ns_mx_srv_records, name_servers_on_name, zone_soa_on_name, zone_records_on_name,
  fwd_zone_serial_update,
}
use cmdb.Zone.Tests.{machine}
use cmdb.Zone.Update.{next_serial}
use cmdb.Zone.Rises.{updated}
use cmdb.Zone.Disk.{Places, path}
use cmdb.Zone.Published.{write_fwd_zone_file}
use cmdb.Zone.Headed.{serial_in}
use cmdb.Zone.Stored.{Answered, Prints, zone_file_lem}

abbrev www : HostRecord
www = record { type = codes "A"; host = codes "www"; dest = codes "1.2" }

abbrev seven : HostRecord
seven = record { type = codes "PTR"; host = codes "7"; dest = codes "w." }

www_text : write_fwd_records 3 (record_values (www ∷ [])) ≡ some (codes "www\t\tIN\tA\t1.2\n")
unfolding write_fwd_records cmdb.Zone.Writer.record_lines
www_text = refl

www-IsPlain : IsPlain www
www-IsPlain = record {
  host_tab = (omega arith, (omega arith, (omega arith, tt)));
  host_line = (omega arith, (omega arith, (omega arith, tt)));
  type_tab = (omega arith, tt);
  type_line = (omega arith, tt);
  dest_line = (omega arith, (omega arith, (omega arith, tt)));
}

seven-IsPlain : IsPlain seven
seven-IsPlain = record {
  host_tab = (omega arith, tt);
  host_line = (omega arith, tt);
  type_tab = (omega arith, (omega arith, (omega arith, tt)));
  type_line = (omega arith, (omega arith, (omega arith, tt)));
  dest_line = (omega arith, (omega arith, tt));
}

records_read_back_example :
    ((t : Text) × (write_fwd_records 3 (record_values (www ∷ [])) ≡ some t)
      × (read_all read_record (lines_of t) ≡ some (www ∷ [])))
    × ((t : Text) × (write_rev_zone_records 3 (pointer_values (seven ∷ [])) ≡ some t)
        × (read_all read_pointer (lines_of t) ≡ some (seven ∷ [])))
records_read_back_example =
    records_read_back 3 (www ∷ []) (seven ∷ []) (omega arith) (www-IsPlain, tt) (seven-IsPlain, tt)
      (refl, tt)

abbrev zone : Text
zone = codes "a.org"

abbrev mail_server : ServiceRow
mail_server = record {
  type = codes "MX";
  host = codes "@";
  proto = [];
  service = [];
  pri = 10;
  dest = codes "mail.a.org.";
}

abbrev zone_rows : ℕ → DataList
zone_rows query =
    if query == name_servers_on_name
    then text (codes "ns1") ∷ text (codes "ns22") ∷ []
    else if query == zone_soa_on_name
    then lint 60 ∷ lint 7 ∷ lint 1 ∷ lint 2 ∷ lint 3 ∷ text (codes "yes") ∷ []
    else if query == ns_mx_srv_records
    then service_values (mail_server ∷ [])
    else if query == zone_records_on_name
    then record_values (www ∷ [])
    else []

abbrev zone_db : Database ℕ
zone_db = record {
  ailsa_basic_query = λ dc query. (pos 0, []);
  ailsa_argument_query = λ dc query args. (pos 0, zone_rows query);
  ailsa_update_query = λ dc query args. (pos 0, dc + 1);
}

abbrev places : Places
places = record {
  dir = codes "/d/";
  bind = codes "/b/";
  dnsa = codes "zones";
  hostmaster = codes "root.a.org.";
}

machine-Prints : Prints machine.decimal
machine-Prints n = (
  (omega arith, (omega arith, tt)),
  (omega arith, (omega arith, tt)),
  λ e. omega (arith, ap length e),
)

answered : Answered zone_db machine places (λ p. some 3) 0 1 zone 7 (www ∷ [])
answered = record {
  pri = codes "ns1";
  sec = codes "ns22";
  more = [];
  ttl = 60;
  refresh = 1;
  retry = 2;
  expire = 3;
  services = mail_server ∷ [];
  glue = [];
  fd = 3;
  name_rows = refl;
  soa_rows = refl;
  stored = refl;
  service_rows = refl;
  record_rows = refl;
  glue_rows = refl;
  opens = refl;
  open_fd = omega arith;
  first_name = omega arith;
  second_name = inr (omega arith);
  have_dest = (omega arith, tt);
  plain = (www-IsPlain, tt);
  pri_line = (omega arith, (omega arith, (omega arith, tt)));
}

zone_file_example :
    (content : Text) × (front lines back : List Text) × (let serial = next_serial machine 7 in
      (write_fwd_zone_file zone_db machine (λ s p. none) places (λ p. some 3) 0 (some zone)
        ≡ some (pos 0, 1, some (path places.dir zone, content)))
      × (serial_in content ≡ some (machine.decimal serial))
      × (7 < serial)
      × (updated zone_db machine 0 zone fwd_zone_serial_update serial ≡ (pos 0, 1))
      × (lines_of content ≡ front ++ (lines ++ back))
      × (read_all read_record lines ≡ some (www ∷ [])))
zone_file_example =
    zone_file_lem zone_db machine (λ s p. none) places (λ p. some 3) 0 1 zone 7 (www ∷ [])
      machine-Prints
      (
        omega arith,
        (
          omega arith,
          (
            omega arith,
            (
              omega arith,
              (
                omega arith,
                (
                  omega arith,
                  (omega arith, (omega arith, (omega arith, (omega arith, (omega arith, tt))))),
                ),
              ),
            ),
          ),
        ),
      )
      (omega arith) answered
