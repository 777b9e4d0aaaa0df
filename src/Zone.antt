-- ===== src/Zone.antt =====
-- lib/dnsa_net.c: what is written to the database for a zone, and the serial number of a zone.
pub mod Rows
pub mod Serial
pub mod Reverse
pub mod Columns
pub mod Overlap
pub mod Fails
pub mod Update
pub mod Rises
pub mod Forward
pub mod Added
pub mod Table
pub mod Resolve
pub mod Writer
pub mod Disk
pub mod Readable
pub mod Published
pub mod ReadBack
pub mod Headed
pub mod Whole
pub mod Services
pub mod Stored
mod WriterTests
pub mod Apart
mod TableTests
mod ForwardTests
mod Tests
use cmdb.Base.{
  ℕ, ◌+◌, ◌%◌, ◌^◌, Bool, true, false, not, ◌&&◌, ◌||◌, Option, none, some, List, [], ◌∷◌, ◌++◌,
  ◌==◌, if◌then◌else◌, ltb, leb, is_null, ℤ, pos, is_ok, length,
}
use cmdb.Data.{
  Text, DbData, text, lint, DataList, codes, ailsa_no_data, cmdb_add_string_to_list,
  cmdb_add_number_to_list, cmdb_populate_cuser_muser,
}
use cmdb.Query.{Database, or_else}
use cmdb.Tables.{rev_zone_overlap}
use cmdb.Helper.Several.{master}
use cmdb.Net.{Inet, or_old, get_start_finsh_ips, convert_bin_ipv4_to_text}

abbrev pub ailsa_rev_zone_overlap : ℤ
ailsa_rev_zone_overlap = pos 242

-- The fields of `ailsa_cmdb_s` that describe the zones of this server.
pub record Settings : Type 0 where
  pub prins : Option Text
  pub secns : Option Text
  pub refresh : ℕ
  pub retry : ℕ
  pub expire : ℕ
  pub ttl : ℕ

-- What `localtime` returns, with its fields' names.
pub record Date : Type 0 where
  pub tm_year : ℕ
  pub tm_mon : ℕ
  pub tm_mday : ℕ

-- What comes from outside: the library's conversions, `snprintf` of "%lu" and "%d", what
-- `localtime` returns, and what `getuid` returns.
pub record Outside : Type 0 where
  pub inet : Inet
  pub decimal : ℕ → Text
  pub today : Option Date
  pub uid : ℕ

-- `sserial`: the year, two digits for the month and the day, and 01.
abbrev pub serial_text : (ℕ → Text) → Date → Text
serial_text decimal date =
    let syear = decimal (date.tm_year + 1900) in
    let smonth =
      if ltb date.tm_mon 9
      then codes "0" ++ decimal (date.tm_mon + 1)
      else decimal (date.tm_mon + 1) in
    let sday =
      if ltb date.tm_mday 10 then codes "0" ++ decimal date.tm_mday else decimal date.tm_mday in
    syear ++ (smonth ++ (sday ++ codes "01"))

abbrev serial_of : (Text → ℕ) → (ℕ → Text) → Option Date → ℕ
serial_of strtoul decimal none = 0
serial_of strtoul decimal (some date) = strtoul (serial_text decimal date)

unfoldable pub generate_zone_serial : Outside → ℕ
generate_zone_serial outside = serial_of outside.inet.strtoul outside.decimal outside.today

-- A call that adds to the list of the caller, and `if ((retval = call) != 0) goto cleanup`.
abbrev pub Add : Type 0
Add = DataList → ℤ × DataList

infixl 5 ◌⨟◌
abbrev pub ◌⨟◌ : Add → Add → Add
◌⨟◌ m k list = let (retval, l) = m list in if is_ok retval then k l else (retval, l)

abbrev pub filled : DataList → ℤ × Option DataList → ℤ × DataList
filled list (retval, l) = (retval, or_else list l)

abbrev pub string : Option Text → Add
string str list = filled list (cmdb_add_string_to_list str (some list))

abbrev pub number : ℕ → Add
number n list = filled list (cmdb_add_number_to_list n (some list))

abbrev pub cuser_muser : ℕ → Add
cuser_muser uid list = filled list (cmdb_populate_cuser_muser uid (some list))

abbrev pub secondary : Option Text → Add
secondary secns = if is_null secns then string (some (codes "none")) else string secns

-- The code, and what the list of the caller holds then.
abbrev pub result : ℤ × DataList → ℤ × Option DataList
result (retval, list) = (retval, some list)

module _ (outside : Outside) where
  open outside use {inet, decimal, uid}

  -- The body of `dnsa_populate_zone`, behind its checks for NULL.
  unfoldable pub zone_values : Settings → Text → Option Text → Option Text → Add
  zone_values cbs domain type master_ip =
      string (some domain)
      ⨟ string cbs.prins
      ⨟ secondary cbs.secns
      ⨟ number cbs.refresh
      ⨟ number cbs.retry
      ⨟ number cbs.expire
      ⨟ number cbs.ttl
      ⨟ number (generate_zone_serial outside)
      ⨟ (if is_null master_ip then string (some master) else (string type ⨟ string master_ip))
      ⨟ cuser_muser uid

  unfoldable pub dnsa_populate_zone :
      Option Settings
      → Option Text
      → Option Text
      → Option Text
      → Option DataList
      → ℤ × Option DataList
  unfolding zone_values
  dnsa_populate_zone (some cbs) (some domain) type master_ip (some zone) =
      result (zone_values cbs domain type master_ip zone)
  dnsa_populate_zone _ _ type master_ip zone = (ailsa_no_data, zone)

  -- `convert_bin_ipv4_to_text(end, buff)` and the insertion of `buff`.
  abbrev pub net_finish : ℕ → Add
  net_finish finish list =
      let (retval, buff) = convert_bin_ipv4_to_text inet finish in
      if is_ok retval then string (some (or_old [] buff)) list else (retval, list)

  -- What follows the bounds of the range.
  abbrev pub rev_zone_rest : Settings → Option Text → ℕ × ℕ → Add
  rev_zone_rest cbc master_ip (start, finish) =
      number start
      ⨟ net_finish finish
      ⨟ number finish
      ⨟ string cbc.prins
      ⨟ secondary cbc.secns
      ⨟ number (generate_zone_serial outside)
      ⨟ number cbc.refresh
      ⨟ number cbc.retry
      ⨟ number cbc.expire
      ⨟ number cbc.ttl
      ⨟ (if is_null master_ip
          then (string (some master) ⨟ string (some (codes "NULL")))
          else (string (some (codes "slave")) ⨟ string master_ip))
      ⨟ string (some (codes "no"))
      ⨟ cuser_muser uid

  abbrev pub behind_bounds : Settings → Text → Option Text → ℕ → Add
  behind_bounds cbc range master_ip prefix list =
      let (retval, start, finish) = get_start_finsh_ips inet (some range) prefix (0, 0) in
      if is_ok retval then rev_zone_rest cbc master_ip (start, finish) list else (retval, list)

  abbrev pub rev_zone_values : Settings → Text → Option Text → ℕ → Add
  rev_zone_values cbc range master_ip prefix =
      string (some range)
      ⨟ string (some (decimal prefix))
      ⨟ string (some range)
      ⨟ behind_bounds cbc range master_ip prefix

  unfoldable pub dnsa_populate_rev_zone :
      Option Settings → Option Text → Option Text → ℕ → Option DataList → ℤ × Option DataList
  dnsa_populate_rev_zone (some cbc) (some range) master_ip prefix (some list) =
      if prefix == 0
      then (ailsa_no_data, some list)
      else result (rev_zone_values cbc range master_ip prefix list)
  dnsa_populate_rev_zone _ _ master_ip prefix list = (ailsa_no_data, list)

-- The query gets the start and the end, the start twice and the end twice.
abbrev pub overlap_arguments : ℕ → ℕ → DataList
overlap_arguments start finish =
    lint start ∷ lint finish ∷ lint start ∷ lint start ∷ lint finish ∷ lint finish ∷ []

module _ {Cmdb : Type 0} (db : Database Cmdb) where
  -- The six insertions into a list that is there do not fail.
  unfoldable pub check_for_rev_zone_overlap : Option Cmdb → ℕ → ℕ → ℤ
  check_for_rev_zone_overlap none start finish = ailsa_no_data
  check_for_rev_zone_overlap (some cbc) start finish =
      if (start == 0 || finish == 0) || ltb finish start
      then ailsa_no_data
      else let (retval, l) =
          (number start
              ⨟ number finish
              ⨟ number start
              ⨟ number start
              ⨟ number finish
              ⨟ number finish)
            [] in
        if not (is_ok retval)
        then retval
        else let (retval, r) = db.ailsa_argument_query cbc rev_zone_overlap l in
          if not (is_ok retval)
          then retval
          else if ltb 0 (length r)
          then ailsa_rev_zone_overlap
          else retval
