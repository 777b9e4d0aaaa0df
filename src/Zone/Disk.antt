-- ===== src/Zone/Disk.antt =====
-- lib/dnsa_net.c: the files of zones and the list of zones for the name server, as path and content. The
-- umask and the closing of descriptors are left out.
use cmdb.Base.{
  ℕ, ◌%◌, not, ◌&&◌, ◌||◌, Option, none, some, [], ◌∷◌, ◌++◌, ◌==◌, if◌then◌else◌, ℤ, pos, is_ok,
  length, take,
}
use cmdb.Data.{Text, codes, same_text, DataList, text, lint, ailsa_no_data}
use cmdb.Query.{Database}
use cmdb.Tables.{fwd_zone_config}
use cmdb.Net.{or_old}
use cmdb.Zone.Resolve.{Resolver, cmdb_getaddrinfo}
use cmdb.Zone.Writer.{Lines, ◌>>=◌, tab, newline, lacks_dot, with_dot, number_line, server_line}

abbrev pub ailsa_file_error : ℤ
ailsa_file_error = pos 233

-- The fields of `ailsa_cmdb_s` that say where the files are, and the mail address in a zone.
pub record Places : Type 0 where
  pub dir : Text
  pub bind : Text
  pub dnsa : Text
  pub hostmaster : Text

-- `open`, which empties the file: its descriptor, none where that fails.
abbrev pub Opens : Type 0
Opens = Text → Option ℕ

-- The path and the content of a file that was opened.
abbrev pub File : Type 0
File = Option (Text × Text)

-- `snprintf(name, DOMAIN_LEN, "%s%s", dir, name)`
abbrev pub path : Text → Text → Text
path dir name = take 255 (dir ++ name)

abbrev pub two_tabs : Text
two_tabs = tab ∷ tab ∷ []

abbrev pub rev_header_text : (ℕ → Text) → Text → ℕ → Text → Text → ℕ → ℕ → ℕ → ℕ → Text
rev_header_text decimal hostmaster ttl pri sec serial refresh retry expire =
    codes "$TTL "
    ++ (decimal ttl
        ++ (codes "\n@\tIN\tSOA\t"
            ++ (pri
                ++ (tab
                    ∷ (hostmaster
                        ++ (codes " (\n"
                            ++ (number_line decimal serial (codes "\t; Serial")
                                ++ (number_line decimal refresh (codes "\t; Refresh")
                                    ++ (number_line decimal retry (codes "\t; Retry")
                                        ++ (number_line decimal expire (codes "\t; Expire")
                                            ++ (number_line decimal ttl (codes "\t); Cache TTL")
                                                ++ (codes ";\n"
                                                    ++ (server_line two_tabs pri
                                                        ++ server_line two_tabs sec)))))))))))))

abbrev pub rev_header : (ℕ → Text) → DataList → Text → Lines
rev_header decimal
      (lint ttl
        ∷ text pri
        ∷ text sec
        ∷ lint serial
        ∷ lint refresh
        ∷ lint retry
        ∷ lint expire
        ∷ updated
        ∷ [])
      hostmaster =
    do
      first ← lacks_dot (length pri) pri
      second ← lacks_dot (length sec) sec
      some (
          rev_header_text decimal hostmaster ttl (with_dot first pri) (with_dot second sec) serial
            refresh retry expire)
rev_header decimal soa hostmaster = none

unfoldable pub write_rev_zone_header : (ℕ → Text) → ℕ → DataList → Text → Lines
write_rev_zone_header decimal fd soa hostmaster =
    if fd == 0 || not (length soa == 8) then some [] else rev_header decimal soa hostmaster

abbrev pub pointer_line : Text → Text → Text
pointer_line host dest = host ++ (codes "\tPTR\t" ++ (dest ++ (newline ∷ [])))

unfoldable pub pointer_lines : DataList → Lines
pointer_lines [] = some []
pointer_lines (text host ∷ text dest ∷ r) = do
  rest ← pointer_lines r
  some (pointer_line host dest ++ rest)
pointer_lines _ = none

unfoldable pub write_rev_zone_records : ℕ → DataList → Lines
unfolding pointer_lines
write_rev_zone_records fd r =
    if fd == 0 || not (length r % 2 == 0) then some [] else pointer_lines r

-- The loop over the zones, with what `t` holds. Where a name server is not found the list ends behind the
-- name of the file.
module _ (getaddrinfo : Resolver) (places : Places) where
  abbrev pub zone_start : Text → Text → Text
  zone_start name type =
      codes "zone \""
      ++ (name
          ++ (codes "\" {\n\t\t\ttype "
              ++ (type ++ (codes ";\n\t\t\tfile \"" ++ (places.dir ++ (name ++ codes "\";\n"))))))

  abbrev pub notify_source : ℕ → Text → Text
  notify_source t ip =
      if t == 4
      then codes "\t\t\tnotify-source " ++ (ip ++ codes ";\n\t\t};\n")
      else if t == 6
      then codes "\t\t\tnotify-source-v6 " ++ (ip ++ codes "\n\t\t};\n")
      else []

  abbrev pub notified : Text → ℕ → ℤ × Text × Option ℕ → (ℕ → Option (ℤ × Text)) → Option (ℤ × Text)
  notified start t (retval, ip, type) next =
      let now = or_old t type in
      if is_ok retval
      then (do rest ← next now; some (rest.0, start ++ (notify_source now ip ++ rest.1)))
      else some (retval, start)

  abbrev pub own_zone : Text → Text → Text → Text → ℕ → (ℕ → Option (ℤ × Text)) → Option (ℤ × Text)
  own_zone name type sec master t next =
      if same_text type (codes "master") && not (same_text sec (codes "none"))
      then notified (zone_start name type) t (cmdb_getaddrinfo getaddrinfo sec) next
      else (do
        rest ← next t
        some (
          rest.0,
          zone_start name type
              ++ ((if same_text type (codes "slave")
                    then codes "\t\t\tmasters { " ++ (master ++ codes "; };\n\t\t};\n")
                    else codes "\t\t};\n")
                  ++ rest.1),
        ))

  unfoldable pub config_rounds : DataList → ℕ → Option (ℤ × Text)
  config_rounds [] t = some (pos 0, [])
  config_rounds (text name ∷ text type ∷ text sec ∷ text master ∷ l) t =
      own_zone name type sec master t (λ now. config_rounds l now)
  config_rounds _ t = none

  -- The file is emptied before the query.
  abbrev pub config_file : Text → ℤ × DataList → Option (ℤ × File)
  config_file name (retval, l) =
      if is_ok retval && length l % 4 == 0
      then (do written ← config_rounds l 0; some (written.0, some (name, written.1)))
      else some (retval, some (name, []))

  abbrev pub opened : {Cmdb : Type 0} → Database Cmdb → Cmdb → Text → Option ℕ → Option (ℤ × File)
  opened db cbs name none = some (ailsa_file_error, none)
  opened db cbs name (some fd) = config_file name (db.ailsa_basic_query cbs fwd_zone_config)

  unfoldable pub cmdb_write_fwd_zone_config :
      {Cmdb : Type 0} → Database Cmdb → Opens → Option Cmdb → Option (ℤ × File)
  unfolding config_rounds
  cmdb_write_fwd_zone_config db open_file none = some (ailsa_no_data, none)
  cmdb_write_fwd_zone_config db open_file (some cbs) =
      let name = path places.bind places.dnsa in opened db cbs name (open_file name)
