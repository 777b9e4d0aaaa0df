-- ===== src/Zone/Writer.antt =====
-- lib/dnsa_net.c: the text of zone files. `none` is a read behind the end of a text, or of a value of
-- another kind; what was written before it is lost here.
use cmdb.Base.{
  ℕ, zero, suc, ◌%◌, Bool, not, ◌&&◌, ◌||◌, Option, none, some, [], ◌∷◌, ◌++◌, ◌==◌, if◌then◌else◌,
  ltb, ℤ, pos, minus_one, length, take,
}
use cmdb.Data.{Text, codes, same_text, DataList, text, lint, ailsa_no_data}
use cmdb.Net.{dot}

abbrev pub Lines : Type 0
Lines = Option Text

infixl 5 ◌>>=◌
abbrev pub ◌>>=◌ {ℓ κ} : {A : Type ℓ} {B : Type κ} → Option A → (A → Option B) → Option B
none >>= f = none
some a >>= f = f a

abbrev pub tab : ℕ
tab = 9

abbrev pub newline : ℕ
newline = 10

abbrev pub tabs : Text
tabs = tab ∷ tab ∷ tab ∷ tab ∷ []

-- `t[n]`; behind the last character stands NUL.
abbrev pub byte_at : ℕ → Text → Option ℕ
byte_at zero [] = some 0
byte_at (suc n) [] = none
byte_at zero (c ∷ t) = some c
byte_at (suc n) (c ∷ t) = byte_at n t

-- `t[len - 1] != '.'`; a length of 0 reads before the text.
abbrev pub lacks_dot : ℕ → Text → Option Bool
lacks_dot zero t = none
lacks_dot (suc n) t = do c ← byte_at n t; some (not (c == dot))

abbrev pub with_dot : Bool → Text → Text
with_dot lacks t = if lacks then t ++ (dot ∷ []) else t

-- A line of a number behind four tabs.
abbrev pub number_line : (ℕ → Text) → ℕ → Text → Text
number_line decimal n note = tabs ++ (decimal n ++ (note ++ (newline ∷ [])))

abbrev pub server_line : Text → Text → Text
server_line start name = start ++ (codes "IN\tNS\t" ++ (name ++ (newline ∷ [])))

-- What follows the first two lines, from the serial number to the end of the SOA record.
abbrev pub soa_numbers : (ℕ → Text) → DataList → Lines
soa_numbers decimal
      (lint ttl ∷ lint serial ∷ lint refresh ∷ lint retry ∷ lint expire ∷ updated ∷ []) =
    some (
      number_line decimal serial (codes "\t; Serial")
      ++ (number_line decimal refresh (codes "\t\t; Refresh")
          ++ (number_line decimal retry (codes "\t\t; Retry")
              ++ (number_line decimal expire (codes "\t\t; Expire")
                  ++ (number_line decimal ttl (codes "\t\t); TTL") ++ codes ";\n")))))
soa_numbers decimal _ = none

abbrev pub ttl_of : DataList → Option ℕ
ttl_of (lint ttl ∷ s) = some ttl
ttl_of _ = none

abbrev pub two_names : DataList → Option (Text × Text)
two_names (text pri ∷ text sec ∷ n) = some (pri, sec)
two_names _ = none

-- The length of the first name is taken for the second one too.
abbrev pub second_server : ℕ → Text → Lines
second_server slen sec =
    if same_text (take 4 sec) (codes "none")
    then some []
    else (do lacks ← lacks_dot slen sec; some (server_line (tab ∷ []) (with_dot lacks sec)))

unfoldable pub write_zone_file_header : (ℕ → Text) → ℕ → DataList → DataList → Text → Lines
write_zone_file_header decimal fd n s master =
    if fd == 0 || not (length s == 6) then some [] else (do
      names ← two_names n
      lacks ← lacks_dot (length names.0) names.0
      ttl ← ttl_of s
      numbers ← soa_numbers decimal s
      second ← second_server (length names.0) names.1
      some (
          codes "$TTL "
          ++ (decimal ttl
              ++ (codes "\n@\tIN\tSOA\t"
                  ++ (with_dot lacks names.0
                      ++ (tab
                          ∷ (master
                              ++ (codes "\t(\n"
                                  ++ (numbers
                                      ++ (server_line (tab ∷ []) (with_dot lacks names.0)
                                          ++ second))))))))))

-- The three loops over the records of six values, for NS, MX and SRV.
unfoldable pub ns_lines : DataList → Lines
ns_lines [] = some []
ns_lines (text type ∷ host ∷ proto ∷ service ∷ pri ∷ text dest ∷ r) = do
  rest ← ns_lines r
  some (if same_text type (codes "NS") then server_line (tab ∷ []) dest ++ rest else rest)
ns_lines (text type ∷ host ∷ proto ∷ service ∷ pri ∷ dest ∷ r) =
    if same_text type (codes "NS") then none else ns_lines r
ns_lines _ = none

abbrev pub mx_line : (ℕ → Text) → ℕ → Text → Text
mx_line decimal pri dest = codes "\tIN\tMX\t" ++ (decimal pri ++ (tab ∷ (dest ++ (newline ∷ []))))

unfoldable pub mx_lines : (ℕ → Text) → DataList → Lines
mx_lines decimal [] = some []
mx_lines decimal (text type ∷ host ∷ proto ∷ service ∷ lint pri ∷ text dest ∷ r) = do
  rest ← mx_lines decimal r
  some (if same_text type (codes "MX") then mx_line decimal pri dest ++ rest else rest)
mx_lines decimal (text type ∷ host ∷ proto ∷ service ∷ pri ∷ dest ∷ r) =
    if same_text type (codes "MX") then none else mx_lines decimal r
mx_lines decimal _ = none

-- `getservbyname` for a service and a protocol: its port in the order of the host.
abbrev pub Services : Type 0
Services = Text → Text → Option ℕ

abbrev pub port_of : Option ℕ → ℤ × Option ℕ
port_of none = (minus_one, none)
port_of (some port) = (pos 0, some port)

unfoldable pub cmdb_get_port_number : Services → Option Text → Option Text → ℤ × Option ℕ
cmdb_get_port_number getservbyname (some proto) (some service) =
    port_of (getservbyname service proto)
cmdb_get_port_number getservbyname proto _ = (ailsa_no_data, none)

abbrev pub srv_line : (ℕ → Text) → Text → Text → Text → ℕ → ℕ → Text → Text
srv_line decimal zone host proto pri port dest =
    codes "_"
    ++ (host
        ++ (codes "._"
            ++ (proto
                ++ (dot
                    ∷ (zone
                        ++ (codes ".\tIN SRV "
                            ++ (decimal pri
                                ++ (codes " 0 "
                                    ++ (decimal port ++ (tab ∷ (dest ++ (newline ∷ []))))))))))))

abbrev pub srv_dest : Text → Text → Option Text
srv_dest zone dest = do
  lacks ← lacks_dot (length dest) dest
  some (if lacks then dest ++ (dot ∷ (zone ++ (dot ∷ []))) else dest)

-- Where the port is not known the loop ends.
abbrev pub srv_known : (ℕ → Text) → Text → Text → Text → ℕ → Text → ℤ × Option ℕ → Lines → Lines
srv_known decimal zone host proto pri dest (retval, none) rest = some []
srv_known decimal zone host proto pri dest (retval, some port) rest = do
  target ← srv_dest zone dest
  after ← rest
  some (srv_line decimal zone host proto pri port target ++ after)

unfoldable pub srv_lines : (ℕ → Text) → Services → Text → DataList → Lines
unfolding cmdb_get_port_number
srv_lines decimal getservbyname zone [] = some []
srv_lines decimal getservbyname zone
      (text type ∷ text host ∷ text proto ∷ text service ∷ lint pri ∷ text dest ∷ r) =
    let rest = srv_lines decimal getservbyname zone r in
    if same_text type (codes "SRV")
    then srv_known decimal zone host proto pri dest
        (cmdb_get_port_number getservbyname (some proto) (some service)) rest
    else rest
srv_lines decimal getservbyname zone (text type ∷ host ∷ proto ∷ service ∷ pri ∷ dest ∷ r) =
    if same_text type (codes "SRV") then none else srv_lines decimal getservbyname zone r
srv_lines decimal getservbyname zone _ = none

unfoldable pub write_fwd_header_records : (ℕ → Text) → Services → ℕ → DataList → Text → Lines
unfolding ns_lines mx_lines srv_lines
write_fwd_header_records decimal getservbyname fd r zone =
    if fd == 0 || not (length r % 6 == 0) then some [] else (do
      ns ← ns_lines r
      mx ← mx_lines decimal r
      srv ← srv_lines decimal getservbyname zone r
      some (ns ++ (mx ++ srv)))

-- A record of the zone; a short host gets two tabs.
abbrev pub record_line : Text → Text → Text → Text
record_line type host dest =
    host
    ++ ((if ltb (length host) 8 then tab ∷ tab ∷ [] else tab ∷ [])
        ++ (codes "IN\t" ++ (type ++ (tab ∷ (dest ++ (newline ∷ []))))))

unfoldable pub record_lines : DataList → Lines
record_lines [] = some []
record_lines (text type ∷ text host ∷ text dest ∷ r) = do
  rest ← record_lines r
  some (record_line type host dest ++ rest)
record_lines _ = none

unfoldable pub write_fwd_records : ℕ → DataList → Lines
unfolding record_lines
write_fwd_records fd r = if fd == 0 || not (length r % 3 == 0) then some [] else record_lines r

abbrev pub glue_line : Text → Text → Text
glue_line name server = server_line (name ++ codes ".\t") server

unfoldable pub glue_lines : DataList → Lines
glue_lines [] = some []
glue_lines (text name ∷ text pri ∷ text sec ∷ g) = do
  rest ← glue_lines g
  some (
      glue_line name pri
      ++ (if ltb 0 (length sec) && not (same_text sec (codes "none"))
          then glue_line name sec ++ rest
          else rest))
glue_lines _ = none

-- The code, and what is written.
unfoldable pub write_glue_records : ℕ → DataList → Option (ℤ × Text)
unfolding glue_lines
write_glue_records fd g =
    if fd == 0
    then some (ailsa_no_data, [])
    else if length g % 3 == 0
    then (do lines ← glue_lines g; some (pos 0, lines))
    else some (pos 0, [])
