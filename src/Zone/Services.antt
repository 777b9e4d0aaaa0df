-- ===== src/Zone/Services.antt =====
-- lib/dnsa_net.c: the lines of the services, the records and the delegations of a zone are there, and whole.
use cmdb.Base.{
  ℕ, ◌%◌, ◌*◌, ◌<◌, ◌≡◌, refl, sym, subst, ◌∙◌, inl, inr, not, ◌&&◌, Bool-cases, true, false,
  Option, none, some, List, [], ◌∷◌, ◌++◌, ◌==◌, ltb, if◌then◌else◌, length, arith, pos,
}
use cmdb.Data.{Text, codes, same_text, DataList, text, lint}
use cmdb.Net.{dot, or_old}
use cmdb.Zone.Writer.{
  Services, tab, server_line, ns_lines, mx_line, mx_lines, cmdb_get_port_number, srv_line,
  srv_lines, write_fwd_header_records, record_line, record_lines, glue_line, glue_lines,
  write_glue_records,
}
use cmdb.Zone.ReadBack.{in_threes}
use cmdb.Zone.Readable.{HostRecord, record_values}
use cmdb.Zone.Whole.{
  Ended, IsWhole, newline-Ended, append-Ended, Ended-IsWhole, nil-IsWhole, append-IsWhole,
  server_line-Ended, lacks_read,
}

-- A row of the query for name servers, mail servers and services.
pub record ServiceRow : Type 0 where
  pub type : Text
  pub host : Text
  pub proto : Text
  pub service : Text
  pub pri : ℕ
  pub dest : Text

abbrev pub service_values : List ServiceRow → DataList
service_values [] = []
service_values (r ∷ rs) =
    text r.type
    ∷ text r.host
    ∷ text r.proto
    ∷ text r.service
    ∷ lint r.pri
    ∷ text r.dest
    ∷ service_values rs

-- No destination is empty.
abbrev pub HaveDest : List ServiceRow → Type 0
HaveDest [] = Unit {0}
HaveDest (r ∷ rs) = (0 < length r.dest) × HaveDest rs

-- A row of the query for delegations.
pub record GlueRow : Type 0 where
  pub name : Text
  pub pri : Text
  pub sec : Text

abbrev pub glue_values : List GlueRow → DataList
glue_values [] = []
glue_values (r ∷ rs) = text r.name ∷ text r.pri ∷ text r.sec ∷ glue_values rs

in_front_of : (a t : Text) → Ended a → IsWhole t → IsWhole (a ++ t)
in_front_of a t ended whole = append-IsWhole a t (Ended-IsWhole a ended) whole

ns_lem : (rs : List ServiceRow) → (t : Text) × (ns_lines (service_values rs) ≡ some t) × IsWhole t
unfolding ns_lines
ns_lem [] = ([], refl, nil-IsWhole)
ns_lem (r ∷ rs) =
    let (t, e, whole) = ns_lem rs in
    elim (Bool-cases (same_text r.type (codes "NS"))) [
      | inl is ↦ (
        server_line (tab ∷ []) r.dest ++ t,
        rw (e, is) refl,
        in_front_of (server_line (tab ∷ []) r.dest) t (server_line-Ended (tab ∷ []) r.dest) whole,
      )
      | inr not_it ↦ (t, rw (e, not_it) refl, whole)
    ]

length-service_values : (rs : List ServiceRow) → length (service_values rs) ≡ 6 * length rs
length-service_values [] = refl
length-service_values (r ∷ rs) = omega (arith, length-service_values rs)

in_sixes : (n m : ℕ) → n ≡ 6 * m → (n % 6 == 0) ≡ true
in_sixes n m e = ground arith

length-glue_values : (rs : List GlueRow) → length (glue_values rs) ≡ 3 * length rs
length-glue_values [] = refl
length-glue_values (r ∷ rs) = omega (arith, length-glue_values rs)

module _ (decimal : ℕ → Text) (getservbyname : Services) (zone : Text) where
  mx_line-Ended : (pri : ℕ) (dest : Text) → Ended (mx_line decimal pri dest)
  mx_line-Ended pri dest =
      append-Ended (codes "\tIN\tMX\t")
        (append-Ended (decimal pri) (append-Ended (tab ∷ []) (append-Ended dest newline-Ended)))

  mx_lem :
      (rs : List ServiceRow)
      → (t : Text) × (mx_lines decimal (service_values rs) ≡ some t) × IsWhole t
  unfolding mx_lines
  mx_lem [] = ([], refl, nil-IsWhole)
  mx_lem (r ∷ rs) =
      let (t, e, whole) = mx_lem rs in
      elim (Bool-cases (same_text r.type (codes "MX"))) [
        | inl is ↦ (
          mx_line decimal r.pri r.dest ++ t,
          rw (e, is) refl,
          in_front_of (mx_line decimal r.pri r.dest) t (mx_line-Ended r.pri r.dest) whole,
        )
        | inr not_it ↦ (t, rw (e, not_it) refl, whole)
      ]

  srv_line-Ended :
      (host proto : Text) (pri port : ℕ) (dest : Text)
      → Ended (srv_line decimal zone host proto pri port dest)
  srv_line-Ended host proto pri port dest = append-Ended (codes "_") (
      append-Ended host (
        append-Ended (codes "._") (
          append-Ended proto (
            append-Ended (dot ∷ []) (
              append-Ended zone (
                append-Ended (codes ".\tIN SRV ") (
                  append-Ended (decimal pri) (
                    append-Ended (codes " 0 ") (
                      append-Ended (decimal port)
                        (append-Ended (tab ∷ []) (append-Ended dest newline-Ended)))))))))))

  srv_lem :
      (rs : List ServiceRow)
      → HaveDest rs
      → (t : Text) × (srv_lines decimal getservbyname zone (service_values rs) ≡ some t) × IsWhole t
  unfolding srv_lines cmdb_get_port_number
  srv_lem [] have = ([], refl, nil-IsWhole)
  srv_lem (r ∷ rs) (given, have) =
      let (t, e, whole) = srv_lem rs have in
      elim (Bool-cases (same_text r.type (codes "SRV"))) [
        | inr not_it ↦ (t, rw (e, not_it) refl, whole)
        | inl is ↦ known r t whole e is given (getservbyname r.service r.proto) refl
      ]
    where
      known :
          (r : ServiceRow) (t : Text)
          → IsWhole t
          → srv_lines decimal getservbyname zone (service_values rs) ≡ some t
          → same_text r.type (codes "SRV") ≡ true
          → 0 < length r.dest
          → (port : Option ℕ) → getservbyname r.service r.proto ≡ port
          → (u : Text) × (srv_lines decimal getservbyname zone (service_values (r ∷ rs)) ≡ some u)
            × IsWhole u
      known r t whole e is given none p = ([], rw (is, p) refl, nil-IsWhole)
      known r t whole e is given (some port) p =
          let (b, read) = lacks_read (length r.dest) r.dest given (omega arith) in
          let target = if b then r.dest ++ (dot ∷ (zone ++ (dot ∷ []))) else r.dest in
          (
            srv_line decimal zone r.host r.proto r.pri port target ++ t,
            rw (is, p, read, e) refl,
            in_front_of (srv_line decimal zone r.host r.proto r.pri port target) t
                (srv_line-Ended r.host r.proto r.pri port target) whole,
          )

  pub services_lem :
      (fd : ℕ) (rs : List ServiceRow)
      → 0 < fd
      → HaveDest rs
      → (t : Text) × (write_fwd_header_records decimal getservbyname fd (service_values rs) zone
          ≡ some t)
        × IsWhole t
  unfolding write_fwd_header_records
  services_lem fd rs positive have =
      let (a, ea, wa) = ns_lem rs in
      let (b, eb, wb) = mx_lem rs in
      let (c, ec, wc) = srv_lem rs have in
      let is_open : (fd == 0) ≡ false = ground (arith, positive) in
      let sixes = in_sixes (length (service_values rs)) (length rs) (length-service_values rs) in
      (
        a ++ (b ++ c),
        rw (is_open, sixes, ea, eb, ec) refl,
        append-IsWhole a (b ++ c) wa (append-IsWhole b c wb wc),
      )

record_line-Ended : (type host dest : Text) → Ended (record_line type host dest)
record_line-Ended type host dest = append-Ended host (
    append-Ended (if ltb (length host) 8 then tab ∷ tab ∷ [] else tab ∷ []) (
      append-Ended (codes "IN\t")
        (append-Ended type (append-Ended (tab ∷ []) (append-Ended dest newline-Ended)))))

records_lem :
    (rs : List HostRecord) → (t : Text) × (record_lines (record_values rs) ≡ some t) × IsWhole t
unfolding record_lines
records_lem [] = ([], refl, nil-IsWhole)
records_lem (r ∷ rs) =
    let (t, e, whole) = records_lem rs in
    (
      record_line r.type r.host r.dest ++ t,
      rw e refl,
      in_front_of (record_line r.type r.host r.dest) t (record_line-Ended r.type r.host r.dest)
          whole,
    )

-- What is written for the records is whole.
pub records-IsWhole :
    (rs : List HostRecord) (t : Text) → record_lines (record_values rs) ≡ some t → IsWhole t
records-IsWhole rs t written =
    let (u, e, whole) = records_lem rs in
    subst (λ (o : Option Text). IsWhole (or_old [] o)) (sym e ∙ written) whole

glue_lem : (rs : List GlueRow) → (t : Text) × (glue_lines (glue_values rs) ≡ some t)
unfolding glue_lines
glue_lem [] = ([], refl)
glue_lem (r ∷ rs) =
    let (t, e) = glue_lem rs in
    (
      glue_line r.name r.pri
          ++ (if ltb 0 (length r.sec) && not (same_text r.sec (codes "none"))
              then glue_line r.name r.sec ++ t
              else t),
      rw e refl,
    )

pub glue_written :
    (fd : ℕ) (rs : List GlueRow)
    → 0 < fd
    → (t : Text) × (write_glue_records fd (glue_values rs) ≡ some (pos 0, t))
unfolding write_glue_records
glue_written fd rs positive =
    let (t, e) = glue_lem rs in
    let is_open : (fd == 0) ≡ false = ground (arith, positive) in
    let threes = in_threes (length (glue_values rs)) (length rs) (length-glue_values rs) in
    (t, rw (is_open, threes, e) refl)
