-- ===== src/Zone/Readable.antt =====
-- A reader of the records in zone files, and that it finds what lib/dnsa_net.c wrote.
use cmdb.Base.{
  ℕ, ◌≡◌, refl, sym, ap, ◌∙◌, Option, none, some, List, [], ◌∷◌, ◌++◌, append_assoc, ◌==◌,
  if◌then◌else◌, ltb_cases, inl, inr, length, arith,
}
use cmdb.Data.{Text, codes, same_text, DataList, text}
use cmdb.Net.{split_at}
use cmdb.Net.Search.{Free, split_at-here}
use cmdb.Zone.Writer.{◌>>=◌, tab, newline, record_line, record_lines}
use cmdb.Zone.Disk.{pointer_line, pointer_lines}

pub record HostRecord : Type 0 where
  pub type : Text
  pub host : Text
  pub dest : Text

-- The character goes in front of the first line.
abbrev pub in_front : ℕ → List Text → List Text
in_front c [] = (c ∷ []) ∷ []
in_front c (l ∷ ls) = (c ∷ l) ∷ ls

-- The text, cut behind each newline.
abbrev pub lines_of : Text → List Text
lines_of [] = []
lines_of (c ∷ t) = let rest = lines_of t in if c == newline then [] ∷ rest else in_front c rest

abbrev pub skip_tabs : Text → Text
skip_tabs [] = []
skip_tabs (c ∷ t) = let rest = skip_tabs t in if c == tab then rest else c ∷ t

-- The host, white space, "IN", the type and what it points to.
abbrev pub read_record : Text → Option HostRecord
read_record line = do
  a ← split_at tab line
  b ← split_at tab (skip_tabs a.1)
  c ← split_at tab b.1
  (if same_text b.0 (codes "IN")
      then some (record { type = c.0; host = a.0; dest = c.1 })
      else none)

-- The host, "PTR" and the name.
abbrev pub read_pointer : Text → Option HostRecord
read_pointer line = do
  a ← split_at tab line
  b ← split_at tab a.1
  (if same_text b.0 (codes "PTR")
      then some (record { type = b.0; host = a.0; dest = b.1 })
      else none)

abbrev pub read_all : (Text → Option HostRecord) → List Text → Option (List HostRecord)
read_all read [] = some []
read_all read (l ∷ ls) = do r ← read l; rs ← read_all read ls; some (r ∷ rs)

-- What the database gives for the records.
abbrev pub record_values : List HostRecord → DataList
record_values [] = []
record_values (r ∷ rs) = text r.type ∷ text r.host ∷ text r.dest ∷ record_values rs

abbrev pub pointer_values : List HostRecord → DataList
pointer_values [] = []
pointer_values (r ∷ rs) = text r.host ∷ text r.dest ∷ pointer_values rs

-- No newline in a record, and no tab in its host and its type.
pub record IsPlain (r : HostRecord) : Type 0 where
  pub host_tab : Free tab r.host
  pub host_line : Free newline r.host
  pub type_tab : Free tab r.type
  pub type_line : Free newline r.type
  pub dest_line : Free newline r.dest

abbrev pub ArePlain : List HostRecord → Type 0
ArePlain [] = Unit {0}
ArePlain (r ∷ rs) = IsPlain r × ArePlain rs

pub Free-append : (c : ℕ) (t u : Text) → Free c t → Free c u → Free c (t ++ u)
Free-append c [] u free rest = rest
Free-append c (x ∷ t) u (ne, free) rest = (ne, Free-append c t u free rest)

pub lines_of-line : (l t : Text) → Free newline l → lines_of (l ++ (newline ∷ t)) ≡ l ∷ lines_of t
lines_of-line [] t free = refl
lines_of-line (x ∷ l) t (ne, free) = ground (arith, lines_of-line l t free)

-- A line without its end, with the tabs between the host and "IN".
abbrev body : Text → HostRecord → Text
body gap r = r.host ++ (gap ++ (codes "IN\t" ++ (r.type ++ (tab ∷ r.dest))))

body-ends :
    (gap : Text) (r : HostRecord) (t : Text)
    → (r.host ++ (gap ++ (codes "IN\t" ++ (r.type ++ (tab ∷ (r.dest ++ (newline ∷ []))))))) ++ t
      ≡ body gap r ++ (newline ∷ t)
body-ends gap r t =
    let behind = codes "IN\t" ++ (r.type ++ (tab ∷ (r.dest ++ (newline ∷ [])))) in
    let front = codes "IN\t" ++ (r.type ++ (tab ∷ r.dest)) in
    rw
      (
        append_assoc r.host (gap ++ behind) t,
        append_assoc gap behind t,
        append_assoc r.type (tab ∷ (r.dest ++ (newline ∷ []))) t,
        append_assoc r.dest (newline ∷ []) t,
        append_assoc r.host (gap ++ front) (newline ∷ t),
        append_assoc gap front (newline ∷ t),
        append_assoc r.type (tab ∷ r.dest) (newline ∷ t),
      )
      refl

one_line :
    (gap : Text) (r : HostRecord) (t : Text)
    → IsPlain r
    → Free newline gap
    → lines_of
        ((r.host ++ (gap ++ (codes "IN\t" ++ (r.type ++ (tab ∷ (r.dest ++ (newline ∷ []))))))) ++ t)
      ≡ body gap r ∷ lines_of t
one_line gap r t plain free =
    ap lines_of (body-ends gap r t)
    ∙ lines_of-line (body gap r) t (
        Free-append newline r.host (gap ++ (codes "IN\t" ++ (r.type ++ (tab ∷ r.dest))))
          plain.host_line
          (Free-append newline gap (codes "IN\t" ++ (r.type ++ (tab ∷ r.dest))) free (
            omega arith,
            (
              omega arith,
              (
                omega arith,
                Free-append newline r.type (tab ∷ r.dest) plain.type_line
                    (omega arith, plain.dest_line),
              ),
            ),
          )))

read-one : (r : HostRecord) → IsPlain r → read_record (body (tab ∷ []) r) ≡ some r
read-one r plain =
    rw
      (
        split_at-here tab r.host (codes "IN\t" ++ (r.type ++ (tab ∷ r.dest))) plain.host_tab,
        split_at-here tab r.type r.dest plain.type_tab,
      )
      refl

read-two : (r : HostRecord) → IsPlain r → read_record (body (tab ∷ tab ∷ []) r) ≡ some r
read-two r plain =
    rw
      (
        split_at-here tab r.host (tab ∷ (codes "IN\t" ++ (r.type ++ (tab ∷ r.dest))))
            plain.host_tab,
        split_at-here tab r.type r.dest plain.type_tab,
      )
      refl

-- A line of a zone file is read as the record that it was written for.
line_read :
    (r : HostRecord) (t : Text) (rs : List HostRecord)
    → IsPlain r
    → read_all read_record (lines_of t) ≡ some rs
    → read_all read_record (lines_of (record_line r.type r.host r.dest ++ t)) ≡ some (r ∷ rs)
line_read r t rs plain rest = elim (ltb_cases (length r.host) 8) [
  | inl (e, small) ↦
      rw
        (
          e,
          one_line (tab ∷ tab ∷ []) r t plain (omega arith, (omega arith, tt)),
          read-two r plain,
          rest,
        )
        refl
  | inr (e, large) ↦
      rw (e, one_line (tab ∷ []) r t plain (omega arith, tt), read-one r plain, rest) refl
]

pub record_lines-read :
    (rs : List HostRecord)
    → ArePlain rs
    → (t : Text) × (record_lines (record_values rs) ≡ some t)
      × (read_all read_record (lines_of t) ≡ some rs)
unfolding record_lines
record_lines-read [] plain = ([], refl, refl)
record_lines-read (r ∷ rs) (plain, others) =
    let (t, written, read) = record_lines-read rs others in
    (record_line r.type r.host r.dest ++ t, rw (written) refl, line_read r t rs plain read)

abbrev pointer_body : HostRecord → Text
pointer_body r = r.host ++ (codes "\tPTR\t" ++ r.dest)

pointer-ends :
    (r : HostRecord) (t : Text) → pointer_line r.host r.dest ++ t ≡ pointer_body r ++ (newline ∷ t)
pointer-ends r t =
    rw
      (
        append_assoc r.host (codes "\tPTR\t" ++ (r.dest ++ (newline ∷ []))) t,
        append_assoc r.dest (newline ∷ []) t,
        append_assoc r.host (codes "\tPTR\t" ++ r.dest) (newline ∷ t),
      )
      refl

pointer_one_line :
    (r : HostRecord) (t : Text)
    → IsPlain r
    → lines_of (pointer_line r.host r.dest ++ t) ≡ pointer_body r ∷ lines_of t
pointer_one_line r t plain =
    ap lines_of (pointer-ends r t)
    ∙ lines_of-line (pointer_body r) t (
        Free-append newline r.host (codes "\tPTR\t" ++ r.dest) plain.host_line (
          omega arith,
          (omega arith, (omega arith, (omega arith, (omega arith, plain.dest_line)))),
        ))

pointer-read :
    (r : HostRecord) → IsPlain r → r.type ≡ codes "PTR" → read_pointer (pointer_body r) ≡ some r
pointer-read r plain type =
    rw (split_at-here tab r.host (codes "PTR\t" ++ r.dest) plain.host_tab)
      (ap (λ t. some (record { type = t; host = r.host; dest = r.dest })) (sym type))

-- Every record is a pointer.
abbrev pub ArePointers : List HostRecord → Type 0
ArePointers [] = Unit {0}
ArePointers (r ∷ rs) = (r.type ≡ codes "PTR") × ArePointers rs

pub pointer_lines-read :
    (rs : List HostRecord)
    → ArePlain rs
    → ArePointers rs
    → (t : Text) × (pointer_lines (pointer_values rs) ≡ some t)
      × (read_all read_pointer (lines_of t) ≡ some rs)
unfolding pointer_lines
pointer_lines-read [] plain pointers = ([], refl, refl)
pointer_lines-read (r ∷ rs) (plain, others) (type, types) =
    let (t, written, read) = pointer_lines-read rs others types in
    (
      pointer_line r.host r.dest ++ t,
      rw (written) refl,
      rw (pointer_one_line r t plain, pointer-read r plain type, read) refl,
    )
