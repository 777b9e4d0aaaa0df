-- ===== src/Zone/Headed.antt =====
-- The serial number in the file of a forward zone is the one that the database got.
use cmdb.Base.{
  ℕ, ◌≡◌, ◌≢◌, refl, ap, ◌∙◌, Bool, true, false, if◌then◌else◌, ◌==◌, Option, none, some, List, [],
  ◌∷◌, ◌++◌, append_assoc, arith,
}
use cmdb.Data.{Text, codes}
use cmdb.Net.{split_at}
use cmdb.Net.Search.{Free, split_at-here}
use cmdb.Zone.Writer.{tab, newline, tabs}
use cmdb.Zone.Readable.{lines_of, skip_tabs, Free-append, lines_of-line}

abbrev pub third : List Text → Option Text
third (a ∷ b ∷ l ∷ ls) = some l
third _ = none

abbrev pub front : Option (Text × Text) → Option Text
front none = none
front (some (a, b)) = some a

abbrev pub before_tab : Option Text → Option Text
before_tab none = none
before_tab (some l) = front (split_at tab (skip_tabs l))

-- What stands first in the third line, behind the white space.
abbrev pub serial_in : Text → Option Text
serial_in t = before_tab (third (lines_of t))

abbrev stands_in : ℕ → Text → Bool
stands_in c [] = false
stands_in c (x ∷ t) = let rest = stands_in c t in if x == c then true else rest

stands_in-Free : (c : ℕ) (t : Text) → stands_in c t ≡ false → Free c t
stands_in-Free c [] e = tt
stands_in-Free c (x ∷ t) e = (ground (arith, e), stands_in-Free c t (ground (arith, e)))

skip_tabs-start : (t u : Text) → t ≢ [] → Free tab t → skip_tabs (t ++ u) ≡ t ++ u
skip_tabs-start [] u given free = absurd (given refl)
skip_tabs-start (x ∷ t) u given (ne, free) = ground (arith)

-- The beginning of a zone file.
abbrev pub headed : Text → Text → Text → Text → Text → Text
headed ttl name master serial rest =
    codes "$TTL "
    ++ (ttl
        ++ (codes "\n@\tIN\tSOA\t"
            ++ (name
                ++ (tab
                    ∷ (master
                        ++ (codes "\t(\n"
                            ++ (tabs ++ (serial ++ (codes "\t; Serial\n" ++ rest)))))))))

module _ (ttl name master serial : Text) (ttl_line : Free newline ttl)
    (name_line : Free newline name) (master_line : Free newline master)
    (serial_line : Free newline serial) (serial_tab : Free tab serial) (given : serial ≢ []) where
  abbrev first : Text
  first = codes "$TTL " ++ ttl

  abbrev second : Text
  second = codes "@\tIN\tSOA\t" ++ (name ++ (tab ∷ (master ++ codes "\t(")))

  abbrev serial_text : Text
  serial_text = tabs ++ (serial ++ codes "\t; Serial")

  headed-lines :
      (rest : Text)
      → headed ttl name master serial rest
        ≡ first ++ (newline ∷ (second ++ (newline ∷ (serial_text ++ (newline ∷ rest)))))
  headed-lines rest =
      let behind = newline ∷ (serial_text ++ (newline ∷ rest)) in
      rw
        (
          append_assoc name (tab ∷ (master ++ codes "\t(")) behind,
          append_assoc master (codes "\t(") behind,
          append_assoc serial (codes "\t; Serial") (newline ∷ rest),
        )
        refl

  first_free : Free newline first
  first_free =
      Free-append newline (codes "$TTL ") ttl (stands_in-Free newline (codes "$TTL ") refl) ttl_line

  second_free : Free newline second
  second_free =
      Free-append newline (codes "@\tIN\tSOA\t") (name ++ (tab ∷ (master ++ codes "\t(")))
        (stands_in-Free newline (codes "@\tIN\tSOA\t") refl)
        (Free-append newline name (tab ∷ (master ++ codes "\t(")) name_line (
          omega arith,
          Free-append newline master (codes "\t(") master_line (omega arith, (omega arith, tt)),
        ))

  serial_free : Free newline serial_text
  serial_free =
      Free-append newline tabs (serial ++ codes "\t; Serial") (stands_in-Free newline tabs refl) (
        Free-append newline serial (codes "\t; Serial") serial_line
          (stands_in-Free newline (codes "\t; Serial") refl))

  first_three :
      (rest : Text)
      → lines_of (first ++ (newline ∷ (second ++ (newline ∷ (serial_text ++ (newline ∷ rest))))))
        ≡ first ∷ second ∷ serial_text ∷ lines_of rest
  first_three rest =
      let behind = serial_text ++ (newline ∷ rest) in
      lines_of-line first (second ++ (newline ∷ behind)) first_free
      ∙ ap (λ l. first ∷ l) (lines_of-line second behind second_free)
      ∙ ap (λ l. first ∷ second ∷ l) (lines_of-line serial_text rest serial_free)

  pub serial_in-headed :
      (rest : Text) → serial_in (headed ttl name master serial rest) ≡ some serial
  serial_in-headed rest =
      ap serial_in (headed-lines rest)
      ∙ ap (λ l. before_tab (third l)) (first_three rest)
      ∙ ap front (
          ap (split_at tab) (skip_tabs-start serial (codes "\t; Serial") given serial_tab)
          ∙ split_at-here tab serial (codes "; Serial") serial_tab)
