-- ===== src/Zone/Serial.antt =====
-- The serial number of a zone, from the date.
use cmdb.Base.{
  ℕ, suc, ◌+◌, ◌-◌, ◌*◌, ◌<◌, ◌≤◌, ◌≡◌, refl, ap, ◌∙◌, inl, inr, some, [], ◌∷◌, ◌++◌, if◌then◌else◌,
  ltb, ltb_cases, arith, length, length-append,
}
use cmdb.Data.{Text, codes}
use cmdb.Zone.{Outside, Date, generate_zone_serial}

abbrev pub Digits : Text → Type 0
Digits [] = Unit {0}
Digits (c ∷ t) = (48 ≤ c) × (c ≤ 57) × Digits t

-- The number that digits behind `a` make.
abbrev pub value : ℕ → Text → ℕ
value a [] = a
value a (c ∷ t) = value (a * 10 + (c - 48)) t

abbrev pub width : ℕ → ℕ
width n = if ltb n 10 then 1 else if ltb n 100 then 2 else if ltb n 1000 then 3 else 4

-- The text is the decimal numeral of the number, with no zeros in front.
abbrev pub Numeral : ℕ → Text → Type 0
Numeral n t = Digits t × (value 0 t ≡ n) × (length t ≡ width n)

Digits-append : (t u : Text) → Digits t → Digits u → Digits (t ++ u)
Digits-append [] u p q = q
Digits-append (c ∷ t) u (low, high, p) q = (low, high, Digits-append t u p q)

value-append : (a : ℕ) (t u : Text) → value a (t ++ u) ≡ value (value a t) u
value-append a [] u = refl
value-append a (c ∷ t) u = value-append (a * 10 + (c - 48)) t u

value_one : (a n : ℕ) (t : Text) → length t ≡ 1 → value 0 t ≡ n → value a t ≡ a * 10 + n
value_one a n [] l e = ground arith
value_one a n (c ∷ []) l e = omega (arith, e)
value_one a n (c ∷ d ∷ t) l e = ground arith

value_two : (a n : ℕ) (t : Text) → length t ≡ 2 → value 0 t ≡ n → value a t ≡ a * 100 + n
value_two a n [] l e = ground arith
value_two a n (c ∷ []) l e = ground arith
value_two a n (c ∷ d ∷ []) l e = omega (arith, e)
value_two a n (c ∷ d ∷ b ∷ t) l e = ground arith

-- Two digits for a number below 100.
abbrev padded : Text → ℕ → Text
padded t n = if ltb n 10 then codes "0" ++ t else t

TwoDigits : ℕ → Text → Type 0
TwoDigits n t = Digits t × (length t ≡ 2) × ((a : ℕ) → value a t ≡ a * 100 + n)

padded-TwoDigits : (n : ℕ) (t : Text) → n < 100 → Numeral n t → TwoDigits n (padded t n)
unfolding TwoDigits
padded-TwoDigits n t lt (digits, e, l) = elim (ltb_cases n 10) [
  | inl (p, less) ↦
      let one : length t ≡ 1 =
        l ∙ ap (λ b. if b then 1 else if ltb n 100 then 2 else if ltb n 1000 then 3 else 4) p in
      rw p (
        (omega arith, omega arith, digits),
        ap suc one,
        λ a. value_one (a * 10 + (48 - 48)) n t one e ∙ omega arith,
      )
  | inr (p, more) ↦
      let two : length t ≡ 2 = ground arith in rw p (digits, two, λ a. value_two a n t two e)
]

width_le : (n : ℕ) → width n ≤ 4
width_le n = ground arith

month_test : (mon : ℕ) → ltb mon 9 ≡ ltb (mon + 1) 10
month_test mon = ground arith

-- The serial number of a date.
abbrev pub serial_number : Date → ℕ
serial_number date =
    (date.tm_year + 1900) * 1000000 + (date.tm_mon + 1) * 10000 + date.tm_mday * 100 + 1

serial_parts :
    (y m d : ℕ) (year month day : Text)
    → Numeral y year
    → TwoDigits m month
    → TwoDigits d day
    → Digits (year ++ (month ++ (day ++ codes "01")))
      × (length (year ++ (month ++ (day ++ codes "01"))) ≤ 10)
      × (value 0 (year ++ (month ++ (day ++ codes "01"))) ≡ y * 1000000 + m * 10000 + d * 100 + 1)
unfolding TwoDigits
serial_parts y m d year month day (dy, vy, ly) (dm, lm, vm) (dd, ld, vd) = (
  Digits-append year _ dy (
      Digits-append month _ dm
        (Digits-append day _ dd (omega arith, omega arith, (omega arith, omega arith, tt)))),
  (let a = length-append year (month ++ (day ++ codes "01")) in
      let b = length-append month (day ++ codes "01") in
      let c = length-append day (codes "01") in
      let w = width_le y in omega (arith, a, b, c, w, ly, lm, ld)),
  value-append 0 year _
      ∙ value-append (value 0 year) month _
      ∙ value-append (value (value 0 year) month) day _
      ∙ (let p = vm (value 0 year) in
          let q = vd (value (value 0 year) month) in omega (arith, p, q, vy)),
)

module _ (outside : Outside) (date : Date) (today : outside.today ≡ some date) where
  -- The serial number of a zone is the year, the month, the day and 01, in decimal digits from the
  -- left. The clock gives a date with a year below 10000, a month below 12, from 0, and a day below
  -- 32; the library writes numbers below 10000 as decimal numerals and reads up to 19 digits.
  pub serial_lem :
      date.tm_year + 1900 < 10000
      → date.tm_mon < 12
      → date.tm_mday < 32
      → ((n : ℕ) → n < 10000 → Numeral n (outside.decimal n))
      → ((t : Text) → Digits t → length t ≤ 19 → outside.inet.strtoul t ≡ value 0 t)
      → generate_zone_serial outside ≡ serial_number date
  unfolding generate_zone_serial
  serial_lem year month day shows reads =
      let m = date.tm_mon + 1 in
      let y = date.tm_year + 1900 in
      let (digits, short, number) =
        serial_parts y m date.tm_mday (outside.decimal y) (padded (outside.decimal m) m)
          (padded (outside.decimal date.tm_mday) date.tm_mday) (shows y year)
          (padded-TwoDigits m (outside.decimal m) (omega (arith, month))
            (shows m (omega (arith, month))))
          (padded-TwoDigits date.tm_mday (outside.decimal date.tm_mday) (omega (arith, day))
            (shows date.tm_mday (omega (arith, day)))) in
      rw (today, month_test date.tm_mon) (reads _ digits (omega (arith, short)) ∙ number)
