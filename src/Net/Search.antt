-- ===== src/Net/Search.antt =====
-- The texts of networks: the pattern that finds the zones of a range, and a range with its prefix.
use cmdb.Base.{
  ℕ, ◌≤◌, ◌<◌, ◌≡◌, ◌≢◌, refl, ap, ◌∙◌, inl, inr, true, false, none, some, [], ◌∷◌, ◌++◌,
  append_assoc, ◌==◌, if◌then◌else◌, ltb, ltb_cases, pos, arith, length, length-append,
  take-eq_of_le,
}
use cmdb.Data.{Text}
use cmdb.Net.{
  Inet, split_at, dot, slash, percent, get_offset_ip, get_range_search_string,
  get_ip_addr_and_prefix,
}

-- The character does not stand in the text.
abbrev pub Free : ℕ → Text → Type 0
Free c [] = Unit {0}
Free c (x ∷ t) = (x ≢ c) × Free c t

pub split_at-here : (c : ℕ) (t u : Text) → Free c t → split_at c (t ++ (c ∷ u)) ≡ some (t, u)
split_at-here c [] u free = ground arith
split_at-here c (x ∷ t) u (ne, free) = ground (arith, split_at-here c t u free)

pub split_at-none : (c : ℕ) (t : Text) → Free c t → split_at c t ≡ none
split_at-none c [] free = refl
split_at-none c (x ∷ t) (ne, free) = ground (arith, split_at-none c t free)

-- Three parts with dots behind them, and a fourth.
abbrev pub dotted : Text → Text → Text → Text → Text
dotted a b c d = a ++ (dot ∷ (b ++ (dot ∷ (c ++ (dot ∷ d)))))

-- The octets that a prefix fixes, and a percent sign in place of the others.
abbrev pub pattern_of : ℕ → Text → Text → Text → Text
pattern_of prefix a b c =
    if ltb 16 prefix
    then dotted a b c (percent ∷ [])
    else if ltb 8 prefix
    then a ++ (dot ∷ (b ++ (dot ∷ percent ∷ [])))
    else a ++ (dot ∷ percent ∷ [])

regroup : (a u : Text) → (a ++ (dot ∷ [])) ++ u ≡ a ++ (dot ∷ u)
regroup a u = append_assoc a (dot ∷ []) u

regroup2 :
    (a b : Text)
    → ((a ++ (dot ∷ [])) ++ (b ++ (dot ∷ []))) ++ (percent ∷ [])
      ≡ a ++ (dot ∷ (b ++ (dot ∷ percent ∷ [])))
regroup2 a b =
    append_assoc (a ++ (dot ∷ [])) (b ++ (dot ∷ [])) (percent ∷ [])
    ∙ ap (λ r. (a ++ (dot ∷ [])) ++ r) (regroup b (percent ∷ []))
    ∙ regroup a (b ++ (dot ∷ percent ∷ []))

regroup3 :
    (a b c : Text)
    → (((a ++ (dot ∷ [])) ++ (b ++ (dot ∷ []))) ++ (c ++ (dot ∷ []))) ++ (percent ∷ [])
      ≡ dotted a b c (percent ∷ [])
regroup3 a b c =
    append_assoc ((a ++ (dot ∷ [])) ++ (b ++ (dot ∷ []))) (c ++ (dot ∷ [])) (percent ∷ [])
    ∙ ap (λ r. ((a ++ (dot ∷ [])) ++ (b ++ (dot ∷ []))) ++ r) (regroup c (percent ∷ []))
    ∙ append_assoc (a ++ (dot ∷ [])) (b ++ (dot ∷ [])) (c ++ (dot ∷ percent ∷ []))
    ∙ ap (λ r. (a ++ (dot ∷ [])) ++ r) (regroup b (c ++ (dot ∷ percent ∷ [])))
    ∙ regroup a (b ++ (dot ∷ (c ++ (dot ∷ percent ∷ []))))

module _ (inet : Inet) where
  -- The pattern that finds the zones of a range keeps three octets of the offset address for a
  -- prefix above 16, two for one above 8, one for any other than 0, and ends in a percent sign.
  -- The offset succeeds, and its address has four parts, none of the first three with a dot
  -- inside.
  pub search_lem :
      (range : Text) (prefix index : ℕ) (a b c d : Text)
      → 0 < prefix
      → Free dot a
      → Free dot b
      → Free dot c
      → get_offset_ip inet (some range) prefix index ≡ (pos 0, some (dotted a b c d))
      → get_range_search_string inet (some range) prefix index
        ≡ (pos 0, some (pattern_of prefix a b c))
  unfolding get_range_search_string
  search_lem range prefix index a b c d positive fa fb fc e =
      let n : (prefix == 0) ≡ false = ground arith in
      let one = split_at-here dot a (b ++ (dot ∷ (c ++ (dot ∷ d)))) fa in
      let two = split_at-here dot b (c ++ (dot ∷ d)) fb in
      let three = split_at-here dot c d fc in
      elim (ltb_cases 16 prefix) [
        | inl (p, more) ↦
            let q : ltb 8 prefix ≡ true = ground arith in
            rw (n, e, p, q, one, two, three) (ap (λ r. (pos 0, some r)) (regroup3 a b c))
        | inr (p, less) ↦ elim (ltb_cases 8 prefix) [
          | inl (q, more) ↦ rw (n, e, p, q, one, two) (ap (λ r. (pos 0, some r)) (regroup2 a b))
          | inr (q, less) ↦
              rw (n, e, p, q, one) (ap (λ r. (pos 0, some r)) (regroup a (percent ∷ [])))
        ]
      ]

  -- A range of at most 16 characters with no slash and a prefix of at most two characters are
  -- taken apart as they were put together, at the slash between them.
  pub range_roundtrip :
      (range prefix : Text)
      → Free slash range
      → length range ≤ 16
      → length prefix ≤ 2
      → get_ip_addr_and_prefix inet (some (range ++ (slash ∷ prefix)))
        ≡ (pos 0, some range, some (inet.strtoul prefix))
  unfolding get_ip_addr_and_prefix
  range_roundtrip range prefix free short two =
      let whole : length (range ++ (slash ∷ prefix)) ≤ 32 =
        let l = length-append range (slash ∷ prefix) in omega (arith, l, short, two) in
      let fits : ltb 2 (length prefix) ≡ false = ground arith in
      rw
        (
          take-eq_of_le 32 (range ++ (slash ∷ prefix)) whole,
          split_at-here slash range prefix free,
          fits,
          take-eq_of_le 16 range short,
        )
        refl
