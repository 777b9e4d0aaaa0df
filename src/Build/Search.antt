-- ===== src/Build/Search.antt =====
-- src/createbuild.c: the loop of `cbc_calculate_build_ip` ends, and with the first address that is free.
use cmdb.Base.{
  ℕ, zero, suc, ◌+◌, ◌*◌, ◌%◌, ◌^◌, ◌≤◌, ◌<◌, ◌≡◌, refl, ap, sym, subst, inl, inr, Bool, true,
  false, ◌||◌, Option, some, List, [], ◌∷◌, ◌==◌, ==_iff, ltb, ltb_cases, Bool-cases, arith, ℤ, pos,
  negsuc, length,
}
use cmdb.Sql.Lite.{is_positive}
use cmdb.Build.Address.{is_negative, Found, address, given_up, search_ip}

abbrev pub member : ℕ → List ℕ → Bool
member ip [] = false
member ip (bip ∷ ips) = bip == ip || member ip ips

-- The rounds that are enough for so many addresses.
abbrev pub rounds : ℕ → ℕ → ℕ
rounds zero l = 0
rounds (suc n) l = rounds n l + (l + 1)

pub rounds-mul : (n l : ℕ) → rounds n l ≡ n * (l + 1)
rounds-mul zero l = omega arith
rounds-mul (suc n) l = grind (arith, rounds-mul n l)

module _ (says : ℕ → ℤ) (all : List ℕ) (lip : ℕ) where
  -- The address belongs to a build, or has a record in the DNS.
  abbrev pub taken : ℕ → Bool
  taken ip = member ip all || is_positive (says ip)

  abbrev pub TakenBelow : ℕ → ℕ → Type 0
  TakenBelow ip a = (b : ℕ) → ip ≤ b → b < a → taken b ≡ true

  -- What the search from the address `ip` on comes to: the first address that is free, a code where all
  -- are taken, or the code of the DNS where it cannot say.
  pub data Outcome (ip : ℕ) : Found → Type 0 where
    chosen :
        (a : ℕ)
        → ip ≤ a
        → a ≤ lip
        → member a all ≡ false
        → says a ≡ pos 0
        → TakenBelow ip a
        → Outcome ip (address a)
    exhausted : (code : ℤ) → TakenBelow ip (lip + 1) → Outcome ip (given_up code)
    refused :
        (a : ℕ)
        → ip ≤ a
        → a ≤ lip
        → is_negative (says a) ≡ true
        → TakenBelow ip a
        → Outcome ip (given_up (says a))

  below_next : (ip a : ℕ) → taken ip ≡ true → TakenBelow (suc ip) a → TakenBelow ip a
  below_next ip a here above b le lt = elim (Bool-cases (b == ip)) [
    | inl same ↦ rw ((==_iff b ip).0 same) here
    | inr other ↦ above b (ground arith) lt
  ]

  lift_next : (ip : ℕ) {found : Found} → taken ip ≡ true → Outcome (suc ip) found → Outcome ip found
  lift_next ip here (chosen a le bound free quiet above) =
      chosen a (omega arith) bound free quiet (below_next ip a here above)
  lift_next ip here (exhausted code above) = exhausted code (below_next ip (lip + 1) here above)
  lift_next ip here (refused a le bound negative above) =
      refused a (omega arith) bound negative (below_next ip a here above)

  none_below : (ip : ℕ) → TakenBelow ip ip
  none_below ip b le lt = absurd (omega arith)

  quiet : (code : ℤ) → is_positive code ≡ false → is_negative code ≡ false → code ≡ pos 0
  quiet (pos zero) p n = refl
  quiet (pos (suc m)) p n = absurd (ground arith)
  quiet (negsuc m) p n = absurd (ground arith)

  module _ (dns : ℕ → Option ℤ) (answers : (ip : ℕ) → dns ip ≡ some (says ip)) (y : ℕ) (ys : List ℕ)
      (listed : all ≡ y ∷ ys) (small : lip + 1 < 2 ^ 64) where
    next_ip : (ip : ℕ) → ip ≤ lip → (ip + 1) % 2 ^ 64 ≡ suc ip
    next_ip ip le = omega (arith, small)

    -- The search begins again with the next address.
    restart_lem :
        (n ip : ℕ) (code : ℤ) (fuel : ℕ)
        → ip ≤ lip
        → taken ip ≡ true
        → Outcome (suc ip) (search_ip dns all lip fuel (suc ip) all code)
        → Outcome ip (search_ip dns all lip fuel ((ip + 1) % 2 ^ 64) all code)
    restart_lem n ip code fuel le here next = rw (next_ip ip le) (lift_next ip here next)

    -- Behind the last address that is taken the loop ends.
    found_lem :
        (ip fuel : ℕ) (code : ℤ)
        → 0 < fuel
        → Outcome ip (address ip)
        → Outcome ip (search_ip dns all lip fuel ip [] code)
    unfolding search_ip
    found_lem ip zero code enough end = absurd (omega arith)
    found_lem ip (suc fuel) code enough end = end

    loop_lem :
        (n ip x : ℕ) (rest : List ℕ) (retval : ℤ) (fuel : ℕ)
        → lip < ip + n
        → member ip all ≡ member ip (x ∷ rest)
        → rounds n (length all) + length (x ∷ rest) < fuel
        → Outcome ip (search_ip dns all lip fuel ip (x ∷ rest) retval)
    unfolding search_ip
    loop_lem n ip x rest retval zero near same enough = absurd (omega arith)
    loop_lem zero ip x [] retval (suc fuel) near same enough =
        let over : ltb lip ip ≡ true = ground arith in
        rw over (exhausted retval (λ b le lt. absurd (omega arith)))
    loop_lem zero ip x (z ∷ zs) retval (suc fuel) near same enough =
        let over : ltb lip ip ≡ true = ground arith in
        rw over (exhausted retval (λ b le lt. absurd (omega arith)))
    loop_lem (suc n) ip x [] retval (suc fuel) near same enough = elim (ltb_cases lip ip) [
      | inl (over, lt) ↦ rw over (exhausted retval (λ b le less. absurd (omega arith)))
      | inr (within, le) ↦
          let restart = λ (code : ℤ).
            subst (λ l. Outcome (suc ip) (search_ip dns all lip fuel (suc ip) l code)) (sym listed)
              (loop_lem n (suc ip) y ys code fuel (omega arith) (ap (member (suc ip)) listed)
                (omega (arith, ap (length {A = ℕ}) listed))) in
          elim (Bool-cases (x == ip)) [
            | inl it ↦
                let here : taken ip ≡ true = rw (same, it) refl in
                rw (within, it) (restart_lem n ip retval fuel le here (restart retval))
            | inr other ↦
                let free : member ip all ≡ false = rw (same, other) refl in
                elim (Bool-cases (is_positive (says ip))) [
                  | inl positive ↦
                      let here : taken ip ≡ true = rw (free, positive) refl in
                      rw (within, other, answers ip, positive)
                        (restart_lem n ip (says ip) fuel le here (restart (says ip)))
                  | inr silent ↦ elim (Bool-cases (is_negative (says ip))) [
                    | inl negative ↦
                        rw (within, other, answers ip, silent, negative)
                          (refused ip (omega arith) le negative (none_below ip))
                    | inr fine ↦
                        rw (within, other, answers ip, silent, fine)
                          (found_lem ip fuel (says ip) (omega arith) (
                            chosen ip (omega arith) le free (quiet (says ip) silent fine)
                              (none_below ip)))
                  ]
                ]
          ]
    ]
    loop_lem (suc n) ip x (z ∷ zs) retval (suc fuel) near same enough = elim (ltb_cases lip ip) [
      | inl (over, lt) ↦ rw over (exhausted retval (λ b le less. absurd (omega arith)))
      | inr (within, le) ↦
          let restart : Outcome (suc ip) (search_ip dns all lip fuel (suc ip) all retval) =
            subst (λ l. Outcome (suc ip) (search_ip dns all lip fuel (suc ip) l retval))
              (sym listed)
              (loop_lem n (suc ip) y ys retval fuel (omega arith) (ap (member (suc ip)) listed)
                (omega (arith, ap (length {A = ℕ}) listed))) in
          elim (Bool-cases (x == ip)) [
            | inl it ↦
                let here : taken ip ≡ true = rw (same, it) refl in
                rw (within, it) (restart_lem n ip retval fuel le here restart)
            | inr other ↦
                let left : member ip all ≡ member ip (z ∷ zs) = rw (same, other) refl in
                rw (within, other)
                  (loop_lem (suc n) ip z zs retval fuel near left (omega (arith, enough)))
          ]
    ]

  -- The search for an address, where some are taken already, ends, and with the first address of the pool
  -- that belongs to no build and has no record in the DNS; with a code where every address of the pool
  -- is taken; or with the code of the DNS, where that cannot say of an address. The addresses of the pool
  -- are below 2^64 - 1, and a round for each of them and each of the taken ones is enough fuel.
  pub search_ip_lem :
      (dns : ℕ → Option ℤ) (y : ℕ) (ys : List ℕ) (ip fuel : ℕ)
      → ((b : ℕ) → dns b ≡ some (says b))
      → all ≡ y ∷ ys
      → lip + 1 < 2 ^ 64
      → (lip + 1) * (length all + 1) + length all < fuel
      → Outcome ip (search_ip dns all lip fuel ip all (pos 0))
  search_ip_lem dns y ys ip fuel answers listed small enough =
      subst (λ l. Outcome ip (search_ip dns all lip fuel ip l (pos 0))) (sym listed)
        (loop_lem dns answers y ys listed small (lip + 1) ip y ys (pos 0) fuel (omega arith)
          (ap (member ip) listed)
          (omega (arith, rounds-mul (lip + 1) (length all), ap (length {A = ℕ}) listed)))
