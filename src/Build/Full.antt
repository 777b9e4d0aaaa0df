-- ===== src/Build/Full.antt =====
-- src/createbuild.c: a build domain whose addresses all belong to builds.
use cmdb.Base.{
  ℕ, zero, suc, ◌+◌, ◌*◌, ◌%◌, ◌^◌, ◌≤◌, ◌<◌, ◌≡◌, refl, ap, sym, ◌∙◌, inl, inr, true, Option, some,
  List, [], ◌∷◌, ◌==◌, ltb, ltb_cases, Bool-cases, arith, ℤ, pos, length,
}
use cmdb.Data.{Text, DataList}
use cmdb.Query.{Database}
use cmdb.Net.{Inet}
use cmdb.Dns.Steps.{Changes, got}
use cmdb.Build.Address.{
  given_up, search_ip, BuildLine, cbc_check_ip_in_dns, pool, cbc_calculate_build_ip,
}
use cmdb.Build.Search.{member, rounds, rounds-mul}

module _ (dns : ℕ → Option ℤ) (all : List ℕ) (lip : ℕ) (y : ℕ) (ys : List ℕ) (listed : all ≡ y ∷ ys)
    (small : lip + 1 < 2 ^ 64) where
  -- The DNS is never asked, and the code stays what it was.
  full_loop :
      (n ip x : ℕ) (rest : List ℕ) (retval : ℤ) (fuel : ℕ)
      → lip < ip + n
      → ((b : ℕ) → ip ≤ b → b ≤ lip → member b all ≡ true)
      → member ip all ≡ member ip (x ∷ rest)
      → rounds n (length all) + length (x ∷ rest) < fuel
      → search_ip dns all lip fuel ip (x ∷ rest) retval ≡ given_up retval
  unfolding search_ip
  full_loop n ip x rest retval zero near full same enough = absurd (omega arith)
  full_loop zero ip x [] retval (suc fuel) near full same enough =
      let over : ltb lip ip ≡ true = ground arith in rw over refl
  full_loop zero ip x (z ∷ zs) retval (suc fuel) near full same enough =
      let over : ltb lip ip ≡ true = ground arith in rw over refl
  full_loop (suc n) ip x [] retval (suc fuel) near full same enough = elim (ltb_cases lip ip) [
    | inl (over, lt) ↦ rw over refl
    | inr (within, le) ↦
        let next : (ip + 1) % 2 ^ 64 ≡ suc ip = omega (arith, small) in
        let only : member ip (x ∷ []) ≡ true = sym same ∙ full ip (omega arith) le in
        let it : (x == ip) ≡ true = ground arith in
        let ih =
          full_loop n (suc ip) y ys retval fuel (omega arith)
            (λ b least most. full b (omega arith) most) (ap (member (suc ip)) listed)
            (omega (arith, ap (length {A = ℕ}) listed)) in
        rw (within, it, next) (ap (λ l. search_ip dns all lip fuel (suc ip) l retval) listed ∙ ih)
  ]
  full_loop (suc n) ip x (z ∷ zs) retval (suc fuel) near full same enough =
      elim (ltb_cases lip ip) [
        | inl (over, lt) ↦ rw over refl
        | inr (within, le) ↦
            let next : (ip + 1) % 2 ^ 64 ≡ suc ip = omega (arith, small) in
            let ih =
              full_loop n (suc ip) y ys retval fuel (omega arith)
                (λ b least most. full b (omega arith) most) (ap (member (suc ip)) listed)
                (omega (arith, ap (length {A = ℕ}) listed)) in
            elim (Bool-cases (x == ip)) [
              | inl it ↦
                  rw (within, it, next)
                    (ap (λ l. search_ip dns all lip fuel (suc ip) l retval) listed ∙ ih)
              | inr other ↦
                  let left : member ip all ≡ member ip (z ∷ zs) = rw (same, other) refl in
                  rw (within, other)
                    (full_loop (suc n) ip z zs retval fuel near full left (omega (arith, enough)))
            ]
      ]

module _ {Cmdb : Type 0} (db : Database Cmdb) (inet : Inet) (changes : Changes Cmdb) (uid : ℕ) where
  -- Where every address of the build domain belongs to a build, `cbc_calculate_build_ip` says 0, its code
  -- for success, and assigns no address: neither the database nor the values of the caller change. The
  -- bounds are below 2^64 - 1, and a round for each address and each taken one is enough fuel.
  pub full_pool_succeeds :
      (fuel : ℕ) (cbt : Cmdb) (cml : BuildLine) (bdom : DataList) (domain : Text) (ip lip y : ℕ)
      (ys : List ℕ)
      → pool db inet changes uid cbt cml bdom ≡ got (domain, ip, lip, y ∷ ys)
      → lip + 1 < 2 ^ 64
      → ((b : ℕ) → ip ≤ b → b ≤ lip → member b (y ∷ ys) ≡ true)
      → (lip + 1) * (length (y ∷ ys) + 1) + length (y ∷ ys) < fuel
      → cbc_calculate_build_ip db inet changes uid fuel cbt cml bdom ≡ some (pos 0, cbt, bdom)
  unfolding cbc_calculate_build_ip
  full_pool_succeeds fuel cbt cml bdom domain ip lip y ys has small full enough =
      let e =
        full_loop (cbc_check_ip_in_dns db inet (some cbt) (some domain) cml.name) (y ∷ ys) lip y ys
          refl small (lip + 1) ip y ys (pos 0) fuel (omega arith) full refl
          (omega (arith, rounds-mul (lip + 1) (length (y ∷ ys)))) in
      rw (has, e) refl
