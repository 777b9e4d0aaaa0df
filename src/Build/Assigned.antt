-- ===== src/Build/Assigned.antt =====
-- src/createbuild.c: the address that `cbc_calculate_build_ip` assigns.
use cmdb.Base.{
  ℕ, zero, suc, ◌<◌, ◌≤◌, ◌≡◌, refl, Bool, true, false, Option, some, List, [], ◌∷◌, ℤ, arith,
}
use cmdb.Data.{Text, DataList}
use cmdb.Query.{Database}
use cmdb.Net.{Inet}
use cmdb.Dns.Steps.{Changes, got}
use cmdb.Build.Address.{search_ip, BuildLine, assigned, pool, cbc_calculate_build_ip}
use cmdb.Build.Site.{Site, given_address, says, in_use}

module _ {Cmdb : Type 0} (db : Database Cmdb) (inet : Inet) (changes : Changes Cmdb) (uid : ℕ)
    (cbt : Cmdb) (cml : BuildLine) (domain : Text) (y : ℕ) (ys : List ℕ)
    (site : Site db inet cbt cml domain (y ∷ ys)) where
  abbrev pub used : ℕ → Bool
  used a = in_use db inet changes uid cbt cml domain (y ∷ ys) site a

  -- What the choice from `ip` to `lip` comes to: the first address that is not in use is given to the build,
  -- or all are in use and nothing changes.
  pub data Choice (ip lip : ℕ) (bdom : DataList) : Option (ℤ × Cmdb × DataList) → Type 0 where
    given :
        (a : ℕ)
        → ip ≤ a
        → a ≤ lip
        → used a ≡ false
        → ((b : ℕ) → ip ≤ b → b < a → used b ≡ true)
        → Choice ip lip bdom
            (some (given_address db inet changes uid cbt cml domain (y ∷ ys) site a bdom))
    none_left :
        (code : ℤ)
        → ((b : ℕ) → ip ≤ b → b ≤ lip → used b ≡ true)
        → Choice ip lip bdom (some (code, cbt, bdom))

  abbrev answer : ℕ → ℤ
  answer a = says db inet changes uid cbt cml domain (y ∷ ys) site a

module _ {Cmdb : Type 0} (db : Database Cmdb) (inet : Inet) (changes : Changes Cmdb) (uid : ℕ)
    (cbt : Cmdb) (cml : BuildLine) (bdom : DataList) (domain : Text) (ip lip : ℕ) where
  -- Where no address of the pool is taken, the first one is assigned, whatever the DNS says of it and
  -- whatever the end of the pool is.
  pub first_unchecked :
      (fuel : ℕ)
      → pool db inet changes uid cbt cml bdom ≡ got (domain, ip, lip, [])
      → 0 < fuel
      → cbc_calculate_build_ip db inet changes uid fuel cbt cml bdom
        ≡ some (assigned db inet changes uid cbt cml domain bdom ip)
  unfolding cbc_calculate_build_ip search_ip
  first_unchecked (suc fuel) has enough = rw has refl
  first_unchecked zero has enough = absurd (omega arith)
