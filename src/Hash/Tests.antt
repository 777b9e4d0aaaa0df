-- ===== src/Hash/Tests.antt =====
-- A table of two buckets, with keys that are hashed.
use cmdb.Base.{[], ◌∷◌, ℕ, ◌^◌, ◌<◌, ◌≡◌, refl, Bool, ◌==◌, arith}
use cmdb.Data.{codes}
use cmdb.Hash.{HashTable, ailsa_hash, ailsa_hash_init, ailsa_hash_insert}
use cmdb.Hash.Bounded.{hash_bounded}
use cmdb.Hash.Buckets.{
  Outcome, Removal, one, no_bucket, and_bucket, hash_init-Sound, hash_insert_lem, hash_remove_fails,
}

ailsa_hash_abc : ailsa_hash (codes "abc") ≡ 26499
unfolding ailsa_hash
ailsa_hash_abc = refl

hash_bounded_example : ailsa_hash (codes "ns1.example.com") < 2 ^ 28
hash_bounded_example = hash_bounded (codes "ns1.example.com")

abbrev equal : ℕ → ℕ → Bool
equal a b = a == b

hash_insert_example :
    Outcome ailsa_hash equal
      (ailsa_hash_init 2)
      7
      (codes "abc")
      (ailsa_hash_insert ailsa_hash equal (ailsa_hash_init 2) 7 (codes "abc"))
hash_insert_example =
    hash_insert_lem ailsa_hash equal (ailsa_hash_init 2) 7 (codes "abc")
      (hash_init-Sound 2 (omega arith))

-- A table of one bucket with the item 7 in it.
abbrev seven : HashTable ℕ
seven = record { buckets = 1; size = 1; table = (7 ∷ []) ∷ [] }

hash_remove_example : Removal ailsa_hash equal seven 7 (codes "abc")
hash_remove_example =
    hash_remove_fails ailsa_hash equal seven 7 (codes "abc")
      (record { some_bucket = omega arith; complete = refl; thin = and_bucket one no_bucket })
