-- ===== src/Hash/Buckets.antt =====
-- What a hash table of lib/hash.c holds, from its initialisation on.
use native.Mathlib.Nat.{mod-lt}
use cmdb.Base.{
  ℕ, zero, suc, ◌+◌, ◌%◌, ◌^◌, ◌<◌, ◌≡◌, ◌≢◌, ◌⊎◌, refl, sym, ap, ◌∙◌, Bool, Bool-cases, inl, inr,
  true, false, Option, none, some, List, [], ◌∷◌, ◌==◌, ℤ, pos, minus_one, get_elem?, length, arith,
}
use cmdb.Hash.{
  HashTable, empty_lists, set_bucket, bucket_of, ailsa_hash_init, ailsa_hash_insert,
  ailsa_hash_lookup, ailsa_hash_remove,
}

length-empty_lists {ℓ} : (V : Type ℓ) (n : ℕ) → length (empty_lists {V = V} n) ≡ n
length-empty_lists V zero = refl
length-empty_lists V (suc n) = ap suc (length-empty_lists V n)

module _ {ℓ} {V : Type ℓ} where
  -- A bucket with one element at most.
  pub data Single : List V → Type ℓ where
    nothing : Single []
    one : {x : V} → Single (x ∷ [])

  -- The first element of what a place holds.
  abbrev first_or : V → Option (List V) → V
  first_or d (some (x ∷ b)) = x
  first_or d _ = d

  abbrev elements : Option (List V) → ℕ
  elements none = 0
  elements (some b) = length b

  -- Every bucket is so.
  pub data Thin : List (List V) → Type ℓ where
    no_bucket : Thin []
    and_bucket : {b : List V} {table : List (List V)} → Single b → Thin table → Thin (b ∷ table)

  -- An array of as many buckets as it says, one or more, each with one element at most.
  pub record Sound (htbl : HashTable V) : Type ℓ where
    pub some_bucket : 0 < htbl.buckets
    pub complete : length htbl.table ≡ htbl.buckets
    pub thin : Thin htbl.table

  empty_lists-Thin : (n : ℕ) → Thin (empty_lists n)
  empty_lists-Thin zero = no_bucket
  empty_lists-Thin (suc n) = and_bucket nothing (empty_lists-Thin n)

  length-set_bucket :
      (table : List (List V)) (i : ℕ) (b : List V) → length (set_bucket table i b) ≡ length table
  length-set_bucket [] i b = refl
  length-set_bucket (x ∷ table) zero b = refl
  length-set_bucket (x ∷ table) (suc i) b = ap suc (length-set_bucket table i b)

  set_bucket-Thin :
      (table : List (List V)) (i : ℕ) (b : List V)
      → Thin table
      → Single b
      → Thin (set_bucket table i b)
  set_bucket-Thin [] i b no_bucket single = no_bucket
  set_bucket-Thin (x ∷ table) zero b (and_bucket s thin) single = and_bucket single thin
  set_bucket-Thin (x ∷ table) (suc i) b (and_bucket s thin) single =
      and_bucket s (set_bucket-Thin table i b thin single)

  -- A place of the table, with its bucket.
  bucket_at {μ} :
      (table : List (List V)) (i : ℕ)
      → Thin table
      → i < length table
      → {G : Type μ} → ((b : List V) → get_elem? table i ≡ some b → Single b → G)
      → G
  bucket_at [] i no_bucket lt k = absurd (omega (arith, lt))
  bucket_at (b ∷ table) zero (and_bucket s thin) lt k = k b refl s
  bucket_at (b ∷ table) (suc i) (and_bucket s thin) lt k =
      let less : i < length table = omega (arith, lt) in bucket_at table i thin less k

  -- A fresh table with one bucket or more is sound.
  pub hash_init-Sound : (buckets : ℕ) → 0 < buckets → Sound (ailsa_hash_init {V = V} buckets)
  unfolding ailsa_hash_init
  hash_init-Sound buckets some_buckets = record {
    some_bucket = some_buckets;
    complete = length-empty_lists V buckets;
    thin = empty_lists-Thin buckets;
  }

  get_elem?-set_bucket :
      (table : List (List V)) (i : ℕ) (b : List V)
      → i < length table
      → get_elem? (set_bucket table i b) i ≡ some b
  get_elem?-set_bucket [] i b lt = absurd (omega (arith, lt))
  get_elem?-set_bucket (x ∷ table) zero b lt = refl
  get_elem?-set_bucket (x ∷ table) (suc i) b lt =
      let less : i < length table = omega (arith, lt) in get_elem?-set_bucket table i b less

  -- The other buckets stay.
  set_bucket-others :
      (table : List (List V)) (i j : ℕ) (b : List V)
      → j ≢ i
      → get_elem? (set_bucket table i b) j ≡ get_elem? table j
  set_bucket-others [] i j b apart = refl
  set_bucket-others (x ∷ table) zero zero b apart = absurd (apart refl)
  set_bucket-others (x ∷ table) zero (suc j) b apart = refl
  set_bucket-others (x ∷ table) (suc i) zero b apart = refl
  set_bucket-others (x ∷ table) (suc i) (suc j) b apart =
      set_bucket-others table i j b (λ e. apart (ap suc e))

  module _ {κ} {Key : Type κ} (h : Key → ℕ) (match : V → V → Bool) where
    -- What an insertion into a sound table comes to: the bucket of the key was empty, has the item alone
    -- now, the other buckets stay, and the item is found under its key by all that it matches; one that
    -- it matches is there already; or another one is in its bucket.
    pub data Outcome (htbl : HashTable V) (item : V) (key : Key)
        : Option (ℤ × HashTable V) → Type (ℓ ⊔ κ) where
      placed :
          {next : HashTable V}
          → Sound next
          → bucket_of htbl (h key) ≡ some []
          → bucket_of next (h key) ≡ some (item ∷ [])
          → ((hash : ℕ)
              → hash % htbl.buckets ≢ h key % htbl.buckets
              → bucket_of next hash ≡ bucket_of htbl hash)
          → ((probe : V)
              → match probe item ≡ true
              → ailsa_hash_lookup h match next probe key ≡ some (pos 0, item))
          → Outcome htbl item key (some (pos 0, next))
      there :
          {x : V}
          → match item x ≡ true
          → ailsa_hash_lookup h match htbl item key ≡ some (pos 0, x)
          → Outcome htbl item key (some (pos 1, htbl))
      refused :
          {x : V}
          → match item x ≡ false
          → bucket_of htbl (h key) ≡ some (x ∷ [])
          → Outcome htbl item key (some (minus_one, htbl))

    -- The bucket of a key, in a sound table.
    bucket_lem {μ} :
        (htbl : HashTable V) (key : Key)
        → Sound htbl
        → {G : Type μ}
        → ((b : List V)
            → bucket_of htbl (h key) ≡ some b
            → Single b
            → (htbl.buckets == 0) ≡ false
            → h key % htbl.buckets < length htbl.table
            → G)
        → G
    bucket_lem htbl key sound k =
        let n : (htbl.buckets == 0) ≡ false = ground (arith, sound.some_bucket) in
        let below : h key % htbl.buckets < htbl.buckets = mod-lt (h key) sound.some_bucket in
        let lt : h key % htbl.buckets < length htbl.table = omega (arith, below, sound.complete) in
        bucket_at htbl.table (h key % htbl.buckets) sound.thin lt
          λ b at single. k b (rw n at) single n lt

    insert-Outcome :
        (htbl : HashTable V) (item : V) (key : Key) (b : List V)
        → Sound htbl
        → bucket_of htbl (h key) ≡ some b
        → Single b
        → (htbl.buckets == 0) ≡ false
        → h key % htbl.buckets < length htbl.table
        → Outcome htbl item key (ailsa_hash_insert h match htbl item key)
    unfolding ailsa_hash_insert ailsa_hash_lookup
    insert-Outcome htbl item key b sound at nothing n lt =
        let i = h key % htbl.buckets in
        let next : HashTable V = record {
          buckets = htbl.buckets;
          size = (htbl.size + 1) % 2 ^ 32;
          table = set_bucket htbl.table i (item ∷ []);
        } in
        let sound' : Sound next = record {
          some_bucket = sound.some_bucket;
          complete = length-set_bucket htbl.table i (item ∷ []) ∙ sound.complete;
          thin = set_bucket-Thin htbl.table i (item ∷ []) sound.thin one;
        } in
        rw at (
          placed sound' at (rw (n, get_elem?-set_bucket htbl.table i (item ∷ []) lt) refl)
            (λ hash apart.
              rw (n, set_bucket-others htbl.table i (hash % htbl.buckets) (item ∷ []) apart) refl)
            λ probe e. rw (n, get_elem?-set_bucket htbl.table i (item ∷ []) lt, e) refl)
    insert-Outcome htbl item key b sound at (one {x}) n lt = elim (Bool-cases (match item x)) [
      | inl e ↦ rw (at, e) (there e (rw (at, e) refl))
      | inr e ↦ rw (at, e) (refused e at)
    ]

    -- An insertion into a sound table comes to one of three: the bucket of the key was empty, it has the
    -- item alone then, all other buckets stay as they are, all that the item matches find it under this
    -- key, and the table is sound; what matches the item is
    -- there already, and the code is 1; or another item is in the bucket, and the code is -1. In these two
    -- cases the table does not change.
    pub hash_insert_lem :
        (htbl : HashTable V) (item : V) (key : Key)
        → Sound htbl
        → Outcome htbl item key (ailsa_hash_insert h match htbl item key)
    hash_insert_lem htbl item key sound =
        bucket_lem htbl key sound
          λ b at single n lt. insert-Outcome htbl item key b sound at single n lt

    -- The code 1 where the one element of the bucket matches, -1 where none does; the table and the item as
    -- they were.
    abbrev pub Removal : HashTable V → V → Key → Type ℓ
    Removal htbl item key =
        ((x : V) × (bucket_of htbl (h key) ≡ some (x ∷ []))
          × (match item x ≡ true)
          × (ailsa_hash_remove h match htbl item key ≡ some (pos 1, item, htbl)))
        ⊎ (((x : V) → bucket_of htbl (h key) ≡ some (x ∷ []) → match item x ≡ false)
            × (ailsa_hash_remove h match htbl item key ≡ some (minus_one, item, htbl)))

    empty_or_one : {y : V} → some [] ≡ some (y ∷ []) → ⊥
    empty_or_one e = let l : 0 ≡ 1 = ap (λ (o : Option (List V)). elements o) e in omega (arith, l)

    -- The one element of a bucket.
    same_one : {x y : V} {b : Option (List V)} → b ≡ some (x ∷ []) → b ≡ some (y ∷ []) → x ≡ y
    same_one {x} e f = ap (λ (o : Option (List V)). first_or x o) (sym e ∙ f)

    removal :
        (htbl : HashTable V) (item : V) (key : Key) (b : List V)
        → bucket_of htbl (h key) ≡ some b
        → Single b
        → Removal htbl item key
    unfolding ailsa_hash_remove
    removal htbl item key b at nothing =
        inr (λ y held. absurd (empty_or_one (sym at ∙ held)), rw at refl)
    removal htbl item key b at (one {x}) = elim (Bool-cases (match item x)) [
      | inl e ↦ inl (x, at, e, rw (at, e) refl)
      | inr e ↦ inr (λ y held. rw (same_one held at) e, rw (at, e) refl)
    ]

    -- A removal never takes anything out of a sound table: the code is 1 where the item is there and -1
    -- where it is not, in the bucket of its key, and neither the table nor what the caller has changes.
    pub hash_remove_fails :
        (htbl : HashTable V) (item : V) (key : Key) → Sound htbl → Removal htbl item key
    hash_remove_fails htbl item key sound =
        bucket_lem htbl key sound λ b at single n lt. removal htbl item key b at single
