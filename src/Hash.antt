-- ===== src/Hash.antt =====
-- lib/hash.c: the hash of a key, and the table of buckets. A bucket is the sequence of what its
-- `AILLIST` holds; `none` is a bucket outside the table, or a division by zero.
pub mod Bounded
pub mod Buckets
mod Tests
use cmdb.Base.{
  ℕ, zero, suc, ◌+◌, ◌-◌, ◌*◌, ◌/◌, ◌%◌, ◌^◌, Bool, true, false, Option, none, some, List, [], ◌∷◌,
  ◌++◌, ◌==◌, if◌then◌else◌, ltb, bit_and, bit_xor, ℤ, pos, minus_one, is_ok, get_elem?,
}
use cmdb.Data.{Text}

-- `(unsigned)(*ptr)` of a `char` that has a sign.
abbrev pub unsigned_char : ℕ → ℕ
unsigned_char c = if ltb c 128 then c else 2 ^ 32 - 256 + c

-- The four highest bits go back into the lower ones.
abbrev pub fold_high : ℕ → ℕ → ℕ
fold_high val tmp = if tmp == 0 then val else bit_xor (bit_xor val (tmp / 2 ^ 24)) tmp

abbrev pub hash_round : ℕ → ℕ → ℕ
hash_round val c =
    let next = (val * 16 % 2 ^ 32 + unsigned_char c) % 2 ^ 32 in
    fold_high next (bit_and next 0xf0000000)

unfoldable pub hash_rounds : ℕ → Text → ℕ
hash_rounds val [] = val
hash_rounds val (c ∷ ptr) = hash_rounds (hash_round val c) ptr

unfoldable pub ailsa_hash : Text → ℕ
unfolding hash_rounds
ailsa_hash key = hash_rounds 0 key

-- `AILHASH`, with its functions as parameters of what uses them. The buckets are in the order of the array.
pub record HashTable {ℓ} (V : Type ℓ) : Type ℓ where
  pub buckets : ℕ
  pub size : ℕ
  pub table : List (List V)

module _ {ℓ} {V : Type ℓ} where
  abbrev pub empty_lists : ℕ → List (List V)
  empty_lists zero = []
  empty_lists (suc n) = [] ∷ empty_lists n

  -- `table[bucket] = list`
  abbrev pub set_bucket : List (List V) → ℕ → List V → List (List V)
  set_bucket [] i list = []
  set_bucket (b ∷ table) zero list = list ∷ table
  set_bucket (b ∷ table) (suc i) list = b ∷ set_bucket table i list

  abbrev pub bucket_of : HashTable V → ℕ → Option (List V)
  bucket_of htbl hash =
      if htbl.buckets == 0 then none else get_elem? htbl.table (hash % htbl.buckets)

  unfoldable pub ailsa_hash_init : ℕ → HashTable V
  ailsa_hash_init buckets = record { buckets = buckets; size = 0; table = empty_lists buckets }

  -- `ailsa_list_destroy` takes the elements of a list from its tail.
  abbrev pub from_tail : List V → List V
  from_tail [] = []
  from_tail (x ∷ list) = from_tail list ++ (x ∷ [])

  -- The arguments of the calls of `destroy` over the buckets, where it is set.
  abbrev pub destroyed_items : List (List V) → List V
  destroyed_items [] = []
  destroyed_items (list ∷ table) = from_tail list ++ destroyed_items table

  -- What is destroyed, in this order, and the struct behind the memset.
  unfoldable pub ailsa_hash_destroy : Bool → HashTable V → List V × HashTable V
  ailsa_hash_destroy destroy htbl = (
    if destroy then destroyed_items htbl.table else [],
    record { buckets = 0; size = 0; table = [] },
  )

  -- `ailsa_list_ins_next(list, NULL, item)`: NULL is refused unless the list is empty.
  abbrev pub ins_next_null : List V → V → ℤ × List V
  ins_next_null [] item = (pos 0, item ∷ [])
  ins_next_null (x ∷ list) item = (minus_one, x ∷ list)

  module _ {κ} {Key : Type κ} (h : Key → ℕ) (match : V → V → Bool) where
    -- The loop of the look-up: what `*data` is then.
    abbrev pub find : V → List V → ℤ × V
    find item [] = (minus_one, item)
    find item (x ∷ list) = if match item x then (pos 0, x) else find item list

    abbrev pub find_in : V → Option (List V) → Option (ℤ × V)
    find_in item none = none
    find_in item (some list) = some (find item list)

    unfoldable pub ailsa_hash_lookup : HashTable V → V → Key → Option (ℤ × V)
    ailsa_hash_lookup htbl item key = find_in item (bucket_of htbl (h key))

    abbrev pub put : HashTable V → ℕ → ℤ × List V → ℤ × HashTable V
    put htbl i (retval, list) = (
      retval,
      if is_ok retval
          then record htbl { size = (htbl.size + 1) % 2 ^ 32; table = set_bucket htbl.table i list }
          else htbl,
    )

    abbrev pub insert_in : HashTable V → V → ℕ → Option (List V) → Option (ℤ × HashTable V)
    insert_in htbl item i none = none
    insert_in htbl item i (some list) =
        some
          (if is_ok (find item list).0 then (pos 1, htbl) else put htbl i (ins_next_null list item))

    unfoldable pub ailsa_hash_insert : HashTable V → V → Key → Option (ℤ × HashTable V)
    ailsa_hash_insert htbl item key =
        insert_in htbl item (h key % htbl.buckets) (bucket_of htbl (h key))

    -- The loop of the removal, behind an element `prev` of the bucket: where an element matches, it is
    -- `prev` that is removed, and goes out through `*data`.
    abbrev pub remove_behind : V → V → List V → ℤ × V × List V
    remove_behind item prev [] = (minus_one, item, prev ∷ [])
    remove_behind item prev (x ∷ list) =
        let (retval, found, rest) = remove_behind item x list in
        if match item x then (pos 0, prev, x ∷ list) else (retval, found, prev ∷ rest)

    -- With no element before the match, `ailsa_list_remove` refuses NULL.
    abbrev pub remove_from : V → List V → ℤ × V × List V
    remove_from item [] = (minus_one, item, [])
    remove_from item (x ∷ list) =
        if match item x then (pos 1, item, x ∷ list) else remove_behind item x list

    abbrev pub take_out : HashTable V → ℕ → ℤ × V × List V → ℤ × V × HashTable V
    take_out htbl i (retval, found, list) = (
      retval,
      found,
      if is_ok retval
          then record htbl {
            size = (htbl.size + 2 ^ 32 - 1) % 2 ^ 32;
            table = set_bucket htbl.table i list;
          }
          else htbl,
    )

    abbrev pub remove_in : HashTable V → V → ℕ → Option (List V) → Option (ℤ × V × HashTable V)
    remove_in htbl item i none = none
    remove_in htbl item i (some list) = some (take_out htbl i (remove_from item list))

    unfoldable pub ailsa_hash_remove : HashTable V → V → Key → Option (ℤ × V × HashTable V)
    ailsa_hash_remove htbl item key =
        remove_in htbl item (h key % htbl.buckets) (bucket_of htbl (h key))
