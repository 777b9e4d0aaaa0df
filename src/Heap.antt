-- ===== src/Heap.antt =====
-- The memory of the elements of an `AILLIST`, and commands that read and write it. Only elements
-- (`AILELEM`) are modelled: `item`, the source's `data`, is the address of what an element holds, never followed here.
pub mod Cell
pub mod Returns
use cmdb.Base.{ℕ, Option, none, some, List, [], ◌∷◌, ◌==◌, if◌then◌else◌}

abbrev pub Ptr : Type 0
Ptr = ℕ

abbrev pub null : Ptr
null = 0

-- `AILELEM`
pub record Elem : Type 0 where
  pub prev : Ptr
  pub next : Ptr
  pub item : Ptr

abbrev pub elem : Ptr → Ptr → Ptr → Elem
elem p n d = record { prev = p; next = n; item = d }

-- `destroyed` lists the arguments of the calls of a list's `destroy`, the latest first.
pub record Heap : Type 0 where
  pub cell : Ptr → Option Elem
  pub destroyed : List Ptr

-- The memory with one address changed.
unfoldable pub write : (Ptr → Option Elem) → Ptr → Option Elem → Ptr → Option Elem
write cells at c p = if p == at then c else cells p

-- How a command ends: it reads or writes through a bad pointer, needs more fuel than it has, or
-- returns a result and the memory.
pub data Run (Result : Type 0) : Type 0 where
  fault : Run Result
  out_of_fuel : Run Result
  ok : Result → Heap → Run Result

abbrev pub Cmd : Type 0 → Type 0
Cmd Result = Heap → Run Result

module _ {Result Next : Type 0} where
  abbrev pub and_then : Run Result → (Result → Cmd Next) → Run Next
  and_then fault rest = fault
  and_then out_of_fuel rest = out_of_fuel
  and_then (ok r memory) rest = rest r memory

  infixl 5 ◌>>=◌ ◌>>◌
  abbrev pub ◌>>=◌ : Cmd Result → (Result → Cmd Next) → Cmd Next
  (first >>= rest) memory = and_then (first memory) rest

  abbrev pub ◌>>◌ : Cmd Result → Cmd Next → Cmd Next
  (first >> rest) memory = and_then (first memory) (λ ignored. rest)

abbrev pub pure : {Result : Type 0} → Result → Cmd Result
pure = ok

abbrev pub store : Ptr → Option Elem → Cmd (Unit {0})
store p c h = ok tt (record h { cell = write h.cell p c })

unfoldable pub load : Ptr → Cmd Elem
load p h = if p == null then fault else elim (h.cell p) [ none ↦ fault | some e ↦ ok e h ]

unfoldable pub set_prev : Ptr → Ptr → Cmd (Unit {0})
set_prev p q = do e ← load p; store p (some (record e { prev = q }))

unfoldable pub set_next : Ptr → Ptr → Cmd (Unit {0})
set_next p q = do e ← load p; store p (some (record e { next = q }))

unfoldable pub free : Ptr → Cmd (Unit {0})
free p = load p >> store p none

-- `list->destroy(item)`
unfoldable pub destroy_data : Ptr → Cmd (Unit {0})
destroy_data d h = ok tt (record h { destroyed = d ∷ h.destroyed })
