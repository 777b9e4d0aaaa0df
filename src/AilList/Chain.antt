-- ===== src/AilList/Chain.antt =====
-- Runs of linked elements: what the memory holds for a sequence of cells, and how it changes.
use mathlib.Core.Bool.{or_assoc}
use cmdb.Base.{
  ◌≡◌, ◌≢◌, refl, sym, ◌∙◌, Bool, true, false, ◌||◌, Option, none, some, List, [], ◌∷◌, ◌++◌, ◌==◌,
  arith,
}
use cmdb.Heap.{Ptr, Elem, elem, write}
use cmdb.Heap.Cell.{Cell, Cell-write_self, Cell-write_ne}

-- The address and the item of each element, from the head on.
abbrev pub Cells : Type 0
Cells = List (Ptr × Ptr)

abbrev pub has : Ptr → Cells → Bool
has a [] = false
has a ((head, item) ∷ rest) = (a == head) || has a rest

-- The first address of a run that is followed by `stop`.
abbrev pub first : Cells → Ptr → Ptr
first [] stop = stop
first ((p, _) ∷ xs) stop = p

-- The last address of a run that stands behind `before`.
abbrev pub last : Ptr → Cells → Ptr
last before [] = before
last before ((p, _) ∷ xs) = last p xs

-- From `before` on, the distinct elements `xs` are linked in both directions up to `stop`.
abbrev pub Chain : (Ptr → Option Elem) → Ptr → Cells → Ptr → Type 0
Chain h before [] stop = Unit {0}
Chain h before ((p, item) ∷ xs) stop =
    Cell h p before (first xs stop) item × (has p xs ≡ false) × Chain h p xs stop

-- No address of the first run is in the second.
abbrev pub Apart : Cells → Cells → Type 0
Apart [] ys = Unit {0}
Apart ((p, _) ∷ xs) ys = (has p ys ≡ false) × Apart xs ys

pub has-append :
    (p : Ptr) (front back : Cells) → has p (front ++ back) ≡ (has p front || has p back)
has-append p [] back = refl
has-append p (cell ∷ front) back = rw (has-append p front back, or_assoc)

pub not_has-append :
    (a : Ptr) (xs ys : Cells) → has a xs ≡ false → has a ys ≡ false → has a (xs ++ ys) ≡ false
not_has-append a xs ys p q = rw (has-append a xs ys, p) q

or-false : (a b : Bool) → (a || b) ≡ false → (a ≡ false) × (b ≡ false)
or-false a b h = ground arith

pub not_has-split :
    (a : Ptr) (xs ys : Cells) → has a (xs ++ ys) ≡ false → (has a xs ≡ false) × (has a ys ≡ false)
not_has-split a xs ys h = or-false (has a xs) (has a ys) (sym (has-append a xs ys) ∙ h)

pub not_has-cons :
    (a p i : Ptr) (xs : Cells)
    → has a ((p, i) ∷ xs) ≡ false
    → (p ≢ a) × (a ≢ p) × (has a xs ≡ false)
not_has-cons a p i xs h =
    let t : (a == p) ≡ false = (or-false (a == p) (has a xs) h).0 in
    (ground arith, ground arith, (or-false (a == p) (has a xs) h).1)

pub not_has-add :
    {a p : Ptr} (i : Ptr) (xs : Cells) → a ≢ p → has a xs ≡ false → has a ((p, i) ∷ xs) ≡ false
not_has-add i xs ne out = ground arith

pub first-append : (xs ys : Cells) (stop : Ptr) → first (xs ++ ys) stop ≡ first xs (first ys stop)
first-append [] ys stop = refl
first-append (x ∷ xs) ys stop = refl

pub last-append : (before : Ptr) (xs ys : Cells) → last before (xs ++ ys) ≡ last (last before xs) ys
last-append before [] ys = refl
last-append before ((p, _) ∷ xs) ys = last-append p xs ys

has-last : (p item : Ptr) (xs : Cells) → has (last p xs) ((p, item) ∷ xs) ≡ true
has-last p item [] = ground arith
has-last p item ((q, i) ∷ xs) = ground (arith, has-last q i xs)

pub last-ne : (a p item : Ptr) (xs : Cells) → has a ((p, item) ∷ xs) ≡ false → a ≢ last p xs
last-ne a p item xs out e = ground (arith, has-last p item xs)

module _ (h : Ptr → Option Elem) where
  -- A chain survives a write outside it.
  pub Chain-write :
      (before : Ptr) (xs : Cells) (stop a : Ptr) (c : Option Elem)
      → Chain h before xs stop
      → has a xs ≡ false
      → Chain (write h a c) before xs stop
  Chain-write before [] stop a c ch out = tt
  Chain-write before ((p, item) ∷ xs) stop a c (e, fresh, ch) out =
      (Cell-write_ne a c e (ground arith), fresh, Chain-write p xs stop a c ch (ground arith))

  -- A chain survives any change that spares its addresses.
  pub Chain-same :
      (g : Ptr → Option Elem) (before : Ptr) (xs : Cells) (stop : Ptr)
      → Chain h before xs stop
      → ((a : Ptr) → has a xs ≡ true → g a ≡ h a)
      → Chain g before xs stop
  Chain-same g before [] stop ch same = tt
  Chain-same g before ((p, item) ∷ xs) stop (e, fresh, ch) same = (
    record { ne_null = e.ne_null; holds = same p (ground arith) ∙ e.holds },
    fresh,
    Chain-same g p xs stop ch (λ a i. same a (ground arith)),
  )

  -- The first element of a chain gets another predecessor.
  pub Chain-relink_prev :
      (before before' p item stop : Ptr) (xs : Cells)
      → Chain h before ((p, item) ∷ xs) stop
      → Chain (write h p (some (elem before' (first xs stop) item))) before' ((p, item) ∷ xs) stop
  Chain-relink_prev before before' p item stop xs (e, fresh, ch) = (
    Cell-write_self h p before' (first xs stop) item e.ne_null,
    fresh,
    Chain-write p xs stop p _ ch fresh,
  )

  -- The cell at the end of a chain that is not empty.
  pub Chain-last :
      (before p item stop : Ptr) (xs : Cells)
      → Chain h before ((p, item) ∷ xs) stop
      → (q : Ptr) × (i : Ptr) × Cell h (last p xs) q stop i
  Chain-last before p item stop [] (e, _, _) = (before, item, e)
  Chain-last before p item stop ((q, i) ∷ xs) (e, _, ch) = Chain-last p q i stop xs ch

  -- The last element of a chain gets another successor.
  pub Chain-relink_next :
      (before p item stop stop' q i : Ptr) (xs : Cells)
      → Chain h before ((p, item) ∷ xs) stop
      → Cell h (last p xs) q stop i
      → Chain (write h (last p xs) (some (elem q stop' i))) before ((p, item) ∷ xs) stop'
  unfolding write
  Chain-relink_next before p item stop stop' q i [] (e, fresh, ch) at = (ground arith, refl, tt)
  Chain-relink_next before p item stop stop' q i ((p', item') ∷ xs) (e, fresh, ch) at = (
    Cell-write_ne (last p' xs) _ e (ground (arith, has-last p' item' xs)),
    fresh,
    Chain-relink_next p p' item' stop stop' q i xs ch at,
  )

  pub Chain-split :
      (before : Ptr) (xs ys : Cells) (stop : Ptr)
      → Chain h before (xs ++ ys) stop
      → Chain h before xs (first ys stop) × Chain h (last before xs) ys stop × Apart xs ys
  Chain-split before [] ys stop ch = (tt, ch, tt)
  Chain-split before ((p, item) ∷ xs) ys stop (e, fresh, ch) =
      let (l, r, apart) = Chain-split p xs ys stop ch in
      let out = not_has-split p xs ys fresh in
      ((rw (first-append xs ys stop) at e, out.0, l), r, (out.1, apart))

  pub Chain-append :
      (before : Ptr) (xs ys : Cells) (stop : Ptr)
      → Chain h before xs (first ys stop)
      → Chain h (last before xs) ys stop
      → Apart xs ys
      → Chain h before (xs ++ ys) stop
  Chain-append before [] ys stop l r apart = r
  Chain-append before ((p, item) ∷ xs) ys stop (e, fresh, l) r (out, apart) = (
    rw (first-append xs ys stop) e,
    not_has-append p xs ys fresh out,
    Chain-append p xs ys stop l r apart,
  )

  -- An address that holds nothing is in no chain.
  pub not_has_of_none :
      (before : Ptr) (xs : Cells) (stop a : Ptr)
      → Chain h before xs stop
      → h a ≡ none
      → has a xs ≡ false
  not_has_of_none before [] stop a ch unused = refl
  not_has_of_none before ((p, item) ∷ xs) stop a (e, fresh, ch) unused =
      ground (arith, e.holds, not_has_of_none p xs stop a ch unused)

pub Apart-cons : (xs : Cells) (p item : Ptr) → has p xs ≡ false → Apart xs ((p, item) ∷ [])
Apart-cons [] p item out = tt
Apart-cons ((q, i) ∷ xs) p item out = (ground arith, Apart-cons xs p item (ground arith))

-- A run is apart from another with an address more.
pub Apart-insert :
    (xs ys : Cells) (e d p item : Ptr)
    → Apart xs ((e, d) ∷ ys)
    → has p xs ≡ false
    → Apart xs ((e, d) ∷ (p, item) ∷ ys) × Apart xs ((p, item) ∷ (e, d) ∷ ys)
Apart-insert [] ys e d p item apart out = (tt, tt)
Apart-insert ((q, i) ∷ xs) ys e d p item (here, apart) out =
    let rest = Apart-insert xs ys e d p item apart (ground arith) in
    ((ground arith, rest.0), (ground arith, rest.1))

pub Apart-tail :
    (xs ys : Cells) (e d : Ptr) → Apart xs ((e, d) ∷ ys) → (has e xs ≡ false) × Apart xs ys
Apart-tail [] ys e d apart = (refl, tt)
Apart-tail ((q, i) ∷ xs) ys e d (here, apart) =
    let rest = Apart-tail xs ys e d apart in (ground arith, (ground arith, rest.1))

pub Apart-last : (p i : Ptr) (xs ys : Cells) → Apart ((p, i) ∷ xs) ys → has (last p xs) ys ≡ false
Apart-last p i [] ys (out, _) = out
Apart-last p i ((q, j) ∷ xs) ys (_, apart) = Apart-last q j xs ys apart
