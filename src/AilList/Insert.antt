-- ===== src/AilList/Insert.antt =====
-- Insertion: at the tail, behind an element and before one.
use cmdb.Base.{
  suc, ◌+◌, ◌≡◌, ◌≢◌, refl, sym, ap, Bool, false, Option, none, some, [], ◌∷◌, ◌++◌, ◌==◌, arith,
  length, ℤ, pos, length-append,
}
use cmdb.Heap.{Ptr, null, Elem, elem, Heap, write}
use cmdb.Heap.Cell.{Cell-write_self, Cell-write_ne, set_prev-ok, set_next-ok}
use cmdb.Heap.Returns.{Returns, returns}
use cmdb.AilList.{AilList, ailsa_list_insert}
use cmdb.AilList.Chain.{
  Cells, first, last, Chain, Chain-write, Chain-last, Chain-relink_next, Chain-append,
  not_has_of_none, Apart-cons, last-ne,
}

-- The memory after a write.
abbrev pub put : Heap → Ptr → Elem → Heap
put h p e = record h { cell = write h.cell p (some e) }

-- The struct of the list of these elements.
abbrev pub of_cells : Bool → Cells → AilList
of_cells destroy xs = record {
  total = length xs;
  destroy = destroy;
  head = first xs null;
  tail = last null xs;
}

pub last-append_one : (before p item : Ptr) (xs : Cells) → last before (xs ++ ((p, item) ∷ [])) ≡ p
last-append_one before p item [] = refl
last-append_one before p item ((q, i) ∷ xs) = last-append_one q p item xs

of_cells-append_one :
    (destroy : Bool) (x : Ptr × Ptr) (xs : Cells) (p item : Ptr)
    → of_cells destroy (x ∷ (xs ++ ((p, item) ∷ [])))
      ≡ record { total = length (x ∷ xs) + 1; destroy = destroy; head = x.0; tail = p }
of_cells-append_one destroy x xs p item =
    ground (arith, length-append xs ((p, item) ∷ []), last-append_one x.0 p item xs)

-- The list holds `xs`, and nothing was destroyed on the way.
abbrev pub Holds : Heap → Bool → Cells → ℤ × Option AilList → Heap → Type 0
Holds h destroy xs (retval, list) g =
    (retval ≡ pos 0)
    × (list ≡ some (of_cells destroy xs))
    × Chain g.cell null xs null
    × (g.destroyed ≡ h.destroyed)

module _ (h : Heap) (destroy : Bool) (fresh item : Ptr) (new : fresh ≢ null)
    (unused : h.cell fresh ≡ none) where
  -- On a well-formed list, empty or not, `ailsa_list_insert` puts an item that is not NULL behind
  -- the last element, in a new element linked in both directions, destroys nothing, and returns 0.
  -- The address of the new element is not NULL and was not in use.
  pub insert-append :
      (xs : Cells)
      → Chain h.cell null xs null
      → item ≢ null
      → Returns
          (Holds h destroy (xs ++ ((fresh, item) ∷ [])))
          (ailsa_list_insert fresh (some (of_cells destroy xs)) item h)
  unfolding ailsa_list_insert
  insert-append [] ch given =
      let e : (item == null) ≡ false = ground arith in
      rw e (returns (refl, refl, (Cell-write_self h.cell fresh null null item new, refl, tt), refl))
  insert-append ((p, i) ∷ xs) ch given =
      let e : (item == null) ≡ false = ground arith in
      let m : (suc (length xs) == 0) ≡ false = ground arith in
      let tail = last p xs in
      let out = not_has_of_none h.cell null ((p, i) ∷ xs) null fresh ch unused in
      let h1 = put h fresh (elem null null item) in
      let ch1 = Chain-write h.cell null ((p, i) ∷ xs) null fresh _ ch out in
      let (q, j, at) = Chain-last h1.cell null p i null xs ch1 in
      let h2 = put h1 tail (elem q fresh j) in
      let ch2 = Chain-relink_next h1.cell null p i null fresh q j xs ch1 at in
      let c2 =
        Cell-write_ne tail (some (elem q fresh j)) (Cell-write_self h.cell fresh null null item new)
          (last-ne fresh p i xs out) in
      let h3 = put h2 fresh (elem tail null item) in
      let c3 = Cell-write_self h2.cell fresh tail null item new in
      let ch3 = Chain-write h2.cell null ((p, i) ∷ xs) fresh fresh _ ch2 out in
      let ch4 = Chain-write h3.cell null ((p, i) ∷ xs) fresh fresh _ ch3 out in
      rw (e, m, set_next-ok h1 at fresh, set_prev-ok h2 c2 tail, set_next-ok h3 c3 null)
        (returns (
          refl,
          ap some (sym (of_cells-append_one destroy (p, i) xs fresh item)),
          Chain-append (put h3 fresh (elem tail null item)).cell null ((p, i) ∷ xs)
              ((fresh, item) ∷ []) null ch4
              (Cell-write_self h3.cell fresh tail null item new, refl, tt)
              (Apart-cons ((p, i) ∷ xs) fresh item out),
          refl,
        ))
