-- ===== src/AilList/Copied.antt =====
-- The insertion of a copy of an element into an `AILLIST`.
use cmdb.Base.{ℕ, suc, ◌≡◌, ◌≢◌, refl, ap, Bool, false, none, some, [], ◌∷◌, ◌++◌, ◌==◌, arith, ℤ}
use cmdb.Heap.{Ptr, null, Heap, Run, pure, and_then}
use cmdb.Heap.Cell.{Cell, load-ok}
use cmdb.Heap.Returns.{Returns, returns, Returns-and_then}
use cmdb.AilList.{AilList}
use cmdb.AilList.Chain.{Cells, Chain}
use cmdb.AilList.Insert.{of_cells, Holds, last-append_one}
use cmdb.AilList.Link.{Inserted, ne→==_false}
use cmdb.AilList.Next.{ins_next_lem}
use cmdb.AilList.Prev.{ins_prev_lem}
use cmdb.AilList.Clone.{Action, before, after, head, tail, placed, ailsa_list_insert_clone}

placed-Holds :
    (h : Heap) (destroy : Bool) (xs : Cells) (run : Run (ℤ × AilList))
    → Returns (Inserted h destroy xs) run
    → Returns (Holds h destroy xs) (and_then run (λ r. pure (placed r)))
placed-Holds h destroy xs run made =
    Returns-and_then made λ (code, list) g (zero_code, is_list, chain, kept).
      returns (rw zero_code refl, ap some is_list, chain, kept)

module _ (h : Heap) (destroy : Bool) (fresh copied : Ptr) (new : fresh ≢ null)
    (unused : h.cell fresh ≡ none) (copy p n i : Ptr) (at : Cell h.cell copy p n i) (size : ℕ) where
  -- The list with the copy in it.
  abbrev pub Copied : Cells → AilList → Ptr → Action → Type 0
  Copied xs list ptr action =
      Returns (Holds h destroy xs)
        (ailsa_list_insert_clone fresh copied (some list) copy ptr action (suc size) h)

  there : (copy == null) ≡ false
  there = ne→==_false at.ne_null

  some_size : (suc size == 0) ≡ false
  some_size = ground arith

  -- On a well-formed list `ailsa_list_insert_clone` puts a copy of the value right before the element
  -- that it is given, or right behind it, as the action says; the others keep their order and their
  -- links, nothing is destroyed, and the code is 0. The addresses of the new element and of the given one
  -- are not NULL, the first was not in use, the element to copy is there, and the size is not 0.
  pub insert_clone_lem :
      (xs ys : Cells) (e d : Ptr)
      → Chain h.cell null (xs ++ ((e, d) ∷ ys)) null
      → e ≢ null
      → Copied
          (xs ++ ((fresh, copied) ∷ (e, d) ∷ ys))
          (of_cells destroy (xs ++ ((e, d) ∷ ys)))
          e
          before
        × Copied
            (xs ++ ((e, d) ∷ (fresh, copied) ∷ ys))
            (of_cells destroy (xs ++ ((e, d) ∷ ys)))
            e
            after
  unfolding ailsa_list_insert_clone
  insert_clone_lem xs ys e d chain given =
      let c : (e == null) ≡ false = ne→==_false given in
      (
        rw (there, some_size, load-ok h at, c)
            (placed-Holds h destroy _ _
              (ins_prev_lem h destroy fresh copied new unused xs ys e d chain)),
        rw (there, some_size, load-ok h at, c)
            (placed-Holds h destroy _ _
              (ins_next_lem h destroy fresh copied new unused xs ys e d chain)),
      )

  pub insert_clone_first :
      (ys : Cells) (e d ptr : Ptr)
      → Chain h.cell null ((e, d) ∷ ys) null
      → Copied ((fresh, copied) ∷ (e, d) ∷ ys) (of_cells destroy ((e, d) ∷ ys)) ptr head
  unfolding ailsa_list_insert_clone
  insert_clone_first ys e d ptr chain =
      rw (there, some_size, load-ok h at)
        (placed-Holds h destroy ((fresh, copied) ∷ (e, d) ∷ ys) _
          (ins_prev_lem h destroy fresh copied new unused [] ys e d chain))

  pub insert_clone_last :
      (xs : Cells) (e d ptr : Ptr)
      → Chain h.cell null (xs ++ ((e, d) ∷ [])) null
      → Copied
          (xs ++ ((e, d) ∷ (fresh, copied) ∷ []))
          (of_cells destroy (xs ++ ((e, d) ∷ [])))
          ptr
          tail
  unfolding ailsa_list_insert_clone
  insert_clone_last xs e d ptr chain =
      rw (there, some_size, load-ok h at, last-append_one null e d xs)
        (rw (last-append_one null e d xs) at (
          placed-Holds h destroy _ _
            (ins_next_lem h destroy fresh copied new unused xs [] e d chain)))
