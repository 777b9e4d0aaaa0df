-- ===== src/AilList/Remove.antt =====
-- Removal of an element, wherever it stands in the list.
use cmdb.Base.{
  suc, ◌+◌, ◌-◌, ◌≡◌, sym, ap, subst, ◌∙◌, Bool, Option, [], ◌∷◌, ◌++◌, arith, length, ℤ,
  append-nil,
}
use cmdb.Heap.{Ptr, null, Heap, Run}
use cmdb.Heap.Returns.{Returns, returns}
use cmdb.AilList.{AilList, ailsa_list_remove}
use cmdb.AilList.Chain.{Cells, last, Chain}
use cmdb.AilList.Insert.{of_cells}
use cmdb.AilList.Link.{of_cells-middle, struct}
use cmdb.AilList.Cut.{Cut, only, at_head, at_tail, inside}

-- The item came out, the list holds `ws`, the element is freed and nothing was destroyed.
abbrev pub Removed : Heap → Bool → Cells → Ptr → Ptr → ℤ × Option Ptr × AilList → Heap → Type 0
Removed h destroy ws e d r g = Cut h (of_cells destroy ws) ws e d r g

Cut→Removed :
    (h : Heap) (destroy : Bool) (made : AilList) (ws : Cells) (e d : Ptr)
    {r : Run (ℤ × Option Ptr × AilList)}
    → made ≡ of_cells destroy ws
    → Returns (Cut h made ws e d) r
    → Returns (Removed h destroy ws e d) r
Cut→Removed h destroy made ws e d eq (returns (a, b, c, f, g, k)) = returns (a, b, c ∙ eq, f, g, k)

module _ (h : Heap) (destroy : Bool) where
  -- On a well-formed list `ailsa_list_remove` takes the given element out, wherever that stands:
  -- it returns 0 and the item, keeps the order of the others, which stay linked in both
  -- directions, frees the element, destroys nothing, and changes no memory outside the list.
  pub remove_lem :
      (xs ys : Cells) (e d : Ptr)
      → Chain h.cell null (xs ++ ((e, d) ∷ ys)) null
      → Returns
          (Removed h destroy (xs ++ ys) e d)
          (ailsa_list_remove (of_cells destroy (xs ++ ((e, d) ∷ ys))) e h)
  remove_lem [] [] e d ch =
      let count : suc 0 - 1 ≡ 0 = omega arith in
      Cut→Removed h destroy _ [] e d (ap (λ k. struct destroy k null null) count)
        (only h destroy e d 0 e ch)
  remove_lem [] ((b, k) ∷ ys) e d ch =
      let count : suc (suc (length ys)) - 1 ≡ suc (length ys) = omega arith in
      Cut→Removed h destroy _ ((b, k) ∷ ys) e d (ap (λ n. struct destroy n b (last b ys)) count)
        (at_head h destroy e d (suc (length ys)) (last b ys) b k ys ch)
  remove_lem ((p, i) ∷ xs) [] e d ch =
      let count : suc (suc (length xs) + 0) - 1 ≡ suc (length xs) = omega arith in
      rw append-nil (
        subst (λ l. Returns (Removed h destroy ((p, i) ∷ xs) e d) (ailsa_list_remove l e h))
          (sym (of_cells-middle destroy ((p, i) ∷ xs) [] e d))
          (Cut→Removed h destroy _ ((p, i) ∷ xs) e d
            (ap (λ n. struct destroy n p (last p xs)) count)
            (at_tail h destroy e d (suc (length xs) + 0) e p i xs ch)))
  remove_lem ((p, i) ∷ xs) ((b, k) ∷ ys) e d ch =
      let count : suc (suc (length xs) + suc (length ys)) - 1 ≡ suc (suc (length xs) + length ys) =
        omega arith in
      subst
        (λ l.
          Returns (Removed h destroy ((p, i) ∷ (xs ++ ((b, k) ∷ ys))) e d)
            (ailsa_list_remove l e h))
        (sym (of_cells-middle destroy ((p, i) ∷ xs) ((b, k) ∷ ys) e d))
        (Cut→Removed h destroy _ ((p, i) ∷ (xs ++ ((b, k) ∷ ys))) e d
          (ap (λ n. struct destroy n p (last b ys)) count
            ∙ sym (of_cells-middle destroy ((p, i) ∷ xs) ys b k))
          (inside h destroy e d (suc (length xs) + suc (length ys)) (last b ys) p i xs b k ys ch))
