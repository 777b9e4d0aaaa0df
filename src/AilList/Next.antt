-- ===== src/AilList/Next.antt =====
-- Insertion behind an element of the list.
use cmdb.Base.{
  ℕ, suc, ◌+◌, ◌≡◌, ◌≢◌, refl, sym, ap, subst, ◌∙◌, Bool, false, none, some, [], ◌∷◌, ◌++◌, ◌==◌,
  arith, length,
}
use cmdb.Heap.{Ptr, null, elem, Heap}
use cmdb.Heap.Cell.{Cell-write_self, Cell-write_ne, set_prev-ok, set_next-ok, load-ok}
use cmdb.Heap.Returns.{Returns, returns}
use cmdb.AilList.{ailsa_list_ins_next}
use cmdb.AilList.Chain.{
  Cells, first, last, Chain, Chain-write, Chain-split, Chain-append, not_has_of_none, Apart-insert,
  Apart-tail, not_has-split, not_has-cons, not_has-add,
}
use cmdb.AilList.Insert.{of_cells, put}
use cmdb.AilList.Link.{
  of_cells-middle, struct, Made, Inserted, ne→==, suc-ne, Chain-thrice, Made→Inserted,
}

module _ (h : Heap) (destroy : Bool) (fresh item : Ptr) (new : fresh ≢ null)
    (unused : h.cell fresh ≡ none) (xs : Cells) (e d : Ptr) (n : ℕ) (head tail : Ptr) where
  next_at_end :
      Chain h.cell null (xs ++ ((e, d) ∷ [])) null
      → Returns
          (Made h (struct destroy (suc n + 1) head fresh) (xs ++ ((e, d) ∷ (fresh, item) ∷ [])))
          (ailsa_list_ins_next fresh (struct destroy (suc n) head tail) e item h)
  unfolding ailsa_list_ins_next
  next_at_end ch =
      let out = not_has_of_none h.cell null (xs ++ ((e, d) ∷ [])) null fresh ch unused in
      let (out_xs, out_e) = not_has-split fresh xs ((e, d) ∷ []) out in
      let (l, (at, _, _), apart) = Chain-split h.cell null xs ((e, d) ∷ []) null ch in
      let (e_xs, _) = Apart-tail xs [] e d apart in
      let (ne, fe, _) = not_has-cons fresh e d [] out_e in
      let before = last null xs in
      let h1 = put h fresh (elem null null item) in
      let h2 = put h1 fresh (elem null null item) in
      let h3 = put h2 fresh (elem e null item) in
      let at1 = Cell-write_ne fresh (some (elem null null item)) at ne in
      let at2 = Cell-write_ne fresh (some (elem null null item)) at1 ne in
      let at3 = Cell-write_ne fresh (some (elem e null item)) at2 ne in
      let not_null : (e == null) ≡ false = ne→== at.ne_null in
      rw
        (
          not_null,
          suc-ne n,
          load-ok h1 at1,
          set_next-ok h1 (Cell-write_self h.cell fresh null null item new) null,
          set_prev-ok h2 (Cell-write_self h1.cell fresh null null item new) e,
          set_next-ok h3 at3 fresh,
        )
        (returns (
          refl,
          refl,
          Chain-append (put h3 e (elem before fresh d)).cell null xs ((e, d) ∷ (fresh, item) ∷ [])
              null
              (Chain-write h3.cell _ xs _ e _ (Chain-thrice h _ xs _ fresh _ _ _ out_xs l) e_xs)
              (
                Cell-write_self h3.cell e before fresh d at.ne_null,
                not_has-add item [] ne refl,
                (
                  Cell-write_ne e (some (elem before fresh d))
                      (Cell-write_self h2.cell fresh e null item new) fe,
                  refl,
                  tt,
                ),
              )
              (Apart-insert xs [] e d fresh item apart out_xs).0,
          refl,
        ))

  next_in_middle :
      (b i : Ptr) (ys : Cells)
      → Chain h.cell null (xs ++ ((e, d) ∷ (b, i) ∷ ys)) null
      → Returns
          (Made h
            (struct destroy (suc n + 1) head tail)
            (xs ++ ((e, d) ∷ (fresh, item) ∷ (b, i) ∷ ys)))
          (ailsa_list_ins_next fresh (struct destroy (suc n) head tail) e item h)
  unfolding ailsa_list_ins_next
  next_in_middle b i ys ch =
      let out = not_has_of_none h.cell null (xs ++ ((e, d) ∷ (b, i) ∷ ys)) null fresh ch unused in
      let (out_xs, out_e) = not_has-split fresh xs ((e, d) ∷ (b, i) ∷ ys) out in
      let (l, (at, e_ys, (bt, b_ys, r)), apart) =
        Chain-split h.cell null xs ((e, d) ∷ (b, i) ∷ ys) null ch in
      let (e_xs, apart') = Apart-tail xs ((b, i) ∷ ys) e d apart in
      let (b_xs, _) = Apart-tail xs ys b i apart' in
      let (ne, fe, out_b) = not_has-cons fresh e d ((b, i) ∷ ys) out_e in
      let (nb, fb, out_ys) = not_has-cons fresh b i ys out_b in
      let (be, eb, out_e_ys) = not_has-cons e b i ys e_ys in
      let before = last null xs in
      let stop = first ys null in
      let h1 = put h fresh (elem null null item) in
      let h2 = put h1 fresh (elem null b item) in
      let h3 = put h2 fresh (elem e b item) in
      let h4 = put h3 b (elem fresh stop i) in
      let at1 = Cell-write_ne fresh (some (elem null null item)) at ne in
      let at3 =
        Cell-write_ne fresh (some (elem e b item))
          (Cell-write_ne fresh (some (elem null b item)) at1 ne) ne in
      let bt1 = Cell-write_ne fresh (some (elem null null item)) bt nb in
      let bt3 =
        Cell-write_ne fresh (some (elem e b item))
          (Cell-write_ne fresh (some (elem null b item)) bt1 nb) nb in
      let at4 = Cell-write_ne b (some (elem fresh stop i)) at3 eb in
      let f3 = Cell-write_self h2.cell fresh e b item new in
      let not_null : (e == null) ≡ false = ne→== at.ne_null in
      let b_not_null : (b == null) ≡ false = ne→== bt.ne_null in
      rw
        (
          not_null,
          suc-ne n,
          load-ok h1 at1,
          set_next-ok h1 (Cell-write_self h.cell fresh null null item new) b,
          set_prev-ok h2 (Cell-write_self h1.cell fresh null b item new) e,
          b_not_null,
          set_prev-ok h3 bt3 fresh,
          set_next-ok h4 at4 fresh,
        )
        (returns (
          refl,
          refl,
          Chain-append (put h4 e (elem before fresh d)).cell null xs
              ((e, d) ∷ (fresh, item) ∷ (b, i) ∷ ys) null
              (Chain-write h4.cell _ xs _ e _
                (Chain-write h3.cell _ xs _ b _ (Chain-thrice h _ xs _ fresh _ _ _ out_xs l) b_xs)
                e_xs)
              (
                Cell-write_self h4.cell e before fresh d at.ne_null,
                not_has-add item ((b, i) ∷ ys) ne e_ys,
                (
                  Cell-write_ne e (some (elem before fresh d))
                      (Cell-write_ne b (some (elem fresh stop i)) f3 fb) fe,
                  out_b,
                  (
                    Cell-write_ne e (some (elem before fresh d))
                        (Cell-write_self h3.cell b fresh stop i bt.ne_null) be,
                    b_ys,
                    Chain-write h4.cell _ ys _ e _
                        (Chain-write h3.cell _ ys _ b _ (Chain-thrice h _ ys _ fresh _ _ _ out_ys r)
                          b_ys)
                        out_e_ys,
                  ),
                ),
              )
              (Apart-insert xs ((b, i) ∷ ys) e d fresh item apart out_xs).0,
          refl,
        ))

module _ (h : Heap) (destroy : Bool) (fresh item : Ptr) (new : fresh ≢ null)
    (unused : h.cell fresh ≡ none) where
  -- On a well-formed list `ailsa_list_ins_next` puts a new element with the item right behind the
  -- given element, wherever that stands, keeps the order of all the others, which stay linked in
  -- both directions, destroys nothing, and returns 0. The address of the new element is not NULL
  -- and was not in use.
  pub ins_next_lem :
      (xs ys : Cells) (e d : Ptr)
      → Chain h.cell null (xs ++ ((e, d) ∷ ys)) null
      → Returns
          (Inserted h destroy (xs ++ ((e, d) ∷ (fresh, item) ∷ ys)))
          (ailsa_list_ins_next fresh (of_cells destroy (xs ++ ((e, d) ∷ ys))) e item h)
  ins_next_lem xs [] e d ch =
      subst
        (λ l.
          Returns (Inserted h destroy (xs ++ ((e, d) ∷ (fresh, item) ∷ [])))
            (ailsa_list_ins_next fresh l e item h))
        (sym (of_cells-middle destroy xs [] e d))
        (Made→Inserted h destroy _ _
          (ap (λ k. struct destroy k (first xs e) fresh) (omega arith)
            ∙ sym (of_cells-middle destroy xs ((fresh, item) ∷ []) e d))
          (next_at_end h destroy fresh item new unused xs e d (length xs + 0) (first xs e) e ch))
  ins_next_lem xs ((b, i) ∷ ys) e d ch =
      subst
        (λ l.
          Returns (Inserted h destroy (xs ++ ((e, d) ∷ (fresh, item) ∷ (b, i) ∷ ys)))
            (ailsa_list_ins_next fresh l e item h))
        (sym (of_cells-middle destroy xs ((b, i) ∷ ys) e d))
        (Made→Inserted h destroy _ _
          (ap (λ k. struct destroy k (first xs e) (last b ys)) (omega arith)
            ∙ sym (of_cells-middle destroy xs ((fresh, item) ∷ (b, i) ∷ ys) e d))
          (next_in_middle h destroy fresh item new unused xs e d (length xs + suc (length ys))
            (first xs e) (last b ys) b i ys ch))
