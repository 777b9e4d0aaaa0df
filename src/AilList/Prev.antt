-- ===== src/AilList/Prev.antt =====
-- Insertion before an element of the list.
use cmdb.Base.{
  ℕ, suc, ◌+◌, ◌≡◌, ◌≢◌, refl, sym, ap, subst, ◌∙◌, Bool, false, none, some, [], ◌∷◌, ◌++◌, ◌==◌,
  arith, length,
}
use cmdb.Heap.{Ptr, null, elem, Heap}
use cmdb.Heap.Cell.{Cell-write_self, Cell-write_ne, set_prev-ok, set_next-ok, load-ok}
use cmdb.Heap.Returns.{Returns, returns}
use cmdb.AilList.{ailsa_list_ins_prev}
use cmdb.AilList.Chain.{
  Cells, first, last, Chain, Chain-write, Chain-last, Chain-relink_next, Chain-split, Chain-append,
  not_has_of_none, Apart-insert, Apart-tail, last-ne, Apart-last, not_has-split, not_has-cons,
  not_has-add,
}
use cmdb.AilList.Insert.{of_cells, put}
use cmdb.AilList.Link.{
  of_cells-middle, struct, Made, Inserted, ne→==, suc-ne, Chain-thrice, Made→Inserted,
}

module _ (h : Heap) (destroy : Bool) (fresh item : Ptr) (new : fresh ≢ null)
    (unused : h.cell fresh ≡ none) (e d : Ptr) (ys : Cells) (n : ℕ) (head tail : Ptr) where
  prev_at_head :
      Chain h.cell null ((e, d) ∷ ys) null
      → Returns
          (Made h (struct destroy (suc n + 1) fresh tail) ((fresh, item) ∷ (e, d) ∷ ys))
          (ailsa_list_ins_prev fresh (struct destroy (suc n) head tail) e item h)
  unfolding ailsa_list_ins_prev
  prev_at_head (at, e_ys, r) =
      let out = not_has_of_none h.cell null ((e, d) ∷ ys) null fresh (at, e_ys, r) unused in
      let (ne, fe, out_ys) = not_has-cons fresh e d ys out in
      let stop = first ys null in
      let h1 = put h fresh (elem null null item) in
      let h2 = put h1 fresh (elem null e item) in
      let h3 = put h2 fresh (elem null e item) in
      let at1 = Cell-write_ne fresh (some (elem null null item)) at ne in
      let at2 = Cell-write_ne fresh (some (elem null e item)) at1 ne in
      let at3 = Cell-write_ne fresh (some (elem null e item)) at2 ne in
      let not_null : (e == null) ≡ false = ne→== at.ne_null in
      rw
        (
          not_null,
          suc-ne n,
          set_next-ok h1 (Cell-write_self h.cell fresh null null item new) e,
          load-ok h2 at2,
          set_prev-ok h2 (Cell-write_self h1.cell fresh null e item new) null,
          set_prev-ok h3 at3 fresh,
        )
        (returns (
          refl,
          refl,
          (
            Cell-write_ne e (some (elem fresh stop d))
                (Cell-write_self h2.cell fresh null e item new) fe,
            not_has-add d ys fe out_ys,
            (
              Cell-write_self h3.cell e fresh stop d at.ne_null,
              e_ys,
              Chain-write h3.cell _ ys _ e _ (Chain-thrice h _ ys _ fresh _ _ _ out_ys r) e_ys,
            ),
          ),
          refl,
        ))

  prev_in_middle :
      (p i : Ptr) (xs : Cells)
      → Chain h.cell null (((p, i) ∷ xs) ++ ((e, d) ∷ ys)) null
      → Returns
          (Made h
            (struct destroy (suc n + 1) head tail)
            (((p, i) ∷ xs) ++ ((fresh, item) ∷ (e, d) ∷ ys)))
          (ailsa_list_ins_prev fresh (struct destroy (suc n) head tail) e item h)
  unfolding ailsa_list_ins_prev
  prev_in_middle p i xs ch =
      let ws : Cells = (p, i) ∷ xs in
      let out = not_has_of_none h.cell null (ws ++ ((e, d) ∷ ys)) null fresh ch unused in
      let (out_ws, out_e) = not_has-split fresh ws ((e, d) ∷ ys) out in
      let (l, (at, e_ys, r), apart) = Chain-split h.cell null ws ((e, d) ∷ ys) null ch in
      let (e_ws, apart') = Apart-tail ws ys e d apart in
      let (ne, fe, out_ys) = not_has-cons fresh e d ys out_e in
      let before = last p xs in
      let stop = first ys null in
      let eb = last-ne e p i xs e_ws in
      let fb = last-ne fresh p i xs out_ws in
      let before_ys = Apart-last p i xs ys apart' in
      let h1 = put h fresh (elem null null item) in
      let h2 = put h1 fresh (elem null e item) in
      let h3 = put h2 fresh (elem before e item) in
      let at1 = Cell-write_ne fresh (some (elem null null item)) at ne in
      let at2 = Cell-write_ne fresh (some (elem null e item)) at1 ne in
      let at3 = Cell-write_ne fresh (some (elem before e item)) at2 ne in
      let l3 : Chain h3.cell null ws e = Chain-thrice h null ws e fresh _ _ _ out_ws l in
      let (q, j, bt) = Chain-last h3.cell null p i e xs l3 in
      let h4 = put h3 before (elem q fresh j) in
      let at4 = Cell-write_ne before (some (elem q fresh j)) at3 eb in
      let l4 = Chain-relink_next h3.cell null p i e fresh q j xs l3 bt in
      let not_null : (e == null) ≡ false = ne→== at.ne_null in
      let b_not_null : (before == null) ≡ false = ne→== bt.ne_null in
      let f3 = Cell-write_self h2.cell fresh before e item new in
      rw
        (
          not_null,
          suc-ne n,
          set_next-ok h1 (Cell-write_self h.cell fresh null null item new) e,
          load-ok h2 at2,
          set_prev-ok h2 (Cell-write_self h1.cell fresh null e item new) before,
          b_not_null,
          set_next-ok h3 bt fresh,
          set_prev-ok h4 at4 fresh,
        )
        (returns (
          refl,
          refl,
          Chain-append (put h4 e (elem fresh stop d)).cell null ws ((fresh, item) ∷ (e, d) ∷ ys)
              null (Chain-write h4.cell _ ws _ e _ l4 e_ws)
              (
                Cell-write_ne e (some (elem fresh stop d))
                    (Cell-write_ne before (some (elem q fresh j)) f3 fb) fe,
                out_e,
                (
                  Cell-write_self h4.cell e fresh stop d at.ne_null,
                  e_ys,
                  Chain-write h4.cell _ ys _ e _
                      (Chain-write h3.cell _ ys _ before _
                        (Chain-thrice h _ ys _ fresh _ _ _ out_ys r) before_ys)
                      e_ys,
                ),
              )
              (Apart-insert ws ys e d fresh item apart out_ws).1,
          refl,
        ))

module _ (h : Heap) (destroy : Bool) (fresh item : Ptr) (new : fresh ≢ null)
    (unused : h.cell fresh ≡ none) where
  -- On a well-formed list `ailsa_list_ins_prev` puts a new element with the item right before the
  -- given element, wherever that stands, keeps the order of all the others, which stay linked in
  -- both directions, destroys nothing, and returns 0. The address of the new element is not NULL
  -- and was not in use.
  pub ins_prev_lem :
      (xs ys : Cells) (e d : Ptr)
      → Chain h.cell null (xs ++ ((e, d) ∷ ys)) null
      → Returns
          (Inserted h destroy (xs ++ ((fresh, item) ∷ (e, d) ∷ ys)))
          (ailsa_list_ins_prev fresh (of_cells destroy (xs ++ ((e, d) ∷ ys))) e item h)
  ins_prev_lem [] ys e d ch =
      let count : suc (length ys) + 1 ≡ suc (suc (length ys)) = omega arith in
      Made→Inserted h destroy _ ((fresh, item) ∷ (e, d) ∷ ys)
        (ap (λ k. struct destroy k fresh (last e ys)) count)
        (prev_at_head h destroy fresh item new unused e d ys (length ys) e (last e ys) ch)
  ins_prev_lem ((p, i) ∷ xs) ys e d ch =
      subst
        (λ l.
          Returns (Inserted h destroy ((p, i) ∷ (xs ++ ((fresh, item) ∷ (e, d) ∷ ys))))
            (ailsa_list_ins_prev fresh l e item h))
        (sym (of_cells-middle destroy ((p, i) ∷ xs) ys e d))
        (Made→Inserted h destroy _ ((p, i) ∷ (xs ++ ((fresh, item) ∷ (e, d) ∷ ys)))
          (ap (λ k. struct destroy k p (last e ys)) (omega arith)
            ∙ sym (of_cells-middle destroy ((p, i) ∷ xs) ((e, d) ∷ ys) fresh item))
          (prev_in_middle h destroy fresh item new unused e d ys (suc (length xs) + length ys) p
            (last e ys) p i xs ch))
