-- ===== src/AilList/Cut.antt =====
-- Removal of the only element, of the first, of the last, and of one between others.
use cmdb.Base.{
  ℕ, suc, ◌-◌, ◌≡◌, ◌≢◌, refl, ◌∙◌, Bool, true, false, Option, none, some, [], ◌∷◌, ◌++◌, ◌==◌,
  if◌then◌else◌, arith, ℤ, pos,
}
use cmdb.Heap.{Ptr, null, Elem, elem, Heap, write}
use cmdb.Heap.Cell.{Cell-write_ne, set_prev-ok, set_next-ok, load-ok, free-ok}
use cmdb.Heap.Returns.{Returns, returns}
use cmdb.AilList.{AilList, ailsa_list_remove}
use cmdb.AilList.Chain.{
  Cells, has, first, last, Chain, Chain-write, Chain-relink_prev, Chain-last, Chain-relink_next,
  Chain-split, Chain-append, Apart-tail, last-ne, Apart-last, not_has-split, not_has-cons,
}
use cmdb.AilList.Insert.{put}
use cmdb.AilList.Link.{struct, ne→==, ne→==_false, suc-ne}

abbrev drop : Heap → Ptr → Heap
drop h p = record h { cell = write h.cell p none }

-- The memory at `e` is free, and unchanged outside `e` and `ws`.
abbrev pub Spares : Ptr → Cells → (Ptr → Option Elem) → (Ptr → Option Elem) → Type 0
Spares e ws h g = (a : Ptr) → g a ≡ (if a == e then none else if has a ws then g a else h a)

abbrev pub Cut : Heap → AilList → Cells → Ptr → Ptr → ℤ × Option Ptr × AilList → Heap → Type 0
Cut h made ws e d (retval, out, list) g =
    (retval ≡ pos 0)
    × (out ≡ some d)
    × (list ≡ made)
    × Chain g.cell null ws null
    × Spares e ws h.cell g.cell
    × (g.destroyed ≡ h.destroyed)

write_ne :
    (h : Ptr → Option Elem) (p : Ptr) (c : Option Elem) (a : Ptr) → a ≢ p → write h p c a ≡ h a
unfolding write
write_ne h p c a ne = ground arith

Spares-intro :
    (e : Ptr) (ws : Cells) (h g : Ptr → Option Elem)
    → g e ≡ none
    → ((a : Ptr) → has a ws ≡ false → a ≢ e → g a ≡ h a)
    → Spares e ws h g
Spares-intro e ws h g freed same a = ground (arith, same a)

write-none : (h : Ptr → Option Elem) (p : Ptr) → write h p none p ≡ none
unfolding write
write-none h p = ground arith

==-refl : (n : ℕ) → (n == n) ≡ true
==-refl n = ground arith

module _ (h : Heap) (destroy : Bool) (e d n : ℕ) (tail : Ptr) where
  pub only :
      Chain h.cell null ((e, d) ∷ []) null
      → Returns
          (Cut h (struct destroy (suc n - 1) null null) [] e d)
          (ailsa_list_remove (struct destroy (suc n) e tail) e h)
  unfolding ailsa_list_remove
  only (at, _, _) =
      let not_null : (e == null) ≡ false = ne→== at.ne_null in
      rw (not_null, suc-ne n, load-ok h at, ==-refl e, free-ok h at)
        (returns (
          refl,
          refl,
          refl,
          tt,
          Spares-intro e [] h.cell (drop h e).cell (write-none h.cell e)
              (λ a o ne. write_ne h.cell e none a ne),
          refl,
        ))

  pub at_head :
      (b i : Ptr) (ys : Cells)
      → Chain h.cell null ((e, d) ∷ (b, i) ∷ ys) null
      → Returns
          (Cut h (struct destroy (suc n - 1) b tail) ((b, i) ∷ ys) e d)
          (ailsa_list_remove (struct destroy (suc n) e tail) e h)
  unfolding ailsa_list_remove
  at_head b i ys (at, e_ys, r) =
      let (be, eb, _) = not_has-cons e b i ys e_ys in
      let bt = r.0 in
      let h1 = put h b (elem null (first ys null) i) in
      let at1 = Cell-write_ne b (some (elem null (first ys null) i)) at eb in
      let not_null : (e == null) ≡ false = ne→== at.ne_null in
      let b_not_null : (b == null) ≡ false = ne→== bt.ne_null in
      rw
        (
          not_null,
          suc-ne n,
          load-ok h at,
          ==-refl e,
          b_not_null,
          set_prev-ok h bt null,
          free-ok h1 at1,
        )
        (returns (
          refl,
          refl,
          refl,
          Chain-write h1.cell _ ((b, i) ∷ ys) _ e none
              (Chain-relink_prev h.cell e null b i null ys r) e_ys,
          Spares-intro e ((b, i) ∷ ys) h.cell (drop h1 e).cell (write-none h1.cell e) (λ a o ne.
              write_ne h1.cell e none a ne
              ∙ write_ne h.cell b (some (elem null (first ys null) i)) a
                  (not_has-cons a b i ys o).1),
          refl,
        ))

  pub at_tail :
      (p i : Ptr) (xs : Cells)
      → Chain h.cell null (((p, i) ∷ xs) ++ ((e, d) ∷ [])) null
      → Returns
          (Cut h (struct destroy (suc n - 1) p (last p xs)) ((p, i) ∷ xs) e d)
          (ailsa_list_remove (struct destroy (suc n) p tail) e h)
  unfolding ailsa_list_remove
  at_tail p i xs ch =
      let ws : Cells = (p, i) ∷ xs in
      let (l, (at, _, _), apart) = Chain-split h.cell null ws ((e, d) ∷ []) null ch in
      let (e_ws, _) = Apart-tail ws [] e d apart in
      let (pe, ep, _) = not_has-cons e p i xs e_ws in
      let before = last p xs in
      let (q, j, bt) = Chain-last h.cell null p i e xs l in
      let h1 = put h before (elem q null j) in
      let at1 = Cell-write_ne before (some (elem q null j)) at (last-ne e p i xs e_ws) in
      let not_null : (e == null) ≡ false = ne→== at.ne_null in
      rw (not_null, suc-ne n, load-ok h at, ne→==_false ep, set_next-ok h bt null, free-ok h1 at1)
        (returns (
          refl,
          refl,
          refl,
          Chain-write h1.cell _ ws _ e none (Chain-relink_next h.cell null p i e null q j xs l bt)
              e_ws,
          Spares-intro e ws h.cell (drop h1 e).cell (write-none h1.cell e) (λ a o ne.
              write_ne h1.cell e none a ne
              ∙ write_ne h.cell before (some (elem q null j)) a (last-ne a p i xs o)),
          refl,
        ))

  pub inside :
      (p i : Ptr) (xs : Cells) (b k : Ptr) (ys : Cells)
      → Chain h.cell null (((p, i) ∷ xs) ++ ((e, d) ∷ (b, k) ∷ ys)) null
      → Returns
          (Cut h (struct destroy (suc n - 1) p tail) (((p, i) ∷ xs) ++ ((b, k) ∷ ys)) e d)
          (ailsa_list_remove (struct destroy (suc n) p tail) e h)
  unfolding ailsa_list_remove
  inside p i xs b k ys ch =
      let ws : Cells = (p, i) ∷ xs in
      let (l, (at, e_ys, r), apart) = Chain-split h.cell null ws ((e, d) ∷ (b, k) ∷ ys) null ch in
      let (e_ws, apart') = Apart-tail ws ((b, k) ∷ ys) e d apart in
      let (b_ws, _) = Apart-tail ws ys b k apart' in
      let (pe, ep, _) = not_has-cons e p i xs e_ws in
      let (be, eb, _) = not_has-cons e b k ys e_ys in
      let before = last p xs in
      let stop = first ys null in
      let (q, j, pt) = Chain-last h.cell null p i e xs l in
      let h1 = put h before (elem q b j) in
      let l1 = Chain-relink_next h.cell null p i e b q j xs l pt in
      let at1 = Cell-write_ne before (some (elem q b j)) at (last-ne e p i xs e_ws) in
      let r1 : Chain h1.cell e ((b, k) ∷ ys) null =
        Chain-write h.cell e ((b, k) ∷ ys) null before _ r
          (Apart-last p i xs ((b, k) ∷ ys) apart') in
      let bt1 = r1.0 in
      let h2 = put h1 b (elem before stop k) in
      let at2 = Cell-write_ne b (some (elem before stop k)) at1 eb in
      let l2 = Chain-write h1.cell null ws b b (some (elem before stop k)) l1 b_ws in
      let r2 = Chain-relink_prev h1.cell e before b k null ys r1 in
      let not_null : (e == null) ≡ false = ne→== at.ne_null in
      let b_not_null : (b == null) ≡ false = ne→== bt1.ne_null in
      rw
        (
          not_null,
          suc-ne n,
          load-ok h at,
          ne→==_false ep,
          set_next-ok h pt b,
          b_not_null,
          set_prev-ok h1 bt1 before,
          free-ok h2 at2,
        )
        (returns (
          refl,
          refl,
          refl,
          Chain-append (drop h2 e).cell null ws ((b, k) ∷ ys) null
              (Chain-write h2.cell _ ws _ e none l2 e_ws)
              (Chain-write h2.cell _ ((b, k) ∷ ys) _ e none r2 e_ys) apart',
          Spares-intro e (ws ++ ((b, k) ∷ ys)) h.cell (drop h2 e).cell (write-none h2.cell e)
              (λ a o ne.
                let (o_ws, o_ys) = not_has-split a ws ((b, k) ∷ ys) o in
                write_ne h2.cell e none a ne
                ∙ write_ne h1.cell b (some (elem before stop k)) a (not_has-cons a b k ys o_ys).1
                ∙ write_ne h.cell before (some (elem q b j)) a (last-ne a p i xs o_ws)),
          refl,
        ))
