-- ===== src/AilList/Access.antt =====
-- Walking a list: an element by its number, and the loops that pop an element.
use cmdb.Base.{
  ℕ, zero, suc, ◌-◌, ◌<◌, ◌≡◌, ◌≢◌, refl, Bool, false, some, [], ◌∷◌, ◌++◌, ◌==◌, arith, length,
  ltb_cases, inl, inr,
}
use cmdb.Heap.{Ptr, null, Heap, ok, out_of_fuel}
use cmdb.Heap.Cell.{Cell, load-ok}
use cmdb.AilList.{
  next_times, ailsa_list_get_element, ailsa_move_down_list, scan_next, ailsa_list_pop_element,
}
use cmdb.AilList.Chain.{
  Cells, first, last, Chain, Chain-split, Apart-tail, not_has-cons, last-append, last-ne,
}
use cmdb.AilList.Insert.{of_cells}
use cmdb.AilList.Link.{suc-ne, ne→==, ne→==_false}

-- The address of the element at a position from 0, or NULL behind the last.
abbrev pub address : ℕ → Cells → Ptr
address k [] = null
address zero ((p, _) ∷ xs) = p
address (suc k) (x ∷ xs) = address k xs

-- The same, for a number that counts from 1.
abbrev pub numbered : ℕ → Cells → Ptr
numbered zero xs = null
numbered (suc k) xs = address k xs

module _ (h : Heap) where
  walk :
      (before : Ptr) (xs : Cells) (k : ℕ)
      → Chain h.cell before xs null
      → k < length xs
      → next_times k (first xs null) h ≡ ok (address k xs) h
  unfolding next_times
  walk before [] k ch lt = ground arith
  walk before ((p, i) ∷ xs) zero ch lt = refl
  walk before ((p, i) ∷ xs) (suc k) (at, _, ch) lt =
      let lt' : k < length xs = omega (arith, lt) in rw (load-ok h at) (walk p xs k ch lt')

  move :
      (before : Ptr) (xs : Cells) (k : ℕ)
      → Chain h.cell before xs null
      → ailsa_move_down_list (first xs null) k h ≡ ok (address k xs) h
  unfolding ailsa_move_down_list
  move before [] zero ch = refl
  move before [] (suc k) ch = refl
  move before ((p, i) ∷ xs) zero ch = refl
  move before ((p, i) ∷ xs) (suc k) (at, _, ch) =
      let not_null : (p == null) ≡ false = ne→== at.ne_null in
      rw (not_null, load-ok h at) (move p xs k ch)

address-end : (xs : Cells) (k : ℕ) → length xs < suc k → address k xs ≡ null
address-end [] k lt = refl
address-end ((p, i) ∷ xs) zero lt = ground arith
address-end ((p, i) ∷ xs) (suc k) lt =
    let lt' : length xs < suc k = omega (arith, lt) in address-end xs k lt'

module _ (h : Heap) (destroy : Bool) (xs : Cells) (ch : Chain h.cell null xs null) where
  -- On a well-formed list `ailsa_list_get_element` gives the element with that number, from 1, and
  -- NULL for 0 and for a number above the total; `ailsa_move_down_list` from the head gives the
  -- element with one number more, and NULL from the end of the list on. Neither faults nor changes
  -- the memory.
  pub get_element_lem :
      (number : ℕ)
      → (ailsa_list_get_element (some (of_cells destroy xs)) number h ≡ ok (numbered number xs) h)
        × (ailsa_move_down_list (of_cells destroy xs).head number h
            ≡ ok (numbered (suc number) xs) h)
  unfolding ailsa_list_get_element
  get_element_lem zero = (refl, move h null xs 0 ch)
  get_element_lem (suc k) =
      let back : suc k - 1 ≡ k = omega arith in
      (
        elim (ltb_cases (length xs) (suc k)) [
          | inl (e, lt) ↦ rw (suc-ne k, e, address-end xs k lt) refl
          | inr (e, ge) ↦
              let lt : k < length xs = omega (arith, ge) in
              rw (suc-ne k, e, back) (walk h null xs k ch lt)
        ],
        move h null xs (suc k) ch,
      )

-- `scan_next` from an element whose successor is another one goes on for ever.
scan_next-stuck :
    (h : Heap) (a q n i e fuel : ℕ)
    → Cell h.cell a q n i
    → n ≢ e
    → scan_next fuel a e h ≡ out_of_fuel
unfolding scan_next
scan_next-stuck h a q n i e zero at ne = refl
scan_next-stuck h a q n i e (suc fuel) at ne =
    let not_null : (a == null) ≡ false = ne→== at.ne_null in
    rw (not_null, load-ok h at, ne→==_false ne) (scan_next-stuck h a q n i e fuel at ne)

-- `ailsa_list_pop_element` never ends for an element that is neither the first, the second nor
-- the last one of a well-formed list, whatever the fuel.
pub pop_element_diverges :
    (h : Heap) (destroy : Bool) (p i q j : ℕ) (xs : Cells) (e d b k : ℕ) (ys : Cells) (fuel : ℕ)
    → Chain h.cell null (((p, i) ∷ (q, j) ∷ xs) ++ ((e, d) ∷ (b, k) ∷ ys)) null
    → ailsa_list_pop_element fuel
        (of_cells destroy (((p, i) ∷ (q, j) ∷ xs) ++ ((e, d) ∷ (b, k) ∷ ys)))
        e
        h
      ≡ out_of_fuel
unfolding ailsa_list_pop_element
pop_element_diverges h destroy p i q j xs e d b k ys fuel ch =
    let (l, (at, e_ys, r), apart) =
      Chain-split h.cell null ((p, i) ∷ (q, j) ∷ xs) ((e, d) ∷ (b, k) ∷ ys) null ch in
    let (e_xs, _) = Apart-tail ((p, i) ∷ (q, j) ∷ xs) ((b, k) ∷ ys) e d apart in
    let (_, ep, e_qs) = not_has-cons e p i ((q, j) ∷ xs) e_xs in
    let (qe, _, _) = not_has-cons e q j xs e_qs in
    let tail : last null (((p, i) ∷ (q, j) ∷ xs) ++ ((e, d) ∷ (b, k) ∷ ys)) ≡ last b ys =
      last-append q xs ((e, d) ∷ (b, k) ∷ ys) in
    let et : (e == last b ys) ≡ false = ne→==_false (last-ne e b k ys e_ys) in
    let not_null : (e == null) ≡ false = ne→== at.ne_null in
    rw
      (
        not_null,
        suc-ne (suc (length (xs ++ ((e, d) ∷ (b, k) ∷ ys)))),
        ne→==_false ep,
        tail,
        et,
        scan_next-stuck h p null q i e fuel ch.0 qe,
      )
      refl
