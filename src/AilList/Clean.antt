-- ===== src/AilList/Clean.antt =====
-- Cleaning: every element is removed from the tail on, and its item destroyed.
use cmdb.Base.{
  ℕ, zero, suc, ◌+◌, ◌<◌, ◌≡◌, refl, sym, ap, subst, ◌∙◌, ◌⊎◌, inl, inr, Bool, true, false, Option,
  none, some, List, [], ◌∷◌, ◌++◌, ◌==◌, if◌then◌else◌, arith, length, ℤ, pos, length-append,
  append-nil, append_assoc,
}
use cmdb.Heap.{Ptr, null, Elem, Heap, Run, and_then, destroy_data}
use cmdb.Heap.Returns.{Returns, returns, Returns-and_then}
use cmdb.AilList.{
  AilList, clean_loop, ailsa_list_clean, ailsa_list_destroy, destroy_removed, ailsa_list_remove,
  zeroed,
}
use cmdb.AilList.Chain.{Cells, has, first, last, Chain, last-append, has-append, Chain-same}
use cmdb.AilList.Insert.{of_cells}
use cmdb.AilList.Link.{struct, suc-ne}
use cmdb.AilList.Cut.{Spares}
use cmdb.AilList.Remove.{Removed, remove_lem}

abbrev pub items : Cells → List Ptr
items [] = []
items ((p, item) ∷ xs) = item ∷ items xs

items-append : (xs ys : Cells) → items (xs ++ ys) ≡ items xs ++ items ys
items-append [] ys = refl
items-append ((p, item) ∷ xs) ys = ap (λ r. item ∷ r) (items-append xs ys)

-- What `destroy` was called with, on top of what it was called with before.
abbrev pub destroy_all : Bool → List Ptr → List Ptr → List Ptr
destroy_all destroy is before = if destroy then is ++ before else before

-- The list is empty, every item was destroyed, from the tail to the head, if the list has a
-- destroy function, every element is free, and the rest of the memory is as it was.
abbrev pub Cleaned : Heap → Bool → Cells → AilList → Heap → Type 0
Cleaned h destroy xs list g =
    (list ≡ of_cells destroy [])
    × (g.destroyed ≡ destroy_all destroy (items xs) h.destroyed)
    × ((a : Ptr) → g.cell a ≡ (if has a xs then none else h.cell a))

-- A list is empty or ends in an element.
snoc-cases :
    (xs : Cells) → (xs ≡ []) ⊎ ((ws : Cells) × (e : Ptr) × (d : Ptr) × (xs ≡ ws ++ ((e, d) ∷ [])))
snoc-cases [] = inl refl
snoc-cases ((p, i) ∷ xs) = elim (snoc-cases xs) [
  | inl e ↦ inr ([], p, i, ap (λ r. (p, i) ∷ r) e)
  | inr (ws, e, d, q) ↦ inr ((p, i) ∷ ws, e, d, ap (λ r. (p, i) ∷ r) q)
]

destroy_all-step :
    (destroy : Bool) (ws : Cells) (e d : Ptr) (before middle after : List Ptr)
    → middle ≡ destroy_all destroy (d ∷ []) before
    → after ≡ destroy_all destroy (items ws) middle
    → after ≡ destroy_all destroy (items (ws ++ ((e, d) ∷ []))) before
destroy_all-step false ws e d before middle after p q = q ∙ p
destroy_all-step true ws e d before middle after p q =
    q
    ∙ ap (λ l. items ws ++ l) p
    ∙ sym (rw (items-append ws ((e, d) ∷ [])) (append_assoc (items ws) (d ∷ []) before))

memory-step :
    (ws : Cells) (e d a : Ptr) (h g k : Option Elem)
    → g ≡ (if a == e then none else if has a ws then g else h)
    → k ≡ (if has a ws then none else g)
    → k ≡ (if has a (ws ++ ((e, d) ∷ [])) then none else h)
memory-step ws e d a h g k s c = rw (has-append a ws ((e, d) ∷ [])) (ground arith)

-- One removal, and then the rest.
Cleaned-step :
    (h g k : Heap) (destroy : Bool) (ws : Cells) (e d : Ptr) (list : AilList)
    → Spares e ws h.cell g.cell
    → g.destroyed ≡ destroy_all destroy (d ∷ []) h.destroyed
    → Cleaned g destroy ws list k
    → Cleaned h destroy (ws ++ ((e, d) ∷ [])) list k
Cleaned-step h g k destroy ws e d list spares gone (a, b, c) = (
  a,
  destroy_all-step destroy ws e d h.destroyed g.destroyed k.destroyed gone b,
  λ x. memory-step ws e d x (h.cell x) (g.cell x) (k.cell x) (spares x) (c x),
)

unfoldable pub Destroyed : Heap → Bool → Ptr → Unit {0} → Heap → Type 0
Destroyed h destroy d u g =
    ((a : Ptr) → g.cell a ≡ h.cell a) × (g.destroyed ≡ destroy_all destroy (d ∷ []) h.destroyed)

pub destroy_removed-Destroyed :
    (h : Heap) (destroy : Bool) (d : Ptr) (ws : Cells)
    → Returns (Destroyed h destroy d) (destroy_removed (pos 0) (some d) (of_cells destroy ws) h)
unfolding Destroyed destroy_data
destroy_removed-Destroyed h false d ws = returns (λ a. refl, refl)
destroy_removed-Destroyed h true d ws = returns (λ a. refl, refl)

nothing_destroyed : (destroy : Bool) (l : List Ptr) → l ≡ destroy_all destroy [] l
nothing_destroyed false l = refl
nothing_destroyed true l = refl

last-snoc : (ws : Cells) (e d : Ptr) → last null (ws ++ ((e, d) ∷ [])) ≡ e
last-snoc ws e d = last-append null ws ((e, d) ∷ [])

suc-length : (ws : Cells) (e d : Ptr) → length (ws ++ ((e, d) ∷ [])) ≡ suc (length ws)
suc-length ws e d = ground (arith, length-append ws ((e, d) ∷ []))

fewer :
    (ws : Cells) (e d : Ptr) (fuel : ℕ) → length (ws ++ ((e, d) ∷ [])) < suc fuel → length ws < fuel
fewer ws e d fuel lt = let n = suc-length ws e d in omega (arith, n)

kept-step :
    (here inside : Bool) (h g k : Option Elem)
    → k ≡ g
    → g ≡ (if here then none else if inside then g else h)
    → k ≡ (if here then none else if inside then k else h)
kept-step true inside h g k p q = p ∙ q
kept-step false true h g k p q = refl
kept-step false false h g k p q = p ∙ q

pub map_returns :
    {A : Type 0} {P Q : A → Heap → Type 0} {r : Run A}
    → Returns P r
    → ((a : A) (h : Heap) → P a h → Q a h)
    → Returns Q r
map_returns (returns p) f = returns (f _ _ p)

module _ (destroy : Bool) where
  -- What follows a removal in a round.
  after_removal :
      (fuel : ℕ) (ws : Cells) (e d : Ptr) (h g : Heap) (retval : ℤ) (out : Option Ptr) (l : AilList)
      → ((k : Heap)
          → Chain k.cell null ws null
          → Returns (Cleaned k destroy ws) (clean_loop fuel (of_cells destroy ws) k))
      → Removed h destroy (ws ++ []) e d (retval, out, l) g
      → Returns
          (Cleaned h destroy (ws ++ ((e, d) ∷ [])))
          (and_then (destroy_removed retval out l g) (λ _. clean_loop fuel l))
  unfolding Destroyed
  after_removal fuel ws e d h g retval out l rest (r, o, m, ch, spares, gone) =
      let none_left : ws ++ [] ≡ ws = append-nil ws in
      let spares' : Spares e ws h.cell g.cell =
        subst (λ x. Spares e x h.cell g.cell) none_left spares in
      let ch' = subst (λ x. Chain g.cell null x null) none_left ch in
      rw (r, o, m, none_left)
        (Returns-and_then (destroy_removed-Destroyed g destroy d ws) (λ u k (same, calls).
          let linked : Chain k.cell null ws null =
            Chain-same g.cell k.cell null ws null ch' (λ a i. same a) in
          let kept : Spares e ws h.cell k.cell = λ a.
            kept-step (a == e) (has a ws) (h.cell a) (g.cell a) (k.cell a) (same a) (spares' a) in
          map_returns (rest k linked) (λ list m c.
            Cleaned-step h k m destroy ws e d list kept
              (calls ∙ ap (destroy_all destroy (d ∷ [])) gone) c)))

  clean_loop_lem :
      (fuel : ℕ) (xs : Cells) (h : Heap)
      → length xs < fuel
      → Chain h.cell null xs null
      → Returns (Cleaned h destroy xs) (clean_loop fuel (of_cells destroy xs) h)
  unfolding clean_loop
  clean_loop_lem zero xs h lt ch = ground arith
  clean_loop_lem (suc fuel) xs h lt ch = elim (snoc-cases xs) [
    | inl e ↦ rw e (returns (refl, nothing_destroyed destroy h.destroyed, λ a. refl))
    | inr (ws, e, d, q) ↦
        let linked : Chain h.cell null (ws ++ ((e, d) ∷ [])) null =
          subst (λ x. Chain h.cell null x null) q ch in
        let shorter : length ws < fuel =
          fewer ws e d fuel (subst (λ x. length x < suc fuel) q lt) in
        let more : (length (ws ++ ((e, d) ∷ [])) == 0) ≡ false =
          rw (suc-length ws e d) (suc-ne (length ws)) in
        let removed =
          subst
            (λ t. Returns (Removed h destroy (ws ++ []) e d) (
              ailsa_list_remove
                (struct destroy (length (ws ++ ((e, d) ∷ []))) (first (ws ++ ((e, d) ∷ [])) null) t)
                e h))
            (last-snoc ws e d) (remove_lem h destroy ws [] e d linked) in
        rw (q, more, last-snoc ws e d)
          (Returns-and_then removed (λ (retval, out, l) g removed.
            after_removal fuel ws e d h g retval out l (λ k c. clean_loop_lem fuel ws k shorter c)
              removed))
  ]

-- The list at the end of an operation on a list that may be NULL.
abbrev pub Emptied : AilList → Heap → Bool → Cells → Option AilList → Heap → Type 0
Emptied end h destroy xs list g = (list ≡ some end) × Cleaned h destroy xs (of_cells destroy []) g

module _ (h : Heap) (destroy : Bool) (xs : Cells) (ch : Chain h.cell null xs null) where
  clean-Emptied :
      Returns
        (Emptied (of_cells destroy []) h destroy xs)
        (ailsa_list_clean (some (of_cells destroy xs)) h)
  unfolding ailsa_list_clean
  clean-Emptied =
      let enough : length xs < length xs + 1 = omega arith in
      Returns-and_then (clean_loop_lem destroy (length xs + 1) xs h enough ch)
        (λ l g (empty, calls, memory). returns (ap some empty, (refl, calls, memory)))

  -- `ailsa_list_clean` ends on every well-formed list. The list is then empty and keeps its destroy
  -- function, which was called once for each item, from the tail to the head, if there is one; the
  -- elements are freed and no other memory changed. `ailsa_list_destroy` does the same and leaves
  -- the struct zeroed, the destroy function included.
  pub clean_lem :
      Returns
        (Emptied (of_cells destroy []) h destroy xs)
        (ailsa_list_clean (some (of_cells destroy xs)) h)
      × Returns (Emptied zeroed h destroy xs) (ailsa_list_destroy (some (of_cells destroy xs)) h)
  unfolding ailsa_list_destroy
  clean_lem =
      (clean-Emptied, Returns-and_then clean-Emptied (λ l g (a, rest). returns (refl, rest)))
