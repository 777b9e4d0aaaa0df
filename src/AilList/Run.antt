-- ===== src/AilList/Run.antt =====
-- Removal of a run of elements that stand one behind the other.
use cmdb.Base.{
  ℕ, suc, ◌+◌, ◌≡◌, refl, ap, ◌∙◌, Bool, true, false, ◌&&◌, Option, some, [], ◌∷◌, ◌++◌, ◌==◌,
  if◌then◌else◌, arith, length, ℤ, pos, is_ok,
}
use cmdb.Heap.{Ptr, null, Heap, and_then}
use cmdb.Heap.Cell.{load-ok}
use cmdb.Heap.Returns.{Returns, returns, Returns-and_then}
use cmdb.AilList.{AilList, destroy_removed, remove_rounds, ailsa_list_remove_elements}
use cmdb.AilList.Chain.{Cells, first, Chain, Chain-split, Chain-same}
use cmdb.AilList.Insert.{of_cells}
use cmdb.AilList.Link.{ne→==}
use cmdb.AilList.Remove.{Removed, remove_lem}
use cmdb.AilList.Clean.{Destroyed, destroy_removed-Destroyed, map_returns}

-- What the rounds leave: the count, which grows only where there is a destroy function, and the
-- list of the elements around the run.
abbrev Left : Bool → Cells → ℕ → ℕ → ℕ × AilList → Heap → Type 0
Left destroy ws count gone (c, list) g =
    (c ≡ (if destroy then count + gone else count))
    × (list ≡ of_cells destroy ws)
    × Chain g.cell null ws null

counted_once :
    (destroy : Bool) (count n : ℕ)
    → (if destroy
        then (if destroy then count + 1 else count) + n
        else (if destroy then count + 1 else count))
      ≡ (if destroy then count + suc n else count)
counted_once true count n = omega arith
counted_once false count n = refl

none_gone : (destroy : Bool) (count : ℕ) → count ≡ (if destroy then count + 0 else count)
none_gone true count = omega arith
none_gone false count = refl

module _ (destroy : Bool) (xs ys : Cells) where
  next_round :
      (zs : Cells) (count : ℕ) (p d : Ptr) (h g : Heap) (retval : ℤ) (out : Option Ptr)
      (l : AilList)
      → ((c : ℕ) (k : Heap)
          → Chain k.cell null (xs ++ (zs ++ ys)) null
          → Returns (Left destroy (xs ++ ys) c (length zs)) (
              remove_rounds
                (length zs)
                (of_cells destroy (xs ++ (zs ++ ys)))
                (first (zs ++ ys) null)
                c
                k))
      → Removed h destroy (xs ++ (zs ++ ys)) p d (retval, out, l) g
      → Returns (Left destroy (xs ++ ys) count (suc (length zs))) (
          and_then (destroy_removed retval out l g) (λ u.
            remove_rounds
              (length zs)
              l
              (first (zs ++ ys) null)
              (if is_ok retval && l.destroy then count + 1 else count)))
  unfolding Destroyed
  next_round zs count p d h g retval out l rest (r, o, m, ch, spares, gone) =
      rw (r, o, m)
        (Returns-and_then (destroy_removed-Destroyed g destroy d (xs ++ (zs ++ ys)))
          (λ u k (same, calls).
            let kept = Chain-same g.cell k.cell null (xs ++ (zs ++ ys)) null ch (λ a i. same a) in
            map_returns (rest (if destroy then count + 1 else count) k kept)
              (λ (c, list) end (total, holds, linked).
                (total ∙ counted_once destroy count (length zs), holds, linked))))

  rounds_lem :
      (zs : Cells) (count : ℕ) (h : Heap)
      → Chain h.cell null (xs ++ (zs ++ ys)) null
      → Returns (Left destroy (xs ++ ys) count (length zs)) (
          remove_rounds
            (length zs)
            (of_cells destroy (xs ++ (zs ++ ys)))
            (first (zs ++ ys) null)
            count
            h)
  unfolding remove_rounds
  rounds_lem [] count h ch = returns (none_gone destroy count, refl, ch)
  rounds_lem ((p, d) ∷ zs) count h ch =
      let (_, (at, _, _), _) = Chain-split h.cell null xs ((p, d) ∷ (zs ++ ys)) null ch in
      rw (load-ok h at) (
        Returns-and_then (remove_lem h destroy xs (zs ++ ys) p d ch) (λ (retval, out, l) g removed.
          next_round zs count p d h g retval out l (λ c k kept. rounds_lem zs c k kept) removed))

verdict :
    (destroy : Bool) (c n : ℕ)
    → c ≡ (if destroy then 0 + suc n else 0)
    → (if c == suc n then pos 0 else pos 1) ≡ (if destroy then pos 0 else pos 1)
verdict true c n e = ground arith
verdict false c n e = ground arith

-- The code 0 where every removed item was destroyed, and the list of the elements around the run.
abbrev pub RunRemoved : Bool → Cells → ℤ × Option AilList → Heap → Type 0
RunRemoved destroy ws (retval, list) g =
    (retval ≡ (if destroy then pos 0 else pos 1))
    × (list ≡ some (of_cells destroy ws))
    × Chain g.cell null ws null

-- On a well-formed list `ailsa_list_remove_elements`, from one of its elements on and for a number
-- of elements that are there, at least one, takes exactly these out and keeps the order of the
-- others, which stay linked. It returns 0 for a list with a destroy function and 1, its code for a
-- failure, for a list without one.
pub run_lem :
    (destroy : Bool) (xs ys zs : Cells) (p d : Ptr) (h : Heap)
    → Chain h.cell null (xs ++ (((p, d) ∷ zs) ++ ys)) null
    → Returns (RunRemoved destroy (xs ++ ys)) (
        ailsa_list_remove_elements
          (some (of_cells destroy (xs ++ (((p, d) ∷ zs) ++ ys))))
          p
          (suc (length zs))
          h)
unfolding ailsa_list_remove_elements
run_lem destroy xs ys zs p d h ch =
    let (_, (at, _, _), _) = Chain-split h.cell null xs ((p, d) ∷ (zs ++ ys)) null ch in
    let given : (p == null) ≡ false = ne→== at.ne_null in
    rw given (
      Returns-and_then (rounds_lem destroy xs ys ((p, d) ∷ zs) 0 h ch)
        (λ (c, l) g (count, holds, linked).
          returns (verdict destroy c (length zs) count, ap some holds, linked)))
