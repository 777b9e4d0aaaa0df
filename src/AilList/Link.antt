-- ===== src/AilList/Link.antt =====
-- The state between an insertion and the list that it makes.
use cmdb.Base.{
  ℕ, suc, ◌+◌, ◌≡◌, ◌≢◌, ◌∙◌, Bool, false, some, ◌∷◌, ◌++◌, ◌==◌, arith, length, ℤ, pos,
  length-append,
}
use cmdb.Heap.{Ptr, null, Elem, Heap, Run}
use cmdb.Heap.Returns.{Returns, returns}
use cmdb.AilList.{AilList}
use cmdb.AilList.Chain.{Cells, has, first, last, Chain, Chain-write, first-append, last-append}
use cmdb.AilList.Insert.{of_cells, put}

-- The list holds `xs`, and nothing was destroyed on the way.
abbrev pub Inserted : Heap → Bool → Cells → ℤ × AilList → Heap → Type 0
Inserted h destroy xs (retval, list) g =
    (retval ≡ pos 0)
    × (list ≡ of_cells destroy xs)
    × Chain g.cell null xs null
    × (g.destroyed ≡ h.destroyed)

-- The struct of a list round one of its elements.
pub of_cells-middle :
    (destroy : Bool) (xs ys : Cells) (e d : Ptr)
    → of_cells destroy (xs ++ ((e, d) ∷ ys)) ≡ record {
      total = suc (length xs + length ys);
      destroy = destroy;
      head = first xs e;
      tail = last e ys;
    }
of_cells-middle destroy xs ys e d = ground (
  arith,
  length-append xs ((e, d) ∷ ys),
  first-append xs ((e, d) ∷ ys) null,
  last-append null xs ((e, d) ∷ ys),
)

abbrev pub struct : Bool → ℕ → Ptr → Ptr → AilList
struct destroy total head tail = record {
  total = total;
  destroy = destroy;
  head = head;
  tail = tail;
}

-- The outcome of an insertion, before the struct is read as that of its elements.
abbrev pub Made : Heap → AilList → Cells → ℤ × AilList → Heap → Type 0
Made h made xs (retval, list) g =
    (retval ≡ pos 0) × (list ≡ made) × Chain g.cell null xs null × (g.destroyed ≡ h.destroyed)

pub ne→== : {p : Ptr} → p ≢ null → (p == null) ≡ false
ne→== ne = ground arith

pub suc-ne : (n : ℕ) → (suc n == 0) ≡ false
suc-ne n = ground arith

-- The three writes that fill the new element spare a chain.
pub Chain-thrice :
    (h : Heap) (before : Ptr) (xs : Cells) (stop fresh : Ptr) (a b c : Elem)
    → has fresh xs ≡ false
    → Chain h.cell before xs stop
    → Chain (put (put (put h fresh a) fresh b) fresh c).cell before xs stop
Chain-thrice h before xs stop fresh a b c out ch =
    let h1 = put h fresh a in
    let h2 = put h1 fresh b in
    Chain-write h2.cell before xs stop fresh (some c)
      (Chain-write h1.cell before xs stop fresh (some b)
        (Chain-write h.cell before xs stop fresh (some a) ch out) out)
      out

pub Made→Inserted :
    (h : Heap) (destroy : Bool) (made : AilList) (ws : Cells) {r : Run (ℤ × AilList)}
    → made ≡ of_cells destroy ws
    → Returns (Made h made ws) r
    → Returns (Inserted h destroy ws) r
Made→Inserted h destroy made ws e (returns (a, b, c, d)) = returns (a, b ∙ e, c, d)

pub ne→==_false : {a b : ℕ} → a ≢ b → (a == b) ≡ false
ne→==_false ne = ground arith
