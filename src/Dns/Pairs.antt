-- ===== src/Dns/Pairs.antt =====
-- Addresses with names, the view of forward and reverse records that src/zones.c compares.
use cmdb.Base.{
  ◌≡◌, refl, ap, inl, inr, Bool, true, false, not, ◌&&◌, ◌||◌, List, [], ◌∷◌, ◌++◌, ◌==◌, ==_iff,
  if◌then◌else◌, Bool-cases, and_split, arith,
}
use cmdb.Data.{Text, same_text}

pub same_text→eq : (s t : Text) → same_text s t ≡ true → s ≡ t
same_text→eq [] [] e = refl
same_text→eq [] (d ∷ t) e = ground arith
same_text→eq (c ∷ s) [] e = ground arith
same_text→eq (c ∷ s) (d ∷ t) e =
    let (first, rest) = and_split (c == d) (same_text s t) e in
    let same : s ≡ t = same_text→eq s t rest in
    let head : c ≡ d = (==_iff c d).0 first in rw (head, same) refl

pub same_text_refl : (s : Text) → same_text s s ≡ true
same_text_refl [] = refl
same_text_refl (c ∷ s) = ground (arith, same_text_refl s)

pub same_text_comm : (s t : Text) → same_text s t ≡ same_text t s
same_text_comm [] [] = refl
same_text_comm [] (d ∷ t) = refl
same_text_comm (c ∷ s) [] = refl
same_text_comm (c ∷ s) (d ∷ t) = ground (arith, same_text_comm s t)

-- An address and a name.
abbrev pub Pair : Type 0
Pair = Text × Text

abbrev pub same_pair : Pair → Pair → Bool
same_pair (a, d) (b, e) = same_text a b && same_text d e

-- The pair stands in the list.
unfoldable pub pair_in : Pair → List Pair → Bool
pair_in p [] = false
pair_in p (q ∷ qs) = same_pair p q || pair_in p qs

-- The pairs of the list that pass the test.
unfoldable pub sift : (Pair → Bool) → List Pair → List Pair
sift test [] = []
sift test (p ∷ ps) = let rest = sift test ps in if test p then p ∷ rest else rest

pub same_pair→eq : (p q : Pair) → same_pair p q ≡ true → p ≡ q
same_pair→eq (a, d) (b, e) h =
    let (first, second) = and_split (same_text a b) (same_text d e) h in
    rw (same_text→eq a b first, same_text→eq d e second) refl

pub pair_in-append :
    (p : Pair) (qs rs : List Pair) → pair_in p (qs ++ rs) ≡ (pair_in p qs || pair_in p rs)
unfolding pair_in
pair_in-append p [] rs = refl
pair_in-append p (q ∷ qs) rs = ground (arith, pair_in-append p qs rs)

pub pair_in-sift :
    (test : Pair → Bool) (p : Pair) (qs : List Pair)
    → pair_in p (sift test qs) ≡ (pair_in p qs && test p)
unfolding pair_in sift
pair_in-sift test p [] = refl
pair_in-sift test p (q ∷ qs) =
    let ih = pair_in-sift test p qs in
    elim (Bool-cases (same_pair p q)) [
      | inl same ↦
          let e = ap test (same_pair→eq p q same) in
          elim (Bool-cases (test q)) [
            | inl passed ↦ rw (passed, same, e, passed) refl
            | inr failed ↦ rw (failed, ih, same, e, failed) (ground arith)
          ]
      | inr other ↦ elim (Bool-cases (test q)) [
        | inl passed ↦ rw (passed, other, ih) refl
        | inr failed ↦ rw (failed, other, ih) refl
      ]
    ]

-- What stays of the one list and what comes from the other make up the other.
pub merged :
    (p : Pair) (old new : List Pair)
    → pair_in p (sift (λ q. pair_in q new) old ++ sift (λ q. not (pair_in q old)) new)
      ≡ pair_in p new
merged p old new =
    let kept = pair_in-sift (λ q. pair_in q new) p old in
    let fresh = pair_in-sift (λ q. not (pair_in q old)) p new in
    let whole =
      pair_in-append p (sift (λ q. pair_in q new) old) (sift (λ q. not (pair_in q old)) new) in
    rw (whole, kept, fresh) (ground arith)
