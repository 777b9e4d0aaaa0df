-- ===== src/Zone/Overlap.antt =====
-- The condition of REV_ZONE_OVERLAP (lib/queries.c), with the arguments that `check_for_rev_zone_overlap`
-- of lib/dnsa_net.c gives it.
use cmdb.Base.{ℕ, ◌≤◌, ◌≡◌, Bool, false, ◌&&◌, ◌||◌, [], ◌∷◌, leb, arith}
use cmdb.Data.{DataList, lint}
use cmdb.Zone.{overlap_arguments}

-- The first and the last address of a zone: `start_ip` and `finish_ip`.
abbrev pub Range : Type 0
Range = ℕ × ℕ

-- `(start_ip >= ? AND finish_ip <= ?) OR (start_ip <= ? AND finish_ip >= ?) OR (start_ip <= ? AND finish_ip >= ?)`
unfoldable pub selected : Range → DataList → Bool
selected (start, finish) (lint a ∷ lint b ∷ lint c ∷ lint d ∷ lint e ∷ lint f ∷ []) =
    (leb a start && leb finish b) || (leb start c && leb d finish) || (leb start e && leb f finish)
selected zone _ = false

-- The zones have an address in common.
unfoldable pub overlaps : Range → Range → Bool
overlaps (s, f) (start, finish) = leb start f && leb s finish

-- The condition selects the zones that have an address in common with the new one, and no others:
-- those inside it, those that hold its first address, and those that hold its last.
pub selected-overlaps :
    (s f start finish : ℕ)
    → s ≤ f
    → start ≤ finish
    → selected (s, f) (overlap_arguments start finish) ≡ overlaps (s, f) (start, finish)
unfolding selected overlaps
selected-overlaps s f start finish zone new = ground arith

-- What is not selected has no address in common, also where it ends before it starts.
pub unselected_apart :
    (s f start finish : ℕ)
    → start ≤ finish
    → selected (s, f) (overlap_arguments start finish) ≡ false
    → overlaps (s, f) (start, finish) ≡ false
unfolding selected overlaps
unselected_apart s f start finish new unselected = ground arith
