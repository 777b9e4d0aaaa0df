-- ===== src/Net/Mask.antt =====
-- The mask of a prefix and the number of addresses of its network.
use cmdb.Base.{
  ℕ, ◌+◌, ◌^◌, ◌≤◌, ◌≡◌, refl, all_below, all_below-elim, Bool, true, false, Option, none, some,
  ◌==◌, ==_iff, arith,
}
use cmdb.Net.{get_net_range, prefix_to_mask_ipv4}

abbrev sums_to : ℕ → Option ℕ → Option ℕ → Bool
sums_to total (some a) (some b) = a + b == total
sums_to total _ _ = false

abbrev mask_test : ℕ → Bool
mask_test prefix = sums_to (2 ^ 32) (prefix_to_mask_ipv4 prefix) (get_net_range prefix)

masks : all_below 33 mask_test ≡ true
unfolding prefix_to_mask_ipv4 get_net_range
masks = refl

sums_to-elim :
    (total : ℕ) (a b : Option ℕ)
    → sums_to total a b ≡ true
    → (m : ℕ) × (r : ℕ) × (a ≡ some m) × (b ≡ some r) × (m + r ≡ total)
sums_to-elim total none b h = ground arith
sums_to-elim total (some a) none h = ground arith
sums_to-elim total (some a) (some b) h = (a, b, refl, refl, (==_iff (a + b) total).0 h)

-- For every prefix up to 32, the mask of `prefix_to_mask_ipv4` and the number of addresses of
-- `get_net_range` are defined and add up to 2^32: the mask is the complement of the range.
pub mask_complements_range :
    (prefix : ℕ)
    → prefix ≤ 32
    → (mask : ℕ) × (range : ℕ) × (prefix_to_mask_ipv4 prefix ≡ some mask)
      × (get_net_range prefix ≡ some range)
      × (mask + range ≡ 2 ^ 32)
mask_complements_range prefix le =
    sums_to-elim (2 ^ 32) (prefix_to_mask_ipv4 prefix) (get_net_range prefix)
      (all_below-elim 33 mask_test masks prefix (omega (arith, le)))
