-- ===== src/Zone/Table.antt =====
-- The table `rev_zones`, as `add_reverse_zone` of lib/dnsa_net.c meets it: an interface to the database.
use cmdb.Base.{
  ℕ, ◌≤◌, ◌≡◌, refl, Bool, true, false, not, ◌&&◌, and_split, Option, List, [], ◌∷◌, if◌then◌else◌,
  arith, is_ok,
}
use cmdb.Data.{Text, DataList, lint}
use cmdb.Query.{Database}
use cmdb.Tables.{rev_zone_overlap}
use cmdb.Zone.{overlap_arguments}
use cmdb.Zone.Reverse.{Actions}
use cmdb.Zone.Overlap.{Range, selected, overlaps, unselected_apart}

-- No zone of the list is selected.
unfoldable pub none_selected : DataList → List Range → Bool
unfolding selected
none_selected args [] = true
none_selected args (z ∷ zs) = not (selected z args) && none_selected args zs

-- No zone of the list has an address in common with the new one.
unfoldable pub clear : Range → List Range → Bool
unfolding overlaps
clear new [] = true
clear new (z ∷ zs) = not (overlaps z new) && clear new zs

-- No two zones of the list have an address in common.
unfoldable pub apart : List Range → Bool
unfolding clear
apart [] = true
apart (z ∷ zs) = clear z zs && apart zs

-- The zones behind the insertion of a row: `start_ip` is its fourth column, `finish_ip` its sixth.
unfoldable pub with_row : DataList → List Range → List Range
with_row (range ∷ prefix ∷ net_start ∷ lint start ∷ net_finish ∷ lint finish ∷ row) zs =
    (start, finish) ∷ zs
with_row row zs = zs

-- The table `rev_zones` of the database. The query for overlaps gives no rows only where it selects no
-- zone; an insertion that succeeds adds a zone, one that fails none; what else is called for a new zone
-- does not change the bounds of the zones.
pub record ZoneTable {Cmdb : Type 0} (db : Database Cmdb) (actions : Actions Cmdb) : Type 0 where
  pub zones : Cmdb → List Range
  pub searched :
      (dc : Cmdb) (args : DataList)
      → is_ok (db.ailsa_argument_query dc rev_zone_overlap args).0 ≡ true
      → (db.ailsa_argument_query dc rev_zone_overlap args).1 ≡ []
      → none_selected args (zones dc) ≡ true
  pub inserted :
      (dc : Cmdb) (row : DataList)
      → zones (actions.insert_reverse_zone dc row).1 ≡ (
          if is_ok (actions.insert_reverse_zone dc row).0
          then with_row row (zones dc)
          else zones dc)
  pub validated :
      (dc : Cmdb) (range : Text) (type : Option Text) (prefix : ℕ)
      → zones (actions.cmdb_validate_zone dc range type prefix).1 ≡ zones dc
  pub written : (dc : Cmdb) → zones (actions.cmdb_write_rev_zone_config dc).1 ≡ zones dc
  pub reloaded : (dc : Cmdb) → zones (actions.reload dc).1 ≡ zones dc

pub clear_of_unselected :
    (start finish : ℕ) (zs : List Range)
    → start ≤ finish
    → none_selected (overlap_arguments start finish) zs ≡ true
    → clear (start, finish) zs ≡ true
unfolding none_selected clear
clear_of_unselected start finish [] le none_of = refl
clear_of_unselected start finish ((s, f) ∷ zs) le none_of =
    let args = overlap_arguments start finish in
    let (first, rest) = and_split (not (selected (s, f) args)) (none_selected args zs) none_of in
    let e : selected (s, f) args ≡ false = ground (arith, first) in
    rw (unselected_apart s f start finish le e, clear_of_unselected start finish zs le rest) refl
