-- ===== src/Zone/TableTests.antt =====
-- Reverse zones in a database that is the list of their bounds.
use cmdb.Base.{
  ◌≡◌, refl, Bool-cases, inl, inr, true, none, some, List, [], ◌∷◌, if◌then◌else◌, pos, arith,
}
use cmdb.Data.{Text, DataList, DbData, codes}
use cmdb.Query.{Database}
use cmdb.Net.Tests.{network}
use cmdb.Zone.{overlap_arguments}
use cmdb.Zone.Reverse.{Actions, add_reverse_zone}
use cmdb.Zone.Overlap.{Range, selected, overlaps, selected-overlaps}
use cmdb.Zone.Table.{none_selected, apart, with_row, ZoneTable}
use cmdb.Zone.Apart.{zones_apart, add_reverse_zone-apart}
use cmdb.Zone.Tests.{machine, server}

-- The identifiers of the zones that are selected.
abbrev hits : DataList → List Range → DataList
hits args [] = []
hits args (z ∷ zs) = if selected z args then DbData.lint 1 ∷ hits args zs else hits args zs

hits_none : (args : DataList) (zs : List Range) → hits args zs ≡ [] → none_selected args zs ≡ true
unfolding none_selected
hits_none args [] empty = refl
hits_none args (z ∷ zs) empty = elim (Bool-cases (selected z args)) [
  | inl e ↦ absurd (ground (arith, rw e at empty))
  | inr e ↦ rw e (hits_none args zs (rw e at empty))
]

abbrev listing : Database (List Range)
listing = record {
  ailsa_basic_query = λ dc query. (pos 0, []);
  ailsa_argument_query = λ dc query args. (pos 0, hits args dc);
  ailsa_update_query = λ dc query args. (pos 0, dc);
}

abbrev listed : Actions (List Range)
listed = record {
  settings = λ dc. server;
  insert_reverse_zone = λ dc row. (pos 0, with_row row dc);
  cmdb_validate_zone = λ dc range type prefix. (pos 0, dc);
  cmdb_write_rev_zone_config = λ dc. (pos 0, dc);
  reload = λ dc. (pos 0, dc);
}

listed_zones : ZoneTable listing listed
listed_zones = record {
  zones = λ dc. dc;
  searched = λ dc args ok empty. hits_none args dc empty;
  inserted = λ dc row. refl;
  validated = λ dc range type prefix. refl;
  written = λ dc. refl;
  reloaded = λ dc. refl;
}

zones_apart_example :
    zones_apart machine listing listed listed_zones
      (add_reverse_zone machine listing listed
        (some ((1, 2) ∷ (3, 4) ∷ []))
        (some network)
        none
        none
        24).1
    ≡ true
unfolding apart listed_zones
zones_apart_example =
    add_reverse_zone-apart machine listing listed listed_zones ((1, 2) ∷ (3, 4) ∷ []) (codes "ns1")
      refl (some network) none none 24 refl

selected-overlaps_example : selected (1, 5) (overlap_arguments 3 9) ≡ overlaps (1, 5) (3, 9)
selected-overlaps_example = selected-overlaps 1 5 3 9 (omega arith) (omega arith)

abbrev a_text : Text
a_text = codes "10.1.2.0"
