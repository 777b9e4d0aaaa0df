-- ===== src/Dns/InStep.antt =====
-- src/zones.c: a reverse zone of one piece, behind the removal and the addition of records.
use cmdb.Base.{
  ℕ, ◌≤◌, ◌≡◌, refl, ap, ◌∙◌, true, some, List, [], ◌∷◌, ◌++◌, append_assoc, arith, pos, length,
}
use cmdb.Data.{Text, DataList}
use cmdb.Net.{Inet, dot, percent, get_zone_index, get_offset_ip}
use cmdb.Net.Search.{Free, dotted, search_lem}
use cmdb.Dns.Records.{ZoneRecord}
use cmdb.Dns.Reverse.{cmdb_records_to_remove, cmdb_records_to_add}
use cmdb.Dns.Pairs.{Pair, pair_in, merged}
use cmdb.Dns.Mirror.{Forwards, Reverses, forward_pairs, reverse_pairs}
use cmdb.Dns.Kept.{without, distinct_ids, stray_ids, stray_rounds_lem, without-stray}
use cmdb.Dns.Gained.{before_last-here, gained, inserted, add_rounds_lem, inserted-gained}

-- Three octets with dots between them.
abbrev pub network : Text → Text → Text → Text
network a b c = a ++ (dot ∷ (b ++ (dot ∷ c)))

dotted-network : (a b c t : Text) → dotted a b c t ≡ (network a b c ++ (dot ∷ [])) ++ t
dotted-network a b c t = simp (append_assoc)

one_piece : get_zone_index 24 ≡ (pos 0, some 1)
unfolding get_zone_index
one_piece = refl

module _ (inet : Inet) (range a b c d : Text) (free_a : Free dot a) (free_b : Free dot b)
    (free_c : Free dot c)
    (reads : get_offset_ip inet (some range) 24 0 ≡ (pos 0, some (dotted a b c d)))
    (small : length (network a b c ++ (dot ∷ [])) ≤ 48) where
  -- The address of the network, with the dot behind it.
  abbrev pub start : Text
  start = network a b c ++ (dot ∷ [])

  removes :
      (rec rev : List ZoneRecord)
      → Forwards start rec
      → Reverses 0 rev
      → cmdb_records_to_remove inet range 24 rec rev []
        ≡ (pos 0, stray_ids start (forward_pairs rec) rev)
  unfolding cmdb_records_to_remove
  removes rec rev inside reverses =
      let pattern =
        search_lem inet range 24 0 a b c d (omega arith) free_a free_b free_c reads
        ∙ ap (λ (t : Text). (pos 0, some t)) (dotted-network a b c (percent ∷ [])) in
      rw
        (
          one_piece,
          pattern,
          before_last-here percent start [] tt,
          stray_rounds_lem start small rec inside 0 rev [] reverses,
        )
        refl

  adds :
      (uid zone_id : ℕ) (rec rev : List ZoneRecord)
      → Forwards start rec
      → Reverses 0 rev
      → cmdb_records_to_add inet range 24 uid zone_id rec rev []
        ≡ some (pos 0, gained uid zone_id start 0 (reverse_pairs start rev) rec)
  unfolding cmdb_records_to_add
  adds uid zone_id rec rev inside reverses =
      let pattern =
        search_lem inet range 24 0 a b c d (omega arith) free_a free_b free_c reads
        ∙ ap (λ (t : Text). (pos 0, some t)) (dotted-network a b c (percent ∷ [])) in
      let none_dot : Free dot (percent ∷ []) = (ground arith, tt) in
      rw
        (
          one_piece,
          pattern,
          before_last-here percent start [] tt,
          add_rounds_lem uid zone_id 0 (network a b c) small rec rev (percent ∷ []) [] inside
              reverses none_dot (omega arith),
        )
        refl

  -- For a reverse zone with the prefix 24, the records to remove and to add are found, and behind the
  -- deletion of the ones and the insertion of those of the others that name this zone and its piece 0 the
  -- zone has exactly the addresses with names that the forward records have. The range is the text of an
  -- address a.b.c.d of at most 48 bytes, the forward records have addresses of this network, the reverse
  -- records have hosts of one octet and are told apart by their identifiers.
  pub reverse_zone_in_step :
      (uid zone_id : ℕ) (rec rev : List ZoneRecord)
      → Forwards start rec
      → Reverses 0 rev
      → distinct_ids rev ≡ true
      → (remove : DataList) × (add : DataList) × (cmdb_records_to_remove inet range 24 rec rev []
          ≡ (pos 0, remove))
        × (cmdb_records_to_add inet range 24 uid zone_id rec rev [] ≡ some (pos 0, add))
        × ((p : Pair)
            → pair_in p (reverse_pairs start (without remove rev) ++ inserted zone_id 0 start add)
              ≡ pair_in p (forward_pairs rec))
  reverse_zone_in_step uid zone_id rec rev inside reverses distinct = (
    stray_ids start (forward_pairs rec) rev,
    gained uid zone_id start 0 (reverse_pairs start rev) rec,
    removes rec rev inside reverses,
    adds uid zone_id rec rev inside reverses,
    λ p.
        rw
          (
            without-stray start (forward_pairs rec) rev distinct,
            inserted-gained uid zone_id 0 (network a b c) small (reverse_pairs start rev) rec
                inside,
          )
          (merged p (reverse_pairs start rev) (forward_pairs rec)),
  )
