-- ===== src/Dns/Rebuilt.antt =====
-- src/zones.c: `build_reverse_zone` over the table of the reverse records.
use cmdb.Base.{
  ℕ, ◌≡◌, refl, ap, sym, subst, ◌∙◌, inl, inr, true, List, [], ◌∷◌, ◌++◌, append-nil, if◌then◌else◌,
  ltb, Bool-cases, arith, ℤ, pos, is_ok, length,
}
use cmdb.Data.{Text, DataList, text, lint, strndup, config_len}
use cmdb.Query.{Database}
use cmdb.Tables.{
  prefix_on_net_range, rev_zone_id_on_range, delete_reverse_record, insert_reverse_record,
}
use cmdb.Helper.Several.{master}
use cmdb.Net.{Inet}
use cmdb.Dns.Records.{ZoneRecord, Preferred}
use cmdb.Dns.Mirror.{reverse_pairs}
use cmdb.Dns.Kept.{without}
use cmdb.Dns.Gained.{inserted}
use cmdb.Dns.Steps.{Changes, got, ◌⇛◌}
use cmdb.Dns.Sync.{
  get_rev_records, get_fwd_records, get_pref_records, validated, note_updated, applied,
}

-- The table of the reverse records of the zone with this identifier, as the calls of `build_reverse_zone`
-- change it: a deletion and an insertion that succeed do what they say, where a row goes to the zone and
-- the piece that it names, one that fails changes nothing, and neither do the other calls.
pub record RevTable {Cmdb : Type 0} (db : Database Cmdb) (inet : Inet) (changes : Changes Cmdb)
    (range before : Text) (zone_id : ℕ) : Type 0 where
  pub records : Cmdb → List ZoneRecord
  pub deleted :
      (dc : Cmdb) (ids : DataList)
      → records (changes.ailsa_multiple_delete dc delete_reverse_record ids).1 ≡ (
          if is_ok (changes.ailsa_multiple_delete dc delete_reverse_record ids).0
          then without ids (records dc)
          else records dc)
  pub added :
      (dc : Cmdb) (rows : DataList)
      → reverse_pairs before
          (records (changes.ailsa_multiple_query dc insert_reverse_record rows).1)
        ≡ (if is_ok (changes.ailsa_multiple_query dc insert_reverse_record rows).0
            then reverse_pairs before (records dc) ++ inserted zone_id 0 before rows
            else reverse_pairs before (records dc))
  pub noted :
      (uid : ℕ) (dc : Cmdb) → records (note_updated db inet changes uid range dc).1 ≡ records dc
  pub judged : (dc : Cmdb) → records (validated db inet changes range 24 dc).1 ≡ records dc
  pub reloaded : (dc : Cmdb) → records (changes.reload dc).1 ≡ records dc

-- What the database says of a zone with the prefix 24: its identifier, the reverse records, the forward
-- records of its pattern and the preferred ones.
pub record Says {Cmdb : Type 0} (db : Database Cmdb) (inet : Inet) (dc : Cmdb) (range : Text)
    (zone_id : ℕ) (rev all : List ZoneRecord) (pref : List Preferred) : Type 0 where
  pub digits : Text
  pub more_digits : DataList
  pub more_ids : DataList
  pub is_24 : inet.strtoul digits ≡ 24
  pub prefix_row :
      db.ailsa_argument_query dc prefix_on_net_range (text (strndup range config_len) ∷ [])
      ≡ (pos 0, text digits ∷ more_digits)
  pub id_row :
      db.ailsa_argument_query dc rev_zone_id_on_range
        (text (strndup range config_len) ∷ text master ∷ [])
      ≡ (pos 0, lint zone_id ∷ more_ids)
  pub rev_rows : get_rev_records db inet dc range 1 0 [] ≡ got rev
  pub all_rows : get_fwd_records db inet dc range 24 ≡ got all
  pub pref_rows : get_pref_records db inet dc range 24 ≡ got pref

without_nothing : (rs : List ZoneRecord) → without [] rs ≡ rs
unfolding without
without_nothing [] = refl
without_nothing (r ∷ rs) = ap (λ l. r ∷ l) (without_nothing rs)

inserted_nothing : (zone_id : ℕ) (before : Text) → inserted zone_id 0 before [] ≡ []
unfolding inserted
inserted_nothing zone_id before = refl

-- A chain that ends with 0 came through its first call.
chain_ok :
    {Cmdb : Type 0} (m : ℤ × Cmdb) (k : Cmdb → ℤ × Cmdb)
    → is_ok (m ⇛ k).0 ≡ true
    → (is_ok m.0 ≡ true) × ((m ⇛ k) ≡ k m.1)
chain_ok (retval, c) k h = elim (Bool-cases (is_ok retval)) [
  | inl fine ↦ (fine, rw fine refl)
  | inr failed ↦ absurd (let bad : is_ok retval ≡ true = (rw failed at h) in cc)
]

module _ {Cmdb : Type 0} (db : Database Cmdb) (inet : Inet) (changes : Changes Cmdb)
    (range before : Text) (zone_id : ℕ)
    (table : RevTable db inet changes range before zone_id) where
  open table use {records, deleted, added, noted, judged, reloaded}

  abbrev delete_some : Cmdb → DataList → ℤ × Cmdb
  delete_some dc rem =
      if ltb 0 (length rem)
      then changes.ailsa_multiple_delete dc delete_reverse_record rem
      else (pos 0, dc)

  abbrev insert_some : DataList → Cmdb → ℤ × Cmdb
  insert_some add dc =
      if ltb 0 (length add)
      then changes.ailsa_multiple_query dc insert_reverse_record add
      else (pos 0, dc)

  deletes :
      (dc : Cmdb) (rem : DataList)
      → is_ok (delete_some dc rem).0 ≡ true
      → records (delete_some dc rem).1 ≡ without rem (records dc)
  deletes dc [] fine = sym (without_nothing (records dc))
  deletes dc (x ∷ rem) fine =
      let nonempty : ltb 0 (length (x ∷ rem)) ≡ true = ground arith in
      let done : is_ok (changes.ailsa_multiple_delete dc delete_reverse_record (x ∷ rem)).0 ≡ true =
        (rw nonempty at fine) in
      rw (nonempty, deleted dc (x ∷ rem), done) refl

  inserts :
      (dc : Cmdb) (add : DataList)
      → is_ok (insert_some add dc).0 ≡ true
      → reverse_pairs before (records (insert_some add dc).1)
        ≡ reverse_pairs before (records dc) ++ inserted zone_id 0 before add
  inserts dc [] fine =
      rw (inserted_nothing zone_id before, append-nil (reverse_pairs before (records dc))) refl
  inserts dc (x ∷ add) fine =
      let nonempty : ltb 0 (length (x ∷ add)) ≡ true = ground arith in
      let done : is_ok (changes.ailsa_multiple_query dc insert_reverse_record (x ∷ add)).0 ≡ true =
        (rw nonempty at fine) in
      rw (nonempty, added dc (x ∷ add), done) refl

  -- The five calls in their order.
  abbrev five : ℕ → Cmdb → DataList → DataList → ℤ × Cmdb
  five uid dc rem add =
      delete_some dc rem
      ⇛ insert_some add
      ⇛ note_updated db inet changes uid range
      ⇛ validated db inet changes range 24
      ⇛ changes.reload

  five_lem :
      (uid : ℕ) (dc : Cmdb) (rem add : DataList)
      → is_ok (five uid dc rem add).0 ≡ true
      → reverse_pairs before (records (five uid dc rem add).1)
        ≡ reverse_pairs before (without rem (records dc)) ++ inserted zone_id 0 before add
  five_lem uid dc rem add fine =
      let one = delete_some dc rem in
      let two = one ⇛ insert_some add in
      let three = two ⇛ note_updated db inet changes uid range in
      let four = three ⇛ validated db inet changes range 24 in
      let (ok4, e5) = chain_ok four changes.reload fine in
      let (ok3, e4) = chain_ok three (validated db inet changes range 24) ok4 in
      let (ok2, e3) = chain_ok two (note_updated db inet changes uid range) ok3 in
      let (ok1, e2) = chain_ok one (insert_some add) ok2 in
      let last : records (four ⇛ changes.reload).1 ≡ records two.1 =
        ap (λ (m : ℤ × Cmdb). records m.1) e5
        ∙ reloaded four.1
        ∙ ap (λ (m : ℤ × Cmdb). records m.1) e4
        ∙ judged three.1
        ∙ ap (λ (m : ℤ × Cmdb). records m.1) e3
        ∙ noted uid two.1 in
      let ok_insert : is_ok (insert_some add one.1).0 ≡ true =
        sym (ap (λ (m : ℤ × Cmdb). is_ok m.0) e2) ∙ ok2 in
      ap (λ rs. reverse_pairs before rs) last
      ∙ ap (λ (m : ℤ × Cmdb). reverse_pairs before (records m.1)) e2
      ∙ inserts one.1 add ok_insert
      ∙ ap (λ rs. reverse_pairs before rs ++ inserted zone_id 0 before add) (deletes dc rem ok1)

  -- What the calls leave, where the last of them returns 0.
  pub applied_lem :
      (uid : ℕ) (dc : Cmdb) (rem add : DataList)
      → is_ok (applied db inet changes uid range dc (24, rem, add)).0 ≡ true
      → reverse_pairs before (records (applied db inet changes uid range dc (24, rem, add)).1)
        ≡ reverse_pairs before (without rem (records dc)) ++ inserted zone_id 0 before add
  unfolding applied
  applied_lem uid dc [] [] fine =
      rw
        (
          without_nothing (records dc),
          inserted_nothing zone_id before,
          append-nil (reverse_pairs before (records dc)),
        )
        refl
  applied_lem uid dc [] (x ∷ add) fine =
      let nonempty : ltb 0 (length (x ∷ add)) ≡ true = ground arith in
      let e : applied db inet changes uid range dc (24, [], x ∷ add) ≡ five uid dc [] (x ∷ add) =
        rw nonempty refl in
      rw e (five_lem uid dc [] (x ∷ add) (subst (λ (m : ℤ × Cmdb). is_ok m.0 ≡ true) e fine))
  applied_lem uid dc (x ∷ rem) add fine =
      let nonempty : ltb 0 (length (x ∷ rem)) ≡ true = ground arith in
      let e : applied db inet changes uid range dc (24, x ∷ rem, add) ≡ five uid dc (x ∷ rem) add =
        rw nonempty refl in
      rw e (five_lem uid dc (x ∷ rem) add (subst (λ (m : ℤ × Cmdb). is_ok m.0 ≡ true) e fine))
