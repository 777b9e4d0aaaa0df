-- ===== src/Zone/Reverse.antt =====
-- lib/dnsa_net.c: a new reverse zone, from the test for an overlap to the reload of the name server.
use native.Mathlib.Nat.{pow-suc}
use cmdb.Base.{
  ℕ, zero, suc, ◌+◌, ◌-◌, ◌^◌, ◌<◌, ◌≤◌, ◌≡◌, refl, Option, some, [], ◌∷◌, Bool, true, false, not,
  ◌||◌, ◌==◌, if◌then◌else◌, ltb, ℤ, is_ok, arith, length, ap, ◌∙◌, in_order, chained,
}
use cmdb.Data.{Text, DataList, ailsa_no_data, cmdb_add_number_to_list}
use cmdb.Query.{Database, or_else}
use cmdb.Tables.{rev_zone_overlap}
use cmdb.Helper.Several.Answers.{is_empty}
use cmdb.Net.{get_start_finsh_ips}
use cmdb.Net.Range.{Inverse, class_a_lem, bounds_lem, bin_lem}
use cmdb.Zone.{
  Settings, Outside, dnsa_populate_rev_zone, check_for_rev_zone_overlap, overlap_arguments,
  ailsa_rev_zone_overlap,
}
use cmdb.Zone.Columns.{Inserts, rev_row_fits}
use cmdb.Zone.Rows.{rev_zone_row, rev_zone_row_lem}

-- What `add_reverse_zone` calls to change the database and the files: the insertion of a row
-- (`ailsa_insert_query` of INSERT_REVERSE_ZONE), `cmdb_validate_zone`,
-- `cmdb_write_rev_zone_config`, and `system` with the reload command.
pub record Actions (Cmdb : Type 0) : Type 0 where
  pub settings : Cmdb → Settings
  pub insert_reverse_zone : Cmdb → DataList → ℤ × Cmdb
  pub cmdb_validate_zone : Cmdb → Text → Option Text → ℕ → ℤ × Cmdb
  pub cmdb_write_rev_zone_config : Cmdb → ℤ × Cmdb
  pub reload : Cmdb → ℤ × Cmdb

swap : {A : Type 0} (x y : A) (b : Bool) → (if not b then x else y) ≡ (if b then y else x)
swap x y true = refl
swap x y false = refl

positive_power : (k : ℕ) → 1 ≤ 2 ^ k
positive_power zero = omega arith
positive_power (suc k) = let e = pow-suc 2 k in let p = positive_power k in omega (arith, e, p)

module _ {Cmdb : Type 0} (outside : Outside) (db : Database Cmdb) (actions : Actions Cmdb) where
  open actions use {
    settings, insert_reverse_zone, cmdb_validate_zone, cmdb_write_rev_zone_config, reload,
  }

  infixl 5 ◌⇒◌
  abbrev pub ◌⇒◌ : ℤ × Cmdb → (Cmdb → ℤ × Cmdb) → ℤ × Cmdb
  (retval, dc) ⇒ k = if is_ok retval then k dc else (retval, dc)

  -- The calls behind the row, each only where those before returned 0.
  abbrev pub install : Cmdb → Text → Option Text → ℕ → DataList → ℤ × Cmdb
  install dc range type prefix rev =
      insert_reverse_zone dc rev
      ⇒ (λ c. cmdb_validate_zone c range type prefix)
      ⇒ cmdb_write_rev_zone_config
      ⇒ reload

  abbrev pub returned : ℤ × Cmdb → ℤ × Option Cmdb
  returned (retval, dc) = (retval, some dc)

  unfoldable pub add_reverse_zone :
      Option Cmdb → Option Text → Option Text → Option Text → ℕ → ℤ × Option Cmdb
  add_reverse_zone (some dc) (some range) type master prefix =
      if prefix == 0
      then (ailsa_no_data, some dc)
      else let (retval, start, finish) =
          get_start_finsh_ips outside.inet (some range) prefix (0, 0) in
        if not (is_ok retval)
        then (retval, some dc)
        else let retval = check_for_rev_zone_overlap db (some dc) start finish in
          if not (is_ok retval)
          then (retval, some dc)
          else let (retval, rev) =
              dnsa_populate_rev_zone outside (some (settings dc)) (some range) master prefix
                (some []) in
            if not (is_ok retval)
            then (retval, some dc)
            else returned (install dc range type prefix (or_else [] rev))
  add_reverse_zone dc _ type master prefix = (ailsa_no_data, dc)

  -- No reverse zone with a prefix of 8 can be added: for every range that reads as an address other
  -- than 0, the answer is AILSA_NO_DATA and nothing changes. The library's conversions are inverse.
  pub class_a_refused :
      (range : Text) (ip : ℕ)
      → outside.inet.pton range ≡ some ip
      → Inverse outside.inet
      → 0 < ip
      → ip < 2 ^ 32
      → (dc : Cmdb) (type master : Option Text)
      → add_reverse_zone (some dc) (some range) type master 8 ≡ (ailsa_no_data, some dc)
  unfolding add_reverse_zone check_for_rev_zone_overlap
  class_a_refused range ip reads inverse positive small dc type master =
      let before : ltb (ip - 1) ip ≡ true = ground arith in
      let never : ((ip == 0 || ip - 1 == 0) || true) ≡ true = ground arith in
      rw (class_a_lem outside.inet range ip reads inverse positive small (0, 0), before, never) refl

  -- The answer of the query for zones that overlap.
  abbrev pub overlap_answer : ℤ × DataList → ℤ
  overlap_answer (retval, rows) =
      if is_ok retval then (if is_empty rows then retval else ailsa_rev_zone_overlap) else retval

  answer_step :
      (retval : ℤ) (rows : DataList)
      → (if not (is_ok retval)
          then retval
          else if ltb 0 (length rows)
          then ailsa_rev_zone_overlap
          else retval)
        ≡ overlap_answer (retval, rows)
  answer_step retval [] = ground arith
  answer_step retval (x ∷ rows) = ground arith

  pub overlap_lem :
      (dc : Cmdb) (start finish : ℕ)
      → 0 < start
      → start ≤ finish
      → check_for_rev_zone_overlap db (some dc) start finish
        ≡ overlap_answer
            (db.ailsa_argument_query dc rev_zone_overlap (overlap_arguments start finish))
  unfolding check_for_rev_zone_overlap cmdb_add_number_to_list
  overlap_lem dc start finish positive le =
      let a : (start == 0) ≡ false = ground arith in
      let b : (finish == 0) ≡ false = ground arith in
      let c : ltb finish start ≡ false = ground arith in
      let answer = db.ailsa_argument_query dc rev_zone_overlap (overlap_arguments start finish) in
      rw (a, b, c) (answer_step answer.0 answer.1)

  -- What adding does, given the verdict on overlaps: nothing on an error, or else the installation
  -- of the row.
  abbrev pub after_overlap : Cmdb → ℤ → ℤ × Cmdb → ℤ × Option Cmdb
  after_overlap dc verdict installed =
      if is_ok verdict then returned installed else (verdict, some dc)

  -- A reverse zone with a prefix from 9 to 24 is added in this order: the database is asked for zones
  -- that overlap the first and the last address; an error, or AILSA_REV_ZONE_OVERLAP where a zone
  -- overlaps, ends it with no change; else the row of the zone, with one value of its type for each place
  -- of INSERT_REVERSE_ZONE, is inserted, the zone validated, the configuration written and the server
  -- reloaded, each step only where those before returned 0. The range reads as an address other than 0,
  -- does not end at 2^32, the primary name server is set, and the library's conversions are inverse.
  -- These are all prefixes from /9 to /24; the manual, man/dnsa.8, says that of them only /16 and /24 are
  -- accepted.
  pub added_lem :
      (range : Text) (ip : ℕ)
      → outside.inet.pton range ≡ some ip
      → Inverse outside.inet
      → 0 < ip
      → (prefix : ℕ) → 8 < prefix
      → prefix ≤ 24
      → ip + 2 ^ (32 - prefix) < 2 ^ 32
      → (dc : Cmdb) (prins finish_text : Text) → (given : (settings dc).prins ≡ some prins)
      → outside.inet.ntop (ip + 2 ^ (32 - prefix) - 1) ≡ some finish_text
      → (type master : Option Text)
      → let last = ip + 2 ^ (32 - prefix) - 1 in
        let row =
          rev_zone_row outside
            (settings dc)
            prins
            given
            range
            master
            prefix
            (ip, last)
            finish_text in
        (add_reverse_zone (some dc) (some range) type master prefix
          ≡ after_overlap dc
              (overlap_answer
                (db.ailsa_argument_query dc rev_zone_overlap (overlap_arguments ip last)))
              (in_order
                (λ c. insert_reverse_zone c row)
                ((λ c. cmdb_validate_zone c range type prefix)
                  ∷ cmdb_write_rev_zone_config
                  ∷ reload
                  ∷ [])
                dc))
        × Inserts cmdb.Tables.insert_reverse_zone row
  unfolding add_reverse_zone
  added_lem range ip reads inverse positive prefix gt le small dc prins finish_text given shown type
        master =
      let last = ip + 2 ^ (32 - prefix) - 1 in
      let row =
        rev_zone_row outside (settings dc) prins given range master prefix (ip, last) finish_text in
      let room : 1 ≤ 2 ^ (32 - prefix) = positive_power (32 - prefix) in
      let ends : ip ≤ last = omega (arith, room) in
      let above : 0 < last = omega (arith, positive, ends) in
      let below : last < 2 ^ 32 = omega (arith, small) in
      let n : (prefix == 0) ≡ false = ground arith in
      let bounds = bounds_lem outside.inet range ip reads inverse prefix gt le small (0, 0) in
      let row_fits : (m : Option Text)
          → Inserts cmdb.Tables.insert_reverse_zone (
              rev_zone_row outside (settings dc) prins given range m prefix (ip, last)
                finish_text) =
        λ m. rev_row_fits outside (settings dc) prins given range finish_text prefix ip last m in
      let text_shown = bin_lem outside.inet range ip reads last finish_text above below shown in
      (
        rw
            (
              n,
              bounds,
              overlap_lem dc ip last positive ends,
              rev_zone_row_lem outside (settings dc) prins given range prefix ip last finish_text
                  bounds text_shown master [] n,
            )
            (swap _ _ (
                is_ok (
                  overlap_answer
                    (db.ailsa_argument_query dc rev_zone_overlap (overlap_arguments ip last))))
              ∙ ap
                  (λ m.
                    after_overlap dc
                      (overlap_answer
                        (db.ailsa_argument_query dc rev_zone_overlap (overlap_arguments ip last)))
                      m)
                  (chained (λ m k. m ⇒ k) (λ m k. refl) (λ c. insert_reverse_zone c row)
                    (λ c. cmdb_validate_zone c range type prefix) cmdb_write_rev_zone_config reload
                    dc)),
        row_fits master,
      )
