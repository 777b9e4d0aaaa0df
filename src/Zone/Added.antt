-- ===== src/Zone/Added.antt =====
-- What `add_forward_zone` of lib/dnsa_net.c does.
use cmdb.Base.{
  ℕ, ◌≡◌, ◌≢◌, refl, ap, sym, subst, ◌∙◌, inl, inr, true, false, Option, none, some, [], ◌∷◌, ℤ,
  pos, negsuc, zero, suc, minus_one, is_ok, length, arith, Bool-cases, if◌then◌else◌, in_order,
  chained, Call,
}
use cmdb.Data.{Text, DataList}
use cmdb.Query.{Database}
use cmdb.Tables.{insert_forward_zone, insert_forward_slave_zone}
use cmdb.Helper.Count.{cmdb_check_for_fwd_zone}
use cmdb.Zone.{Outside, dnsa_populate_zone}
use cmdb.Zone.Rows.{zone_row, zone_row_lem}
use cmdb.Zone.Columns.{Inserts, zone_rows_fit}
use cmdb.Sql.Lite.{is_positive}
use cmdb.Net.{or_old}
use cmdb.Helper.Several.{forward_zone}
use cmdb.Zone.Update.{is_slave, cmdb_validate_zone}
use cmdb.Zone.Forward.{
  ailsa_no_master, ForwardActions, is_minus_one, held, ◌⇛◌, by_count, install_forward, chosen_query,
  add_forward_zone,
}

-- What an addition comes to, by the count of the zones with this name: nothing is done where there is one,
-- or where the database cannot say, which is -1; else the calls have been made.
pub data Addition {Cmdb : Type 0} (dc : Cmdb) (count : ℤ) (made : ℤ × Cmdb)
    : ℤ × Option Cmdb → Type 0 where
  present : is_positive count ≡ true → Addition dc count made (pos 0, some dc)
  unknown : count ≡ minus_one → Addition dc count made (minus_one, some dc)
  new_zone :
      is_positive count ≡ false → count ≢ minus_one → Addition dc count made (made.0, some made.1)

module _ {Cmdb : Type 0} (outside : Outside) (db : Database Cmdb) (actions : ForwardActions Cmdb)
    (dc : Cmdb) (prins : Text) (given : (actions.settings dc).prins ≡ some prins)
    (domain : Text) where
  populates :
      (type : Option Text)
      → dnsa_populate_zone outside (some (actions.settings dc)) (some domain) type none (some [])
        ≡ (pos 0, some (zone_row outside (actions.settings dc) prins given domain none))
  unfolding dnsa_populate_zone
  populates type = zone_row_lem outside (actions.settings dc) prins given domain none []

  -- The validation of the zone, in a database that is there.
  abbrev pub validate : Option Text → Call Cmdb
  validate type c =
      let (retval, d) =
        cmdb_validate_zone db actions.files outside.inet (some c) forward_zone (some domain) type
          0 in
      (retval, or_old c d)

  -- The insertion of the row, the validation of the zone, the writing of the configuration and the reload.
  abbrev pub installed : ℕ → Option Text → DataList → ℤ × Cmdb
  installed query type row =
      in_order (λ c. actions.ailsa_insert_query c query row)
        (validate type ∷ actions.cmdb_write_fwd_zone_config ∷ actions.reload ∷ []) dc

  abbrev pub count : Option Text → ℤ
  count type = cmdb_check_for_fwd_zone db (some dc) (some domain) type

  held-step :
      (m : ℤ × Cmdb) (k : Call Cmdb)
      → (◌⇛◌ outside db actions (held outside db actions m) (λ c. held outside db actions (k c)))
        ≡ held outside db actions (if is_ok m.0 then k m.1 else m)
  held-step m k = elim (Bool-cases (is_ok m.0)) [ inl e ↦ rw e refl | inr e ↦ rw e refl ]

  held-chain :
      (a b c d : Call Cmdb)
      → ◌⇛◌ outside db actions
          (◌⇛◌ outside db actions
            (◌⇛◌ outside db actions
              (held outside db actions (a dc))
              (λ x. held outside db actions (b x)))
            (λ x. held outside db actions (c x)))
          (λ x. held outside db actions (d x))
        ≡ held outside db actions (in_order a (b ∷ c ∷ d ∷ []) dc)
  held-chain a b c d =
      let seq = λ (m : ℤ × Cmdb) (k : Call Cmdb). if is_ok m.0 then k m.1 else m in
      ap
        (λ m.
          ◌⇛◌ outside db actions (◌⇛◌ outside db actions m (λ x. held outside db actions (c x)))
            (λ x. held outside db actions (d x)))
        (held-step (a dc) b)
      ∙ ap (λ m. ◌⇛◌ outside db actions m (λ x. held outside db actions (d x)))
          (held-step (seq (a dc) b) c)
      ∙ held-step (seq (seq (a dc) b) c) d
      ∙ ap (held outside db actions) (chained seq (λ m k. refl) a b c d dc)

  install_lem :
      (query : ℕ) (type : Option Text) (row : DataList)
      → install_forward outside db actions dc query domain type row
        ≡ ((installed query type row).0, some (installed query type row).1)
  unfolding cmdb_validate_zone
  install_lem query type row =
      held-chain (λ c. actions.ailsa_insert_query c query row) (validate type)
        actions.cmdb_write_fwd_zone_config actions.reload

  minus : (n : ℤ) → is_minus_one n ≡ true → n ≡ minus_one
  minus (pos m) e = absurd (ground arith)
  minus (negsuc zero) e = refl
  minus (negsuc (suc m)) e = absurd (ground arith)

  by_count-Addition :
      (n : ℤ) (query : ℕ) (type : Option Text) (row : DataList)
      → Addition dc n (installed query type row) (
          by_count outside db actions dc n
            (install_forward outside db actions dc query domain type row))
  by_count-Addition n query type row = elim (Bool-cases (is_positive n)) [
    | inl e ↦ rw e (present e)
    | inr e ↦ elim (Bool-cases (is_minus_one n)) [
      | inl f ↦
          rw (e, f)
            (subst (λ (x : ℤ). Addition dc n (installed query type row) (x, some dc))
              (sym (minus n f)) (unknown (minus n f)))
      | inr f ↦ rw (e, f, install_lem query type row) (new_zone e (λ same. cc))
    ]
  ]

  -- A zone of its own, of any type but "slave", is inserted with INSERT_FORWARD_ZONE, and a slave zone
  -- with a master with INSERT_FORWARD_SLAVE_ZONE, where the database counts no zone with this name; where
  -- it counts one nothing is done and the code is 0, and where it cannot say the code is -1. The row has one
  -- value of its type for each place of the statement, so each of them is bound; then the zone is
  -- validated, the configuration written and the server reloaded, each only where the calls before
  -- returned 0. A zone of another type for which a master is given has a row of twelve values for the
  -- eleven places of INSERT_FORWARD_ZONE. A slave zone without a master is refused with AILSA_NO_MASTER and
  -- nothing changes. The primary name server is set.
  pub add_forward_zone_lem :
      (type : Option Text) (own slave ip : Text)
      → is_slave type ≡ false
      → is_slave (some own) ≡ false
      → is_slave (some slave) ≡ true
      → let row : Option (Text × Text) → DataList =
          λ kind. zone_row outside (actions.settings dc) prins given domain kind in
        Addition dc
          (count type)
          (installed insert_forward_zone type (row none))
          (add_forward_zone outside db actions (some dc) (some domain) type none)
        × Inserts insert_forward_zone (row none)
        × Addition dc
            (count (some slave))
            (installed insert_forward_slave_zone (some slave) (row (some (slave, ip))))
            (add_forward_zone outside db actions (some dc) (some domain) (some slave) (some ip))
        × Inserts insert_forward_slave_zone (row (some (slave, ip)))
        × Addition dc
            (count (some own))
            (installed insert_forward_zone (some own) (row (some (own, ip))))
            (add_forward_zone outside db actions (some dc) (some domain) (some own) (some ip))
        × (length (row (some (own, ip))) ≡ 12)
        × (add_forward_zone outside db actions (some dc) (some domain) (some slave) none
            ≡ (ailsa_no_master, some dc))
  unfolding add_forward_zone chosen_query
  add_forward_zone_lem type own slave ip plain plain_own other =
      let cbs = actions.settings dc in
      let fit = zone_rows_fit outside cbs prins given domain slave ip domain domain 24 0 0 in
      (
        rw (plain, populates type) (by_count-Addition (count type) _ type _),
        fit.0,
        rw (other, zone_row_lem outside cbs prins given domain (some (slave, ip)) [])
            (by_count-Addition (count (some slave)) _ _ _),
        fit.1,
        rw (plain_own, zone_row_lem outside cbs prins given domain (some (own, ip)) [])
            (by_count-Addition (count (some own)) _ _ _),
        refl,
        rw other refl,
      )
