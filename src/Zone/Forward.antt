-- ===== src/Zone/Forward.antt =====
-- lib/dnsa_net.c: `add_forward_zone`.
use cmdb.Base.{
  ℕ, zero, Bool, true, false, Option, none, some, [], if◌then◌else◌, is_null, ℤ, pos, negsuc, is_ok,
}
use cmdb.Data.{Text, DataList, ailsa_no_data}
use cmdb.Query.{Database, or_else}
use cmdb.Tables.{insert_forward_zone, insert_forward_slave_zone}
use cmdb.Helper.Several.{forward_zone}
use cmdb.Helper.Count.{cmdb_check_for_fwd_zone}
use cmdb.Sql.Lite.{is_positive}
use cmdb.Zone.{Settings, Outside, dnsa_populate_zone}
use cmdb.Zone.Update.{Files, is_slave, cmdb_validate_zone}

abbrev pub ailsa_no_master : ℤ
ailsa_no_master = pos 34

abbrev pub is_minus_one : ℤ → Bool
is_minus_one (negsuc zero) = true
is_minus_one _ = false

-- The settings that go with the database, and the calls that change it or the files:
-- `ailsa_insert_query`, `cmdb_write_fwd_zone_config`, and `system` with the reload command.
pub record ForwardActions (Cmdb : Type 0) : Type 0 where
  pub settings : Cmdb → Settings
  pub files : Files Cmdb
  pub ailsa_insert_query : Cmdb → ℕ → DataList → ℤ × Cmdb
  pub cmdb_write_fwd_zone_config : Cmdb → ℤ × Cmdb
  pub reload : Cmdb → ℤ × Cmdb

-- The statement that inserts the row; none where a slave has no master.
unfoldable pub chosen_query : Option Text → Option Text → Option ℕ
chosen_query type master =
    if is_slave type
    then (if is_null master then none else some insert_forward_slave_zone)
    else some insert_forward_zone

module _ {Cmdb : Type 0} (outside : Outside) (db : Database Cmdb)
    (actions : ForwardActions Cmdb) where
  infixl 5 ◌⇛◌
  abbrev pub ◌⇛◌ : ℤ × Option Cmdb → (Cmdb → ℤ × Option Cmdb) → ℤ × Option Cmdb
  (retval, none) ⇛ k = (retval, none)
  (retval, some dc) ⇛ k = if is_ok retval then k dc else (retval, some dc)

  abbrev pub held : ℤ × Cmdb → ℤ × Option Cmdb
  held (retval, dc) = (retval, some dc)

  -- The calls behind the row, each only where those before returned 0.
  abbrev pub install_forward : Cmdb → ℕ → Text → Option Text → DataList → ℤ × Option Cmdb
  install_forward dc query domain type l =
      held (actions.ailsa_insert_query dc query l)
      ⇛ (λ c.
          cmdb_validate_zone db actions.files outside.inet (some c) forward_zone (some domain) type
            0)
      ⇛ (λ c. held (actions.cmdb_write_fwd_zone_config c))
      ⇛ (λ c. held (actions.reload c))

  abbrev pub populated : Cmdb → ℕ → Text → Option Text → ℤ × Option DataList → ℤ × Option Cmdb
  populated dc query domain type (retval, l) =
      if is_ok retval
      then install_forward dc query domain type (or_else [] l)
      else (retval, some dc)

  -- By what the test for the zone says.
  abbrev pub by_count : Cmdb → ℤ → ℤ × Option Cmdb → ℤ × Option Cmdb
  by_count dc count rest =
      if is_positive count
      then (pos 0, some dc)
      else if is_minus_one count
      then (count, some dc)
      else rest

  abbrev pub with_query : Cmdb → Text → Option Text → Option Text → Option ℕ → ℤ × Option Cmdb
  with_query dc domain type master none = (ailsa_no_master, some dc)
  with_query dc domain type master (some query) =
      by_count dc (cmdb_check_for_fwd_zone db (some dc) (some domain) type) (
        populated dc query domain type (
          dnsa_populate_zone outside (some (actions.settings dc)) (some domain) type master
            (some [])))

  unfoldable pub add_forward_zone :
      Option Cmdb → Option Text → Option Text → Option Text → ℤ × Option Cmdb
  unfolding chosen_query
  add_forward_zone (some dc) (some domain) type master =
      with_query dc domain type master (chosen_query type master)
  add_forward_zone dc _ type master = (ailsa_no_data, dc)
