-- ===== src/Zone/ForwardTests.antt =====
-- A forward zone that is added, and serial numbers that rise.
use cmdb.Base.{Option, ℤ, length, ℕ, ◌+◌, ◌<◌, ◌≡◌, refl, none, some, [], ◌∷◌, pos, arith}
use cmdb.Data.{Text, DataList, codes, text, lint}
use cmdb.Tables.{
  insert_forward_zone, insert_forward_slave_zone, fwd_zone_serial_update, rev_zone_serial_update,
}
use cmdb.Zone.Tests.{machine, server, counting}
use cmdb.Zone.Rows.{zone_row}
use cmdb.Zone.Columns.{Inserts}
use cmdb.Zone.Update.{next_serial, ailsa_check_for_zone_update, ailsa_check_for_rev_zone_update}
use cmdb.Zone.Rises.{updated, serials_rise}
use cmdb.Zone.Forward.{ForwardActions, ailsa_no_master, add_forward_zone}
use cmdb.Zone.Added.{Addition, installed, count, add_forward_zone_lem}

abbrev forward_changes : ForwardActions ℕ
forward_changes = record {
  settings = λ dc. server;
  files = record {
    write_fwd_zone_file = λ dc zone. (pos 0, dc);
    write_rev_zone_file = λ dc zone prefix index. (pos 0, dc);
    cmdb_check_zone = λ dc zone. (pos 0, dc);
  };
  ailsa_insert_query = λ dc query row. (pos 0, dc + 1);
  cmdb_write_fwd_zone_config = λ dc. (pos 0, dc + 1);
  reload = λ dc. (pos 0, dc + 1);
}

abbrev domain : Text
domain = codes "example.com"

abbrev ns : Text
ns = codes "ns1"

abbrev own_row : DataList
own_row = zone_row machine server ns refl domain none

abbrev slave_row : DataList
slave_row = zone_row machine server ns refl domain (some (codes "slave", codes "10.1.2.3"))

abbrev made : ℕ → Option Text → DataList → ℤ × ℕ
made query type row = installed machine counting forward_changes 0 ns refl domain query type row

abbrev counted : Option Text → ℤ
counted type = count machine counting forward_changes 0 ns refl domain type

abbrev hint_row : DataList
hint_row = zone_row machine server ns refl domain (some (codes "hint", codes "10.1.2.3"))

abbrev adds : Option Text → Option Text → ℤ × Option ℕ
adds type ip = add_forward_zone machine counting forward_changes (some 0) (some domain) type ip

add_forward_zone_example :
    Addition 0 (counted none) (made insert_forward_zone none own_row) (adds none none)
    × Inserts insert_forward_zone own_row
    × Addition 0
        (counted (some (codes "slave")))
        (made insert_forward_slave_zone (some (codes "slave")) slave_row)
        (adds (some (codes "slave")) (some (codes "10.1.2.3")))
    × Inserts insert_forward_slave_zone slave_row
    × Addition 0
        (counted (some (codes "hint")))
        (made insert_forward_zone (some (codes "hint")) hint_row)
        (adds (some (codes "hint")) (some (codes "10.1.2.3")))
    × (length hint_row ≡ 12)
    × (adds (some (codes "slave")) none ≡ (ailsa_no_master, some 0))
add_forward_zone_example =
    add_forward_zone_lem machine counting forward_changes 0 ns refl domain none (codes "hint")
      (codes "slave") (codes "10.1.2.3") refl refl refl

serials_rise_example :
    (5 < next_serial machine 5)
    × (ailsa_check_for_zone_update counting machine 0
          (lint 0 ∷ lint 5 ∷ lint 1 ∷ lint 2 ∷ lint 3 ∷ text (codes "yes") ∷ [])
          ns
        ≡ some (
          (updated counting machine 0 ns fwd_zone_serial_update (next_serial machine 5)).0,
          (updated counting machine 0 ns fwd_zone_serial_update (next_serial machine 5)).1,
          lint 0
              ∷ lint (next_serial machine 5)
              ∷ lint 1
              ∷ lint 2
              ∷ lint 3
              ∷ text (codes "yes")
              ∷ [],
        ))
    × (ailsa_check_for_rev_zone_update counting machine 0
          (lint 0 ∷ lint 1 ∷ lint 2 ∷ lint 5 ∷ lint 3 ∷ lint 4 ∷ lint 6 ∷ text (codes "yes") ∷ [])
          ns
        ≡ some (
          (updated counting machine 0 ns rev_zone_serial_update (next_serial machine 5)).0,
          (updated counting machine 0 ns rev_zone_serial_update (next_serial machine 5)).1,
          lint 0
              ∷ lint 1
              ∷ lint 2
              ∷ lint (next_serial machine 5)
              ∷ lint 3
              ∷ lint 4
              ∷ lint 6
              ∷ text (codes "yes")
              ∷ [],
        ))
serials_rise_example =
    serials_rise counting machine 0 ns (lint 0) (lint 1) (lint 2) (lint 3) (lint 4) (lint 6) 5 [] []
      refl refl (omega arith)
