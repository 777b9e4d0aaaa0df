-- ===== src/Dns/Steps.antt =====
-- The frame of the functions of src/zones.c: the command line, a chain of reads that goes to `cleanup` at
-- the first code other than 0, and the calls that change the database or the files.
use cmdb.Base.{ℕ, Option, none, some, [], ◌∷◌, if◌then◌else◌, ℤ, pos, is_ok}
use cmdb.Data.{Text, text, lint, DataList, ailsa_no_data}
use cmdb.Net.{or_old}
use cmdb.Zone.{filled}
use cmdb.Zone.Update.{Files}

-- `dnsa_comm_line_s`, less the action, the type and the file of the configuration.
pub record CommLine : Type 0 where
  pub prefix : ℕ
  pub rtype : Option Text
  pub ztype : Option Text
  pub service : Option Text
  pub protocol : Option Text
  pub domain : Option Text
  pub toplevel : Option Text
  pub host : Option Text
  pub dest : Option Text
  pub master : Option Text
  pub glue_ip : Option Text
  pub glue_ns : Option Text

-- The calls that change the database or the files; `reload` is `system` with the reload command.
pub record Changes (Cmdb : Type 0) : Type 0 where
  pub files : Files Cmdb
  pub ailsa_insert_query : Cmdb → ℕ → DataList → ℤ × Cmdb
  pub ailsa_delete_query : Cmdb → ℕ → DataList → ℤ × Cmdb
  pub ailsa_multiple_query : Cmdb → ℕ → DataList → ℤ × Cmdb
  pub ailsa_multiple_delete : Cmdb → ℕ → DataList → ℤ × Cmdb
  pub cmdb_write_fwd_zone_config : Cmdb → ℤ × Cmdb
  pub cmdb_write_rev_zone_config : Cmdb → ℤ × Cmdb
  pub reload : Cmdb → ℤ × Cmdb

-- What a chain of reads comes to: a value, the code that it goes to `cleanup` with, or a read through
-- NULL or of a value of another kind.
pub data Got {ℓ} (A : Type ℓ) : Type ℓ where
  got : A → Got A
  stop : ℤ → Got A
  fault : Got A

infixl 5 ◌>>=◌
abbrev pub ◌>>=◌ {ℓ κ} : {A : Type ℓ} {B : Type κ} → Got A → (A → Got B) → Got B
got a >>= f = f a
stop code >>= f = stop code
fault >>= f = fault

-- `if ((retval = call) != 0) goto cleanup`
abbrev pub coded : {A : Type 0} → ℤ × A → Got A
coded (retval, a) = if is_ok retval then got a else stop retval

abbrev pub readable : {A : Type 0} → Option A → Got A
readable none = fault
readable (some a) = got a

abbrev pub coded_readable : {A : Type 0} → Option (ℤ × A) → Got A
coded_readable none = fault
coded_readable (some (retval, a)) = coded (retval, a)

-- The first value of the answer; the code is 0 where there is none.
abbrev pub first_text : DataList → Got Text
first_text [] = stop (pos 0)
first_text (text t ∷ l) = got t
first_text (_ ∷ l) = fault

abbrev pub first_number : DataList → Got ℕ
first_number [] = stop (pos 0)
first_number (lint n ∷ l) = got n
first_number (_ ∷ l) = fault

-- A look-up of lib/helper.c behind what the list holds.
abbrev pub looked_up : (Option DataList → ℤ × Option DataList) → DataList → ℤ × DataList
looked_up find list = filled list (find (some list))

-- `set_db_row_updated` on a database that is there.
abbrev pub still_there : {Cmdb : Type 0} → Cmdb → ℤ × Option Cmdb → ℤ × Cmdb
still_there c (retval, d) = (retval, or_old c d)

-- Calls that change the database, each only where those before returned 0.
infixl 5 ◌⇛◌
abbrev pub ◌⇛◌ : {Cmdb : Type 0} → ℤ × Cmdb → (Cmdb → ℤ × Cmdb) → ℤ × Cmdb
(retval, c) ⇛ k = if is_ok retval then k c else (retval, c)

-- The chain of reads, and the calls behind it. `none` is a fault.
abbrev pub finish : {Cmdb A : Type 0} → Cmdb → Got A → (A → ℤ × Cmdb) → Option (ℤ × Option Cmdb)
finish dc (got a) k = let (retval, c) = k a in some (retval, some c)
finish dc (stop code) k = some (code, some dc)
finish dc fault k = none

-- A text that the first call of a function refuses where it is NULL.
abbrev pub given :
    {Cmdb : Type 0}
    → Cmdb
    → Option Text
    → (Text → Option (ℤ × Option Cmdb))
    → Option (ℤ × Option Cmdb)
given dc none k = some (ailsa_no_data, some dc)
given dc (some t) k = k t
