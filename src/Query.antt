-- ===== src/Query.antt =====
-- The frame of the functions of lib/helper.c: a local argument list, the caller's result list, and
-- a chain of calls that goes to `cleanup` at the first non-zero code. The database itself is the
-- interface that those functions use of lib/queries.c.
use cmdb.Base.{ℕ, Option, none, some, [], ◌++◌, if◌then◌else◌, ℤ, is_ok}
use cmdb.Data.{Text, DataList, ailsa_no_data, cmdb_add_string_to_list, cmdb_add_number_to_list}

-- What lib/queries.c offers to its callers. A query is given by its number in the table of its
-- kind; the rows that it returns are the values that it appends to the result list, on an error
-- those before the error.
pub record Database (Cmdb : Type 0) : Type 0 where
  pub ailsa_basic_query : Cmdb → ℕ → ℤ × DataList
  pub ailsa_argument_query : Cmdb → ℕ → DataList → ℤ × DataList
  pub ailsa_update_query : Cmdb → ℕ → DataList → ℤ × Cmdb

-- The two lists of a function: `args` is local, `results` is the caller's.
pub record Frame : Type 0 where
  pub args : DataList
  pub results : DataList

abbrev pub Step : Type 0
Step = Frame → ℤ × Frame

-- `if ((retval = m) != 0) goto cleanup; k`
infixl 5 ◌>>◌
abbrev pub ◌>>◌ : Step → Step → Step
◌>>◌ m k f = let (retval, g) = m f in if is_ok retval then k g else (retval, g)

abbrev pub or_else : DataList → Option DataList → DataList
or_else l none = l
or_else l (some m) = m

-- `cmdb_add_string_to_list(str, args)`
abbrev pub add_string : Option Text → Step
add_string str f =
    let (retval, l) = cmdb_add_string_to_list str (some f.args) in
    (retval, record f { args = or_else f.args l })

abbrev pub add_number : ℕ → Step
add_number number f =
    let (retval, l) = cmdb_add_number_to_list number (some f.args) in
    (retval, record f { args = or_else f.args l })

-- The checks for NULL that open each function, the local list, and `cleanup`, which frees it.
abbrev pub with_lists :
    {Cmdb : Type 0} → Option Cmdb → Option DataList → (Cmdb → Step) → ℤ × Option DataList
with_lists none list body = (ailsa_no_data, list)
with_lists (some dc) none body = (ailsa_no_data, none)
with_lists (some dc) (some list) body =
    let (retval, f) = body dc (record { args = []; results = list }) in (retval, some f.results)

module _ {Cmdb : Type 0} (db : Database Cmdb) where
  open db use {ailsa_basic_query, ailsa_argument_query}

  -- The rows go behind what the result list holds.
  abbrev pub basic_query : Cmdb → ℕ → Step
  basic_query dc query f =
      let (retval, rows) = ailsa_basic_query dc query in
      (retval, record f { results = f.results ++ rows })

  abbrev pub argument_query : Cmdb → ℕ → Step
  argument_query dc query f =
      let (retval, rows) = ailsa_argument_query dc query f.args in
      (retval, record f { results = f.results ++ rows })
