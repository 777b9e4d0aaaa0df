-- ===== src/Data.antt =====
-- lib/data.c: the values that go to and come from the database (`ailsa_data_s`), and the functions
-- that add one to an `AILLIST`. Here an `AILLIST` is the sequence of the values that it holds; the
-- module AilList has the doubly linked representation, and shows that `ailsa_list_insert` appends.
pub mod Reading
pub mod Growing
pub mod Filled
pub mod Partition
mod Tests
use Prim.Native.String.{String}
use Prim.Native.Char.{code}
use cmdb.Base.{
  ℕ, ◌-◌, Option, none, some, List, [], ◌∷◌, ◌++◌, ◌&&◌, ◌||◌, Bool, true, false, ◌==◌,
  if◌then◌else◌, ℤ, pos, length, get_elem?, take, ltb,
}

-- The bytes of a C string, less the closing NUL.
abbrev pub Text : Type 0
Text = List ℕ

abbrev pub codes : String → Text
codes String.[] = []
codes (String.◌∷◌ c s) = code c ∷ codes s

-- `strcmp(s, t) == 0`
abbrev pub same_text : Text → Text → Bool
same_text [] [] = true
same_text (c ∷ s) (d ∷ t) = c == d && same_text s t
same_text _ _ = false

-- The union with its tag: AILSA_DB_TEXT, _LINT, _SINT, _FLOAT (as the bits of the double) and _NULL.
-- The time of a MySQL row, which only a build with MySQL has, is left out.
pub data DbData : Type 0 where
  text : Text → DbData
  lint : ℕ → DbData
  sint : ℤ → DbData
  point : ℕ → DbData
  null : DbData

abbrev pub DataList : Type 0
DataList = List DbData

abbrev pub mac_len : ℕ
mac_len = 32

abbrev pub service_len : ℕ
service_len = 16

abbrev pub config_len : ℕ
config_len = 256

abbrev pub ailsa_no_data : ℤ
ailsa_no_data = pos 200

-- `strndup(s, n)`
abbrev pub strndup : Text → ℕ → Text
strndup s n = take n s

unfoldable pub cmdb_add_string_to_list : Option Text → Option DataList → ℤ × Option DataList
cmdb_add_string_to_list none list = (ailsa_no_data, list)
cmdb_add_string_to_list (some str) none = (ailsa_no_data, none)
cmdb_add_string_to_list (some str) (some list) =
    (pos 0, some (list ++ (text (strndup str config_len) ∷ [])))

unfoldable pub cmdb_add_number_to_list : ℕ → Option DataList → ℤ × Option DataList
cmdb_add_number_to_list number none = (ailsa_no_data, none)
cmdb_add_number_to_list number (some list) = (pos 0, some (list ++ (lint number ∷ [])))

unfoldable pub cmdb_add_short_to_list : ℤ → Option DataList → ℤ × Option DataList
cmdb_add_short_to_list small none = (ailsa_no_data, none)
cmdb_add_short_to_list small (some list) = (pos 0, some (list ++ (sint small ∷ [])))

-- `uid` is what getuid() returns. On a NULL list the first insertion fails with -1.
unfoldable pub cmdb_populate_cuser_muser : ℕ → Option DataList → ℤ × Option DataList
cmdb_populate_cuser_muser uid none = (ℤ.negsuc 0, none)
cmdb_populate_cuser_muser uid (some list) = (pos 0, some (list ++ (lint uid ∷ lint uid ∷ [])))

-- The body that `cmdb_add_os_name_or_alias_to_list` and its sister for versions share.
abbrev name_or_alias : ℕ → Option Text → Option Text → Option DataList → Option DataList
name_or_alias len none none list = list
name_or_alias len (some name) alias none = none
name_or_alias len (some name) alias (some list) =
    some (list ++ (text (strndup name len) ∷ text (strndup name len) ∷ []))
name_or_alias len none (some alias) none = none
name_or_alias len none (some alias) (some list) =
    some (list ++ (text (strndup alias len) ∷ text (strndup alias len) ∷ []))

unfoldable pub cmdb_add_os_name_or_alias_to_list :
    Option Text → Option Text → Option DataList → Option DataList
cmdb_add_os_name_or_alias_to_list os alias list = name_or_alias mac_len os alias list

unfoldable pub cmdb_add_os_version_or_alias_to_list :
    Option Text → Option Text → Option DataList → Option DataList
cmdb_add_os_version_or_alias_to_list ver valias list = name_or_alias service_len ver valias list

abbrev text_of : Option DbData → Option Text
text_of (some (text t)) = some t
text_of _ = none

-- `n` counts from 1.
unfoldable pub cmdb_get_string_from_data_list : Option DataList → ℕ → Option Text
cmdb_get_string_from_data_list none n = none
cmdb_get_string_from_data_list (some list) n =
    if n == 0 || ltb (length list) n then none else text_of (get_elem? list (n - 1))
