-- ===== src/Data/Growing.antt =====
-- lib/data.c: `ailsa_string_s`, a text in a block that grows. `none` is a write behind the block.
use cmdb.Base.{
  ℕ, ◌+◌, ◌*◌, ◌%◌, ◌^◌, Option, none, some, List, [], ◌∷◌, ◌++◌, ltb, leb, if◌then◌else◌, length,
  take,
}
use cmdb.Data.{Text}

abbrev pub file_len : ℕ
file_len = 4096

-- `size` is also the size of the block; `string` is the text in it, up to the NUL.
pub record AilsaString : Type 0 where
  pub string : Text
  pub len : ℕ
  pub size : ℕ

unfoldable pub ailsa_init_string : AilsaString
ailsa_init_string = record { string = []; len = 0; size = file_len }

-- Doubled once; the text stays.
unfoldable pub ailsa_resize_string : AilsaString → AilsaString
ailsa_resize_string str = record str { size = str.size * 2 % 2 ^ 64 }

-- `snprintf(str->string + str->len, len, "%s", s)` with `len` one more than `s` has, and the new `len`.
abbrev pub write_behind : Text → AilsaString → Option AilsaString
write_behind s str =
    if ltb str.size (str.len + length s + 1)
    then none
    else some (record {
      string = take str.len str.string ++ s;
      len = length (take str.len str.string ++ s);
      size = str.size;
    })

unfoldable pub ailsa_fill_string : Text → AilsaString → Option AilsaString
unfolding ailsa_resize_string
ailsa_fill_string s str =
    write_behind s (if leb str.size (length s + str.len) then ailsa_resize_string str else str)

abbrev pub next_fill : Option AilsaString → (AilsaString → Option AilsaString) → Option AilsaString
next_fill none rest = none
next_fill (some str) rest = rest str

-- Several texts one after the other, as the writers of configuration files fill a string.
unfoldable pub fill_all : List Text → AilsaString → Option AilsaString
unfolding ailsa_fill_string
fill_all [] str = some str
fill_all (s ∷ texts) str = next_fill (ailsa_fill_string s str) (fill_all texts)
