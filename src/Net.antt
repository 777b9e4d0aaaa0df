-- ===== src/Net.antt =====
-- lib/dnsa_net.c: the arithmetic of IPv4 networks. An address is a number in host byte order; an
-- `unsigned long int` has 64 bits. A shift by more than the width is undefined and gives `none`.
pub mod Mask
pub mod Range
pub mod Search
pub mod Tests
use cmdb.Base.{
  ℕ, zero, suc, ◌+◌, ◌-◌, ◌*◌, ◌/◌, ◌%◌, ◌^◌, ◌<◌, ◌≡◌, Bool, true, false, not, ◌&&◌, ◌||◌, ◌++◌,
  Option, none, some, List, [], ◌∷◌, ◌==◌, if◌then◌else◌, ltb, leb, is_null, ℤ, pos, is_ok, length,
}
use cmdb.Data.{Text, codes, strndup, ailsa_no_data, mac_len, service_len}

abbrev pub ailsa_input_invalid : ℤ
ailsa_input_invalid = pos 34

abbrev pub ailsa_prefix_out_of_range : ℤ
ailsa_prefix_out_of_range = pos 57

abbrev pub ailsa_ip_convert_failed : ℤ
ailsa_ip_convert_failed = pos 216

abbrev pub ailsa_string_fail : ℤ
ailsa_string_fail = pos 240

-- The C library: `inet_pton` with `ntohl` behind it, where it returns 1; `inet_ntop` behind
-- `htonl`, where it does not return NULL; and `strtoul` to the base 10.
pub record Inet : Type 0 where
  pub pton : Text → Option ℕ
  pub ntop : ℕ → Option Text
  pub strtoul : Text → ℕ

unfoldable pub get_net_range : ℕ → Option ℕ
get_net_range prefix = if ltb prefix 64 then some (4294967295 / 2 ^ prefix + 1) else none

-- `4294967295` is a 64-bit `long`; the cast keeps 32 bits.
unfoldable pub prefix_to_mask_ipv4 : ℕ → Option ℕ
prefix_to_mask_ipv4 prefix =
    if prefix == 0
    then some 0
    else if ltb 32 prefix
    then none
    else some (4294967295 * 2 ^ (32 - prefix) % 2 ^ 32)

-- The exponent of the power of two.
abbrev exponent : ℕ → ℕ
exponent prefix =
    if ltb 8 prefix && ltb prefix 16
    then 16 - prefix
    else if ltb 16 prefix && ltb prefix 24
    then 24 - prefix
    else 0

unfoldable pub get_zone_index : ℕ → ℤ × Option ℕ
get_zone_index prefix =
    if prefix == 0
    then (ailsa_no_data, none)
    else if ltb prefix 8
    then (ailsa_prefix_out_of_range, none)
    else (pos 0, some (if exponent prefix == 0 then 1 else 2 ^ exponent prefix))

-- What an out-parameter holds behind a call that may have written to it.
abbrev pub or_old : {A : Type 0} → A → Option A → A
or_old old none = old
or_old old (some new) = new

-- The text up to the first `c`, and the text behind it: `strchr`.
abbrev pub split_at : ℕ → Text → Option (Text × Text)
split_at c [] = none
split_at c (x ∷ t) =
    let rest = split_at c t in
    if x == c then some ([], t) else elim rest [ none ↦ none | some (a, b) ↦ some (x ∷ a, b) ]

abbrev pub slash : ℕ
slash = 47

abbrev pub dot : ℕ
dot = 46

abbrev pub percent : ℕ
percent = 37

abbrev pub convert_result : Option Text → ℤ × Option Text
convert_result none = (ailsa_ip_convert_failed, none)
convert_result (some addr) = (pos 0, some addr)

abbrev pub binary_result : Option ℕ → ℤ × Option ℕ
binary_result none = (ailsa_ip_convert_failed, none)
binary_result (some host) = (pos 0, some host)

-- The prefix behind the slash, of at most two characters.
abbrev prefix_result : Inet → Option (Text × Text) → ℤ × Option Text × Option ℕ
prefix_result inet none = (ailsa_input_invalid, none, none)
prefix_result inet (some (tmp, ptr)) =
    if ltb 2 (length ptr)
    then (ailsa_string_fail, some (strndup tmp service_len), none)
    else (pos 0, some (strndup tmp service_len), some (inet.strtoul ptr))

abbrev move_over : Text → Option (Text × Text) → Option (Text × Text)
move_over done none = none
move_over done (some (a, b)) = some (done ++ (a ++ (dot ∷ [])), b)

-- `p = strchr(p, '.'); p++`: what stands up to the dot and with it, and what stands behind it.
abbrev behind_dot : Option (Text × Text) → Option (Text × Text)
behind_dot none = none
behind_dot (some (done, p)) = move_over done (split_at dot p)

-- `snprintf(p, 2, "%%")`
abbrev wildcard : Option (Text × Text) → ℤ × Option Text
wildcard none = (ailsa_ip_convert_failed, none)
wildcard (some (done, p)) = (pos 0, some (done ++ (percent ∷ [])))

module _ (inet : Inet) where
  open inet use {pton, ntop}

  -- What goes out through `range` and `prefix`. The copy of `ip` is cut after 32 characters.
  unfoldable pub get_ip_addr_and_prefix : Option Text → ℤ × Option Text × Option ℕ
  get_ip_addr_and_prefix none = (ailsa_no_data, none, none)
  get_ip_addr_and_prefix (some ip) = prefix_result inet (split_at slash (strndup ip mac_len))

  -- The cast to `u_int32_t` keeps 32 bits.
  unfoldable pub convert_bin_ipv4_to_text : ℕ → ℤ × Option Text
  convert_bin_ipv4_to_text ip =
      if ip == 0 then (ailsa_no_data, none) else convert_result (ntop (ip % 2 ^ 32))

  unfoldable pub convert_text_ipv4_to_bin : Option Text → ℤ × Option ℕ
  convert_text_ipv4_to_bin none = (ailsa_no_data, none)
  convert_text_ipv4_to_bin (some addr) = binary_result (pton addr)

  -- The address `index` third or second octets further.
  abbrev offset : ℕ → ℕ → ℕ → ℤ × Option Text
  offset ip prefix index =
      if ltb 16 prefix && leb prefix 24
      then convert_bin_ipv4_to_text ((if ltb 0 index then ip + 256 * index else ip) % 2 ^ 64)
      else if ltb 8 prefix && leb prefix 16
      then convert_bin_ipv4_to_text ((if ltb 0 index then ip + 65536 * index else ip) % 2 ^ 64)
      else if prefix == 8
      then convert_bin_ipv4_to_text ip
      else (ailsa_ip_convert_failed, none)

  unfoldable pub get_offset_ip : Option Text → ℕ → ℕ → ℤ × Option Text
  get_offset_ip range prefix index =
      if is_null range || prefix == 0
      then (ailsa_no_data, none)
      else let (retval, ip) = convert_text_ipv4_to_bin range in
        if is_ok retval then offset (or_old 0 ip) prefix index else (retval, none)

  -- `--last` of an unsigned 64-bit number.
  abbrev pub decrement : ℕ → ℕ
  decrement last = if last == 0 then 2 ^ 64 - 1 else last - 1

  -- `bounds` is what `start` and `end` point to.
  unfoldable pub get_start_finsh_ips : Option Text → ℕ → ℕ × ℕ → ℤ × ℕ × ℕ
  get_start_finsh_ips range prefix (start, finish) =
      if is_null range && prefix == 0
      then (ailsa_no_data, start, finish)
      else let (retval, ip) = convert_text_ipv4_to_bin range in
        let begin = or_old start ip in
        if not (is_ok retval)
        then (retval, begin, finish)
        else let (retval, index) = get_zone_index prefix in
          if not (is_ok retval)
          then (retval, begin, finish)
          else let (retval, addr) = get_offset_ip range prefix (or_old 0 index) in
            if not (is_ok retval)
            then (retval, begin, finish)
            else let (retval, last) = convert_text_ipv4_to_bin addr in
              if not (is_ok retval)
              then (retval, begin, finish)
              else (retval, begin, decrement (or_old 0 last))

  -- The text that `search` holds; on an error the caller does not use it.
  unfoldable pub get_range_search_string : Option Text → ℕ → ℕ → ℤ × Option Text
  get_range_search_string range prefix index =
      if is_null range || prefix == 0
      then (ailsa_no_data, none)
      else let (retval, search) = get_offset_ip range prefix index in
        if not (is_ok retval)
        then (retval, none)
        else let one = behind_dot (some ([], or_old [] search)) in
          let two = if ltb 8 prefix then behind_dot one else one in
          let three = if ltb 16 prefix then behind_dot two else two in wildcard three
