-- ===== src/Net/Tests.antt =====
-- The arithmetic of networks at concrete inputs, with a stand-in for the library's conversions
-- that writes an address as its four bytes.
use cmdb.Base.{ℕ, ◌+◌, ◌*◌, ◌/◌, ◌%◌, ◌^◌, ◌≡◌, refl, ap, Option, none, some, [], ◌∷◌, pos, arith}
use cmdb.Data.{Text, codes}
use cmdb.Net.{
  Inet, slash, dot, get_net_range, prefix_to_mask_ipv4, get_offset_ip, get_start_finsh_ips,
  get_range_search_string, get_ip_addr_and_prefix, ailsa_ip_convert_failed,
}
use cmdb.Net.Range.{Inverse, bounds_lem}
use cmdb.Net.Search.{range_roundtrip}

abbrev read_bytes : Text → Option ℕ
read_bytes (a ∷ b ∷ c ∷ d ∷ []) = some (a * 2 ^ 24 + b * 2 ^ 16 + c * 2 ^ 8 + d)
read_bytes _ = none

abbrev write_bytes : ℕ → Option Text
write_bytes ip = some (ip / 2 ^ 24 % 256 ∷ ip / 2 ^ 16 % 256 ∷ ip / 2 ^ 8 % 256 ∷ ip % 256 ∷ [])

abbrev pub four_bytes : Inet
four_bytes = record { pton = read_bytes; ntop = write_bytes; strtoul = λ t. 24 }

pub four_bytes-Inverse : Inverse four_bytes
four_bytes-Inverse ip positive small = (_, refl, ap some (omega (arith, positive, small)))

-- 10.1.2.0
abbrev pub network : Text
network = 10 ∷ 1 ∷ 2 ∷ 0 ∷ []

bounds_lem_example :
    get_start_finsh_ips four_bytes (some network) 24 (0, 0) ≡ (pos 0, 167838208, 167838463)
bounds_lem_example =
    bounds_lem four_bytes network 167838208 refl four_bytes-Inverse 24 (omega arith) (omega arith)
      (omega arith) (0, 0)

-- An address that the conversions show as dotted text.
abbrev pub dotted_text : Inet
dotted_text = record {
  pton = λ t. some 167838208;
  ntop = λ ip. some (codes "10.1.2.0");
  strtoul = λ t. 24;
}

pub offset_text :
    get_offset_ip dotted_text (some (codes "10.1.2.0")) 24 0 ≡ (pos 0, some (codes "10.1.2.0"))
unfolding get_offset_ip cmdb.Net.convert_text_ipv4_to_bin cmdb.Net.convert_bin_ipv4_to_text
offset_text = refl

range_roundtrip_example :
    get_ip_addr_and_prefix dotted_text (some (codes "10.1.2.0/24"))
    ≡ (pos 0, some (codes "10.1.2.0"), some 24)
range_roundtrip_example =
    range_roundtrip dotted_text (codes "10.1.2.0") (codes "24")
      (
        omega arith,
        (
          omega arith,
          (
            omega arith,
            (omega arith, (omega arith, (omega arith, (omega arith, (omega arith, tt))))),
          ),
        ),
      )
      (omega arith) (omega arith)
