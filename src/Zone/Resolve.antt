-- ===== src/Zone/Resolve.antt =====
-- lib/dnsa_net.c: the address of a name, over `getaddrinfo` and `inet_ntop` of the C library.
use cmdb.Base.{ℕ, Option, none, some, List, [], ◌∷◌, ℤ, pos}
use cmdb.Data.{Text}

abbrev pub ailsa_getaddr_fail : ℤ
ailsa_getaddr_fail = pos 231

-- The family of an address that `getaddrinfo` returns.
pub data Family : Type 0 where
  inet4 inet6 other_family : Family

-- `getaddrinfo` for a name: none where it fails, else its addresses, each with what `inet_ntop` makes of it.
abbrev pub Resolver : Type 0
Resolver = Text → Option (List (Family × Option Text))

-- The code, the address as a text and its type, 4 or 6; what is not written stays as it was: empty and none.
abbrev printed_address : ℕ → Option Text → ℤ × Text × Option ℕ
printed_address type none = (ailsa_getaddr_fail, [], some type)
printed_address type (some ip) = (pos 0, ip, some type)

abbrev first_address : List (Family × Option Text) → ℤ × Text × Option ℕ
first_address [] = (pos 0, [], none)
first_address ((Family.inet4, ip) ∷ results) = printed_address 4 ip
first_address ((Family.inet6, ip) ∷ results) = printed_address 6 ip
first_address ((Family.other_family, ip) ∷ results) = (pos 0, [], none)

abbrev of_results : Option (List (Family × Option Text)) → ℤ × Text × Option ℕ
of_results none = (ailsa_getaddr_fail, [], none)
of_results (some results) = first_address results

unfoldable pub cmdb_getaddrinfo : Resolver → Text → ℤ × Text × Option ℕ
cmdb_getaddrinfo getaddrinfo name = of_results (getaddrinfo name)
