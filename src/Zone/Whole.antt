-- ===== src/Zone/Whole.antt =====
-- lib/dnsa_net.c: the parts of a zone file end with a newline, so its lines are the lines of the parts.
use cmdb.Base.{
  ℕ, zero, suc, ◌≤◌, ◌<◌, ◌≡◌, ◌⊎◌, refl, sym, ap, ◌∙◌, inl, inr, Bool, not, Bool-cases, true,
  false, some, List, [], ◌∷◌, ◌++◌, append_assoc, append-nil, ◌==◌, length, take, arith,
}
use cmdb.Data.{Text, codes, same_text}
use cmdb.Net.{dot}
use cmdb.Zone.Writer.{tab, newline, byte_at, lacks_dot, with_dot, server_line, second_server}
use cmdb.Zone.Readable.{lines_of}

-- The text ends with a newline.
abbrev pub Ended : Text → Type 0
Ended p = (q : Text) × (p ≡ q ++ (newline ∷ []))

-- What follows begins a new line.
abbrev pub IsWhole : Text → Type 0
IsWhole p = (t : Text) → lines_of (p ++ t) ≡ lines_of p ++ lines_of t

pub newline-Ended : Ended (newline ∷ [])
newline-Ended = ([], refl)

pub append-Ended : (a : Text) {p : Text} → Ended p → Ended (a ++ p)
append-Ended a (q, e) = (a ++ q, ap (λ t. a ++ t) e ∙ sym (append_assoc a q (newline ∷ [])))

-- The lines of a text with a newline at its end, and of what follows.
cut_lines :
    (p : Text)
    → (l : Text) × (ls : List Text) × (lines_of (p ++ (newline ∷ [])) ≡ l ∷ ls)
      × ((t : Text) → lines_of (p ++ (newline ∷ t)) ≡ l ∷ (ls ++ lines_of t))
cut_lines [] = ([], [], refl, λ t. refl)
cut_lines (x ∷ p) =
    let (l, ls, alone, followed) = cut_lines p in
    elim (Bool-cases (x == newline)) [
      | inl e ↦ ([], l ∷ ls, rw (e, alone) refl, λ t. rw (e, followed t) refl)
      | inr e ↦ (x ∷ l, ls, rw (e, alone) refl, λ t. rw (e, followed t) refl)
    ]

pub Ended-IsWhole : (p : Text) → Ended p → IsWhole p
Ended-IsWhole p (q, e) t =
    let (l, ls, alone, followed) = cut_lines q in
    rw (e, append_assoc q (newline ∷ []) t, followed t, alone) refl

pub nil-IsWhole : IsWhole []
nil-IsWhole t = refl

pub append-IsWhole : (p q : Text) → IsWhole p → IsWhole q → IsWhole (p ++ q)
append-IsWhole p q wp wq t =
    rw (append_assoc p q t, wp (q ++ t), wq t, wp q)
      (sym (append_assoc (lines_of p) (lines_of q) (lines_of t)))

pub server_line-Ended : (start name : Text) → Ended (server_line start name)
server_line-Ended start name =
    append-Ended start (append-Ended (codes "IN\tNS\t") (append-Ended name newline-Ended))

byte_read : (n : ℕ) (t : Text) → n ≤ length t → (c : ℕ) × (byte_at n t ≡ some c)
byte_read zero [] le = (0, refl)
byte_read (suc n) [] le = absurd (omega (arith, le))
byte_read zero (c ∷ t) le = (c, refl)
byte_read (suc n) (c ∷ t) le = byte_read n t (omega (arith, le))

pub lacks_read :
    (n : ℕ) (t : Text) → 0 < n → n ≤ suc (length t) → (b : Bool) × (lacks_dot n t ≡ some b)
lacks_read zero t positive le = absurd (omega (arith, positive))
lacks_read (suc n) t positive le =
    let (c, e) = byte_read n t (omega (arith, le)) in (not (c == dot), rw e refl)

-- Nothing, or text that ends with a newline.
abbrev pub Tail : Text → Type 0
Tail u = (u ≡ []) ⊎ Ended u

pub append-Tail : (p u : Text) → Ended p → Tail u → Ended (p ++ u)
append-Tail p u ended (inl e) = rw (e, append-nil p) ended
append-Tail p u ended (inr e) = append-Ended p e

pub second_lem :
    (n : ℕ) (sec : Text)
    → 0 < n
    → (same_text (take 4 sec) (codes "none") ≡ true) ⊎ (n ≤ suc (length sec))
    → (u : Text) × (second_server n sec ≡ some u) × Tail u
second_lem n sec positive case = elim (Bool-cases (same_text (take 4 sec) (codes "none"))) [
  | inl e ↦ ([], rw e refl, inl refl)
  | inr e ↦
      let le : n ≤ suc (length sec) = elim case [
        | inl same ↦ absurd (let bad : true ≡ false = sym same ∙ e in cc)
        | inr le ↦ le
      ] in
      let (b, read) = lacks_read n sec positive le in
      (
        server_line (tab ∷ []) (with_dot b sec),
        rw (e, read) refl,
        inr (server_line-Ended (tab ∷ []) (with_dot b sec)),
      )
]
