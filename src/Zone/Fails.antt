-- ===== src/Zone/Fails.antt =====
-- The row of a reverse zone where its last address has no text (lib/dnsa_net.c).
use cmdb.Base.{
  ℕ, ◌%◌, ◌^◌, ◌≡◌, refl, ◌⊎◌, inl, inr, Bool-cases, false, Option, none, some, [], ◌++◌, ◌==◌,
  if◌then◌else◌, is_ok, is_null, pos,
}
use cmdb.Data.{Text, DataList, codes}
use cmdb.Helper.Several.{master}
use cmdb.Net.{Inet, get_start_finsh_ips, convert_bin_ipv4_to_text, convert_result}
use cmdb.Zone.{
  Settings, Outside, Add, ◌⨟◌, string, number, secondary, cuser_muser, net_finish, rev_zone_rest,
  behind_bounds, generate_zone_serial, dnsa_populate_rev_zone,
}
use cmdb.Zone.Rows.{Adds, ◌⊕◌, Adds-string, Adds-number, rev_zone_row, rev_zone_row_lem}

-- The call fails on every list.
record Fails (m : Add) : Type 0 where
  failing : (list : DataList) → is_ok (m list).0 ≡ false

infixl 5 ◌◁◌
◌◁◌ : {m : Add} → Fails m → (k : Add) → Fails (m ⨟ k)
p ◁ k = record { failing = λ list. rw (p.failing list) (p.failing list) }

Fails-second : {m k : Add} {vs : DataList} → Adds m vs → Fails k → Fails (m ⨟ k)
Fails-second {vs = vs} p q = record { failing = λ list. rw (p.on list) (q.failing (list ++ vs)) }

result_cases :
    (o : Option Text)
    → ((t : Text) × (convert_result o ≡ (pos 0, some t))) ⊎ (is_ok (convert_result o).0 ≡ false)
result_cases none = inr refl
result_cases (some t) = inl (t, refl)

-- An address has a text, or the conversion fails.
convert_cases :
    (inet : Inet) (n : ℕ)
    → ((t : Text) × (convert_bin_ipv4_to_text inet n ≡ (pos 0, some t)))
      ⊎ (is_ok (convert_bin_ipv4_to_text inet n).0 ≡ false)
unfolding convert_bin_ipv4_to_text
convert_cases inet n = elim (Bool-cases (n == 0)) [
  | inl e ↦ inr (rw e refl)
  | inr e ↦ rw e (result_cases (inet.ntop (n % 2 ^ 32)))
]

module _ (outside : Outside) (cbs : Settings) (prins : Text) (given : cbs.prins ≡ some prins)
    (range : Text) (prefix start finish : ℕ)
    (bounds : get_start_finsh_ips outside.inet (some range) prefix (0, 0)
      ≡ (pos 0, start, finish)) where
  Fails-rest :
      (master_ip : Option Text)
      → is_ok (convert_bin_ipv4_to_text outside.inet finish).0 ≡ false
      → Fails (behind_bounds outside cbs range master_ip prefix)
  Fails-rest master_ip bad =
      let ending : Fails (net_finish outside finish) = record {
        failing = λ list. rw (bad, bad) refl;
      } in
      let all : Fails (rev_zone_rest outside cbs master_ip (start, finish)) =
        Fails-second (Adds-number start) ending
        ◁ number finish
        ◁ string cbs.prins
        ◁ secondary cbs.secns
        ◁ number (generate_zone_serial outside)
        ◁ number cbs.refresh
        ◁ number cbs.retry
        ◁ number cbs.expire
        ◁ number cbs.ttl
        ◁ (if is_null master_ip
            then (string (some master) ⨟ string (some (codes "NULL")))
            else (string (some (codes "slave")) ⨟ string master_ip))
        ◁ string (some (codes "no"))
        ◁ cuser_muser outside.uid in
      record { failing = λ list. rw bounds (all.failing list) }

  failed_row :
      (master_ip : Option Text)
      → (prefix == 0) ≡ false
      → is_ok (convert_bin_ipv4_to_text outside.inet finish).0 ≡ false
      → is_ok (dnsa_populate_rev_zone outside (some cbs) (some range) master_ip prefix (some [])).0
        ≡ false
  unfolding dnsa_populate_rev_zone
  failed_row master_ip n bad =
      let row =
        Fails-second (Adds-string range ⊕ Adds-string (outside.decimal prefix) ⊕ Adds-string range)
          (Fails-rest master_ip bad) in
      rw n (row.failing [])

  -- The row of a reverse zone is put together, or there is an error.
  pub row_cases :
      (master_ip : Option Text)
      → (prefix == 0) ≡ false
      → ((text : Text) × (dnsa_populate_rev_zone outside
              (some cbs)
              (some range)
              master_ip
              prefix
              (some [])
            ≡ (
              pos 0,
              some (
                  rev_zone_row outside cbs prins given range master_ip prefix (start, finish) text),
            )))
        ⊎ (is_ok
              (dnsa_populate_rev_zone outside (some cbs) (some range) master_ip prefix (some [])).0
            ≡ false)
  row_cases master_ip n = elim (convert_cases outside.inet finish) [
    | inl (text, shown) ↦ inl (
      text,
      rev_zone_row_lem outside cbs prins given range prefix start finish text bounds shown master_ip
          [] n,
    )
    | inr bad ↦ inr (failed_row master_ip n bad)
  ]
