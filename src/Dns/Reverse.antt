-- ===== src/Dns/Reverse.antt =====
-- src/zones.c: which records a reverse zone loses and gains, by the forward records of its range.
use cmdb.Base.{
  ℕ, zero, suc, ◌-◌, Bool, true, false, ◌&&◌, Option, none, some, List, [], ◌∷◌, ◌++◌, ◌==◌,
  if◌then◌else◌, ℤ, pos, is_ok, length, take,
}
use cmdb.Data.{Text, same_text, DataList}
use cmdb.Data.Partition.{domain_len}
use cmdb.Net.{
  Inet, or_old, dot, percent, ailsa_string_fail, get_zone_index, get_range_search_string,
}
use cmdb.Zone.{Add, string, number, cuser_muser, ◌⨟◌}
use cmdb.Dns.Records.{ZoneRecord, host_len, same_start, fqdn_of}

-- The text before the last `c`: `strrchr`.
abbrev pub before_last : ℕ → Text → Option Text
before_last c [] = none
before_last c (x ∷ t) = elim (before_last c t) [
  | some a ↦ some (x ∷ a)
  | none ↦ if x == c then some [] else none
]

-- The text from the place `n` on; `none` is a place behind the closing NUL.
abbrev pub text_from : ℕ → Text → Option Text
text_from zero t = some t
text_from (suc n) [] = none
text_from (suc n) (x ∷ t) = text_from n t

-- `snprintf(ptr, size, "%s", host)`, where `ptr` stands behind `before`.
abbrev pub address : Text → ℕ → Text → Text
address before size host = before ++ take (size - 1) host

-- The forward record has the address, and its name.
abbrev pub names_forward : ℕ → Text → Text → ZoneRecord → Bool
names_forward size search dest forward =
    same_start size search forward.dest && same_start domain_len dest (fqdn_of forward)

-- The inner loop of `cmdb_records_to_remove`: a forward record with the address and the name was found.
unfoldable pub find_forward : Text → Text → List ZoneRecord → Bool
find_forward search dest [] = false
find_forward search dest (forward ∷ rec) =
    let rest = find_forward search dest rec in
    if names_forward host_len search dest forward then true else rest

-- The loop over the reverse records of the piece `i`.
unfoldable pub stray_rounds : Text → List ZoneRecord → ℕ → List ZoneRecord → Add
unfolding find_forward
stray_rounds before rec i [] remove = (pos 0, remove)
stray_rounds before rec i (reverse ∷ rev) remove =
    let stays = find_forward (address before 16 reverse.host) reverse.dest rec in
    let (retval, l) =
      if reverse.index == i
      then (if stays then (pos 0, remove) else number reverse.id remove)
      else (pos 0, remove) in
    let rest = stray_rounds before rec i rev l in if is_ok retval then rest else (retval, l)

-- The inner loop of `cmdb_records_to_add`: whether a reverse record was found, and what `search` holds.
unfoldable pub find_reverse : Text → ZoneRecord → List ZoneRecord → Text → Bool × Text
find_reverse before forward [] search = (false, search)
find_reverse before forward (reverse ∷ rev) search =
    let next = address before 32 reverse.host in
    let rest = find_reverse before forward rev next in
    if same_start domain_len forward.dest next
      && same_start domain_len (fqdn_of forward) reverse.dest
    then (true, next)
    else rest

-- `strncmp(fqdn, forward->dest, strlen(fqdn)) == 0`
abbrev pub starts_with : Text → Text → Bool
starts_with s t = same_text s (take (length s) t)

abbrev pub printed_31 : Option Text → Option Text
printed_31 none = none
printed_31 (some t) = some (take 31 t)

-- `snprintf(fqdn, MAC_LEN, "%s", dest + strlen(search) - 1)`
unfoldable pub cmdb_get_rev_dest_from_search : Text → Text → Option Text
cmdb_get_rev_dest_from_search search dest = printed_31 (text_from (length search - 1) dest)

-- The row of a new reverse record.
abbrev pub reverse_row : ℕ → ℕ → ℕ → Text → ZoneRecord → Add
reverse_row uid zone_id i host forward =
    number zone_id
    ⨟ number i
    ⨟ string (some host)
    ⨟ string (some (fqdn_of forward))
    ⨟ cuser_muser uid

-- What follows the inner loop, and what `search` holds then. `none` is a read through NULL, or behind
-- the end of a text.
abbrev pub Added : Type 0
Added = Option (ℤ × DataList × Text)

abbrev pub with_host : ℕ → ℕ → Text → ℕ → ZoneRecord → DataList → Option Text → Added
with_host uid zone_id pattern i forward add none = none
with_host uid zone_id pattern i forward add (some host) =
    let (retval, l) = reverse_row uid zone_id i host forward add in some (retval, l, pattern)

abbrev pub with_cut : ℕ → ℕ → Text → ℕ → ZoneRecord → Text → DataList → Option Text → Added
with_cut uid zone_id pattern i forward search add none = none
with_cut uid zone_id pattern i forward search add (some cut) =
    if starts_with cut forward.dest
    then with_host uid zone_id pattern i forward add
        (cmdb_get_rev_dest_from_search pattern forward.dest)
    else some (pos 0, add, search)

abbrev pub add_missing : ℕ → ℕ → Text → ℕ → ZoneRecord → Bool × Text → DataList → Added
add_missing uid zone_id pattern i forward (true, search) add = some (pos 0, add, search)
add_missing uid zone_id pattern i forward (false, search) add =
    with_cut uid zone_id pattern i forward search add (before_last dot (take 255 search))

abbrev pub next_round : Added → (Text → DataList → Option (ℤ × DataList)) → Option (ℤ × DataList)
next_round none k = none
next_round (some (retval, l, left)) k =
    let rest = k left l in if is_ok retval then rest else some (retval, l)

-- The loop over the forward records, for the piece `i` with its pattern.
unfoldable pub add_rounds :
    ℕ
    → ℕ
    → Text
    → Text
    → ℕ
    → List ZoneRecord
    → List ZoneRecord
    → Text
    → DataList
    → Option (ℤ × DataList)
unfolding find_reverse cmdb_get_rev_dest_from_search
add_rounds uid zone_id pattern before i [] rev search add = some (pos 0, add)
add_rounds uid zone_id pattern before i (forward ∷ rec) rev search add =
    next_round
      (add_missing uid zone_id pattern i forward (find_reverse before forward rev search) add)
      (λ left l. add_rounds uid zone_id pattern before i rec rev left l)

abbrev pub go_on :
    Option (ℤ × DataList) → (DataList → Option (ℤ × DataList)) → Option (ℤ × DataList)
go_on none k = none
go_on (some (code, l)) k = let rest = k l in if is_ok code then rest else some (code, l)

module _ (inet : Inet) (range : Text) (prefix : ℕ) where
  -- The pattern of a piece of the zone, and what stands in it before the percent sign.
  abbrev pub pattern : ℕ → ℤ × Option Text
  pattern i = get_range_search_string inet (some range) prefix i

  abbrev pub remove_piece :
      List ZoneRecord → List ZoneRecord → ℕ → DataList → Option Text → ℤ × DataList
  remove_piece rec rev i remove none = (ailsa_string_fail, remove)
  remove_piece rec rev i remove (some before) = stray_rounds before rec i rev remove

  -- The loop over the pieces, with the rounds left.
  unfoldable pub remove_pieces : List ZoneRecord → List ZoneRecord → ℕ → ℕ → Add
  unfolding stray_rounds
  remove_pieces rec rev zero i remove = (pos 0, remove)
  remove_pieces rec rev (suc left) i remove =
      let (retval, search) = pattern i in
      let (code, l) = remove_piece rec rev i remove (before_last percent (or_old [] search)) in
      let rest = remove_pieces rec rev left (suc i) l in
      if is_ok retval then (if is_ok code then rest else (code, l)) else (retval, remove)

  unfoldable pub cmdb_records_to_remove : List ZoneRecord → List ZoneRecord → Add
  unfolding remove_pieces
  cmdb_records_to_remove rec rev remove =
      let (retval, index) = get_zone_index prefix in
      if is_ok retval then remove_pieces rec rev (or_old 0 index) 0 remove else (retval, remove)

  -- Where the pattern has no percent sign, the label `cleanup` returns the code, which is 0.
  abbrev pub add_piece :
      ℕ
      → ℕ
      → List ZoneRecord
      → List ZoneRecord
      → ℕ
      → Text
      → DataList
      → Option Text
      → (DataList → Option (ℤ × DataList))
      → Option (ℤ × DataList)
  add_piece uid zone_id rec rev i search add none k = some (pos 0, add)
  add_piece uid zone_id rec rev i search add (some before) k =
      go_on (add_rounds uid zone_id search before i rec rev search add) k

  unfoldable pub add_pieces :
      ℕ → ℕ → List ZoneRecord → List ZoneRecord → ℕ → ℕ → DataList → Option (ℤ × DataList)
  unfolding add_rounds
  add_pieces uid zone_id rec rev zero i add = some (pos 0, add)
  add_pieces uid zone_id rec rev (suc left) i add =
      let (retval, search) = pattern i in
      let held = or_old [] search in
      let rest =
        add_piece uid zone_id rec rev i held add (before_last percent held)
          (λ l. add_pieces uid zone_id rec rev left (suc i) l) in
      if is_ok retval then rest else some (retval, add)

  unfoldable pub cmdb_records_to_add :
      ℕ → ℕ → List ZoneRecord → List ZoneRecord → DataList → Option (ℤ × DataList)
  unfolding add_pieces
  cmdb_records_to_add uid zone_id rec rev add =
      let (retval, index) = get_zone_index prefix in
      if is_ok retval
      then add_pieces uid zone_id rec rev (or_old 0 index) 0 add
      else some (retval, add)
