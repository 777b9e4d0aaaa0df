-- ===== src/Helper/Replace.antt =====
-- lib/helper.c: the prefix of a reverse zone, and the replacement of an element of a list.
use cmdb.Base.{
  ℕ, zero, suc, ◌-◌, ◌^◌, Option, none, some, [], ◌∷◌, ◌==◌, if◌then◌else◌, ℤ, pos, is_ok,
}
use cmdb.Data.{Text, text, DataList, ailsa_no_data, cmdb_add_string_to_list}
use cmdb.Query.{Database, or_else}
use cmdb.Tables.{prefix_on_net_range}
use cmdb.Heap.{
  Ptr, null, elem, Cmd, pure, ◌>>=◌, ◌>>◌, store, load, set_prev, set_next, free, destroy_data,
}
use cmdb.AilList.{AilList}

-- The prefix that the first value of the answer has; `none` is a value that is no text. `strtoul` is
-- the conversion to the base 10.
abbrev pub first_prefix : (Text → ℕ) → DataList → Option (Option ℕ)
first_prefix strtoul [] = some (some 0)
first_prefix strtoul (text t ∷ p) = some (some (strtoul t))
first_prefix strtoul (_ ∷ p) = none

abbrev pub prefix_answer : (Text → ℕ) → ℤ × DataList → Option (ℤ × Option ℕ)
prefix_answer strtoul (retval, p) =
    if is_ok retval
    then elim (first_prefix strtoul p) [ none ↦ none | some prefix ↦ some (retval, prefix) ]
    else some (retval, none)

-- What goes out through `prefix` stands behind the code.
unfoldable pub cmdb_get_rev_zone_prefix :
    {Cmdb : Type 0} → Database Cmdb → (Text → ℕ) → Option Cmdb → Option Text → Option (ℤ × Option ℕ)
cmdb_get_rev_zone_prefix db strtoul (some dc) (some range) =
    let (retval, l) = cmdb_add_string_to_list (some range) (some []) in
    if is_ok retval
    then prefix_answer strtoul (db.ailsa_argument_query dc prefix_on_net_range (or_else [] l))
    else some (retval, none)
cmdb_get_rev_zone_prefix db strtoul dc _ = some (ailsa_no_data, none)

-- `list->total - 1` of a `size_t`
abbrev last_number : ℕ → ℕ
last_number total = if total == 0 then 2 ^ 64 - 1 else total - 1

-- `for (i = 0; i < number; i++) if (e) e = e->next`
unfoldable pub steps_next : ℕ → Ptr → Cmd Ptr
steps_next zero e = pure e
steps_next (suc rounds) e =
    if e == null then steps_next rounds e else (do c ← load e; steps_next rounds c.next)

-- `list->destroy(e->data)` where it is set, and the release of `e`.
abbrev pub released : AilList → Ptr → Ptr → Cmd (ℤ × AilList)
released list e item =
    if list.destroy
    then (do destroy_data item; free e; pure (pos 0, list))
    else (do free e; pure (pos 0, list))

-- `fresh` is the new element, a copy of `element` but for `copied`, the copy of its value.
unfoldable pub cmdb_replace_data_element : Ptr → Ptr → AilList → Ptr → ℕ → Cmd (ℤ × AilList)
unfolding steps_next
cmdb_replace_data_element fresh copied list element number =
    if element == null then pure (ailsa_no_data, list) else do
      c ← load element
      store fresh (some (elem c.prev c.next copied))
      if number == 0
          then (do
            e ← load list.head
            set_next fresh e.next
            set_prev e.next fresh
            released (record list { head = fresh }) list.head e.item)
          else if number == last_number list.total
          then (do
            e ← load list.tail
            set_prev fresh e.prev
            set_next e.prev fresh
            released (record list { tail = fresh }) list.tail e.item)
          else (do
            p ← steps_next number list.head
            e ← load p
            set_prev e.next fresh
            set_next e.prev fresh
            set_next fresh e.next
            set_prev fresh e.prev
            released list p e.item)
