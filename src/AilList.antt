-- ===== src/AilList.antt =====
-- lib/list.c: the doubly linked list `AILLIST`. The struct lives outside the memory of elements, so
-- a function that updates one returns the new value. `fresh` is the element that ailsa_calloc
-- returns, which leaves the program where there is no memory.
pub mod Chain
pub mod Insert
pub mod Link
pub mod Next
pub mod Prev
pub mod Cut
pub mod Remove
pub mod Clean
pub mod Run
pub mod Access
pub mod Clone
pub mod Copied
mod Tests
use cmdb.Base.{
  ℕ, zero, suc, ◌+◌, ◌-◌, Bool, true, false, not, ◌&&◌, ◌||◌, Option, none, some, ◌==◌,
  if◌then◌else◌, is_null, ltb, ℤ, pos, minus_one, is_ok,
}
use cmdb.Data.{ailsa_no_data}
use cmdb.Heap.{
  Ptr, null, elem, Heap, Cmd, out_of_fuel, pure, ◌>>=◌, ◌>>◌, store, load, set_prev, set_next, free,
  destroy_data,
}

-- `AILLIST`, less the callbacks that no function here calls; `destroy` says whether that callback
-- is set. `total` counts allocated elements, so it cannot overflow.
pub record AilList : Type 0 where
  pub total : ℕ
  pub destroy : Bool
  pub head : Ptr
  pub tail : Ptr

-- The struct after the memset of `ailsa_list_destroy`.
abbrev pub zeroed : AilList
zeroed = record { total = 0; destroy = false; head = null; tail = null }

unfoldable pub ailsa_list_init : Bool → AilList
ailsa_list_init destroy = record { total = 0; destroy = destroy; head = null; tail = null }

-- `new = ailsa_calloc(...); new->item = item`
abbrev pub new_element : Ptr → Ptr → Cmd (Unit {0})
new_element fresh item = store fresh (some (elem null null item))

unfoldable pub ailsa_list_ins_next : Ptr → AilList → Ptr → Ptr → Cmd (ℤ × AilList)
ailsa_list_ins_next fresh list element item =
    if element == null && not (list.total == 0)
    then pure (minus_one, list)
    else if list.total == 0
    then (do
      new_element fresh item
      pure (pos 0, record list { head = fresh; tail = fresh; total = list.total + 1 }))
    else (do
      new_element fresh item
      e ← load element
      set_next fresh e.next
      set_prev fresh element
      if e.next == null
          then set_next element fresh
            >> pure (pos 0, record list { tail = fresh; total = list.total + 1 })
          else (do
            set_prev e.next fresh
            set_next element fresh
            pure (pos 0, record list { total = list.total + 1 })))

unfoldable pub ailsa_list_ins_prev : Ptr → AilList → Ptr → Ptr → Cmd (ℤ × AilList)
ailsa_list_ins_prev fresh list element item =
    if element == null && not (list.total == 0)
    then pure (minus_one, list)
    else if list.total == 0
    then (do
      new_element fresh item
      pure (pos 0, record list { head = fresh; tail = fresh; total = list.total + 1 }))
    else (do
      new_element fresh item
      set_next fresh element
      e ← load element
      set_prev fresh e.prev
      if e.prev == null
          then set_prev element fresh
            >> pure (pos 0, record list { head = fresh; total = list.total + 1 })
          else (do
            set_next e.prev fresh
            set_prev element fresh
            pure (pos 0, record list { total = list.total + 1 })))

unfoldable pub ailsa_list_insert : Ptr → Option AilList → Ptr → Cmd (ℤ × Option AilList)
unfolding ailsa_list_ins_next
ailsa_list_insert fresh none item = pure (minus_one, none)
ailsa_list_insert fresh (some list) item =
    if item == null
    then pure (minus_one, some list)
    else if list.total == 0
    then (do (retval, l) ← ailsa_list_ins_next fresh list null item; pure (retval, some l))
    else (do
      new_element fresh item
      set_next list.tail fresh
      set_prev fresh list.tail
      set_next fresh null
      pure (pos 0, some (record list { tail = fresh; total = list.total + 1 })))

-- The option is what goes out through `item`.
unfoldable pub ailsa_list_remove : AilList → Ptr → Cmd (ℤ × Option Ptr × AilList)
ailsa_list_remove list element =
    if element == null || list.total == 0 then pure (minus_one, none, list) else do
      e ← load element
      if element == list.head
          then (if e.next == null
              then (do
                free element
                pure (
                  pos 0,
                  some e.item,
                  record list { head = null; tail = null; total = list.total - 1 },
                ))
              else (do
                set_prev e.next null
                free element
                pure (pos 0, some e.item, record list { head = e.next; total = list.total - 1 })))
          else (do
            set_next e.prev e.next
            if e.next == null
                then (do
                  free element
                  pure (pos 0, some e.item, record list { tail = e.prev; total = list.total - 1 }))
                else (do
                  set_prev e.next e.prev
                  free element
                  pure (pos 0, some e.item, record list { total = list.total - 1 })))

-- `if (retval == 0 && list->destroy != NULL) list->destroy(data)`
abbrev pub destroy_removed : ℤ → Option Ptr → AilList → Cmd (Unit {0})
destroy_removed retval none list = pure tt
destroy_removed retval (some item) list =
    if is_ok retval && list.destroy then destroy_data item else pure tt

-- `while (list->total > 0)`, on fuel. A removal that fails leaves the total alone.
unfoldable pub clean_loop : ℕ → AilList → Cmd AilList
clean_loop zero list = λ h. out_of_fuel
clean_loop (suc fuel) list =
    let round : Cmd AilList = (do
      (retval, item, l) ← ailsa_list_remove list list.tail
      destroy_removed retval item l
      clean_loop fuel l) in
    if list.total == 0 then pure list else round

unfoldable pub ailsa_list_clean : Option AilList → Cmd (Option AilList)
unfolding clean_loop
ailsa_list_clean none = pure none
ailsa_list_clean (some list) = do pure (some (← clean_loop (list.total + 1) list))

unfoldable pub ailsa_list_destroy : Option AilList → Cmd (Option AilList)
unfolding ailsa_list_clean
ailsa_list_destroy none = pure none
ailsa_list_destroy (some list) = do ailsa_list_clean (some list); pure (some zeroed)

-- The rounds of `for (i = 1; i < number; i++) element = element->next`.
unfoldable pub next_times : ℕ → Ptr → Cmd Ptr
next_times zero element = pure element
next_times (suc rounds) element = do e ← load element; next_times rounds e.next

-- `number` counts from 1.
unfoldable pub ailsa_list_get_element : Option AilList → ℕ → Cmd Ptr
unfolding next_times
ailsa_list_get_element none number = pure null
ailsa_list_get_element (some list) number =
    if number == 0
    then pure null
    else if ltb list.total number
    then pure null
    else next_times (number - 1) list.head

-- The loop keeps a NULL that it reaches.
unfoldable pub ailsa_move_down_list : Ptr → ℕ → Cmd Ptr
ailsa_move_down_list element zero = pure element
ailsa_move_down_list element (suc number) =
    let rest : Cmd Ptr = (do e ← load element; ailsa_move_down_list e.next number) in
    if element == null then pure null else rest

-- The rounds of `ailsa_list_remove_elements`; `count` (`no`) counts the items destroyed.
unfoldable pub remove_rounds : ℕ → AilList → Ptr → ℕ → Cmd (ℕ × AilList)
remove_rounds zero list p count = pure (count, list)
remove_rounds (suc rounds) list p count = do
  e ← load p
  (retval, item, l) ← ailsa_list_remove list p
  destroy_removed retval item l
  remove_rounds rounds l e.next (if is_ok retval && l.destroy then count + 1 else count)

unfoldable pub ailsa_list_remove_elements : Option AilList → Ptr → ℕ → Cmd (ℤ × Option AilList)
unfolding remove_rounds
ailsa_list_remove_elements none e len = pure (ailsa_no_data, none)
ailsa_list_remove_elements (some list) e len =
    if e == null then pure (ailsa_no_data, some list) else do
      (count, l) ← remove_rounds len list e 0
      pure (if count == len then pos 0 else pos 1, some l)

-- `while (e) if (e->next == element) break;`: no round changes `e`. On fuel; the result is `e`.
unfoldable pub scan_next : ℕ → Ptr → Ptr → Cmd Ptr
scan_next zero e element = λ h. out_of_fuel
scan_next (suc fuel) e element =
    let test : Cmd Ptr = (do
      x ← load e
      if x.next == element then pure e else scan_next fuel e element) in
    if e == null then pure e else test

unfoldable pub scan_prev : ℕ → Ptr → Ptr → Cmd Ptr
scan_prev zero f element = λ h. out_of_fuel
scan_prev (suc fuel) f element =
    let test : Cmd Ptr = (do
      x ← load f
      if x.prev == element then pure f else scan_prev fuel f element) in
    if f == null then pure f else test

unfoldable pub ailsa_list_pop_element : ℕ → AilList → Ptr → Cmd (ℤ × AilList)
unfolding scan_next scan_prev
ailsa_list_pop_element fuel list element =
    if element == null || list.total == 0
    then pure (minus_one, list)
    else if element == list.head
    then (do e ← load element; pure (pos 0, record list { head = e.next; total = list.total - 1 }))
    else if element == list.tail
    then (do
      t ← load list.tail
      set_next t.prev null
      pure (pos 0, record list { tail = t.prev; total = list.total - 1 }))
    else (do
      e ← scan_next fuel list.head element
      f ← scan_prev fuel list.tail element
      set_prev f e
      set_next e f
      pure (pos 0, record list { total = list.total - 1 }))
