-- ===== src/AilList/Clone.antt =====
-- lib/list.c: copies of elements. What an item holds is not modelled, so a copy of it is the address
-- `copied` of a new block.
use cmdb.Base.{
  ℕ, Bool, true, false, ◌||◌, Option, none, some, ◌==◌, if◌then◌else◌, ℤ, pos, minus_one, is_ok,
}
use cmdb.Data.{ailsa_no_data}
use cmdb.Heap.{Ptr, null, elem, Cmd, fault, pure, ◌>>=◌, ◌>>◌, store, load, free, destroy_data}
use cmdb.AilList.{
  AilList, ailsa_list_ins_next, ailsa_list_ins_prev, ailsa_list_insert, ailsa_list_destroy,
}

abbrev pub ailsa_list_clone_failed : ℤ
ailsa_list_clone_failed = pos 56

-- `AILSA_BEFORE` to `AILSA_TAIL`; `none_given` is 0, and `unknown` any other number.
pub data Action : Type 0 where
  none_given before after head tail unknown : Action

abbrev pub is_given : Action → Bool
is_given none_given = false
is_given _ = true

-- The code of an insertion.
abbrev pub placed : ℤ × AilList → ℤ × Option AilList
placed (retval, list) = (if is_ok retval then retval else ailsa_list_clone_failed, some list)

unfoldable pub insert_at : Ptr → Ptr → AilList → Ptr → Action → Cmd (ℤ × Option AilList)
insert_at fresh copied list ptr before =
    if ptr == null
    then pure (ailsa_list_clone_failed, some list)
    else (do r ← ailsa_list_ins_prev fresh list ptr copied; pure (placed r))
insert_at fresh copied list ptr after =
    if ptr == null
    then pure (ailsa_list_clone_failed, some list)
    else (do r ← ailsa_list_ins_next fresh list ptr copied; pure (placed r))
insert_at fresh copied list ptr head = do
  r ← ailsa_list_ins_prev fresh list list.head copied
  pure (placed r)
insert_at fresh copied list ptr tail = do
  r ← ailsa_list_ins_next fresh list list.tail copied
  pure (placed r)
insert_at fresh copied list ptr none_given = pure (ailsa_list_clone_failed, some list)
insert_at fresh copied list ptr unknown = pure (ailsa_list_clone_failed, some list)

unfoldable pub ailsa_list_insert_clone :
    Ptr → Ptr → Option AilList → Ptr → Ptr → Action → ℕ → Cmd (ℤ × Option AilList)
unfolding insert_at
ailsa_list_insert_clone fresh copied none copy ptr action size = pure (minus_one, none)
ailsa_list_insert_clone fresh copied (some list) copy ptr none_given size =
    pure (minus_one, some list)
ailsa_list_insert_clone fresh copied (some list) copy ptr action size =
    if copy == null || size == 0
    then pure (minus_one, some list)
    else load copy >> insert_at fresh copied list ptr action

-- `clone` is the callback of the list.
unfoldable pub ailsa_insert_clone :
    Ptr → (Ptr → Cmd Ptr) → Option AilList → Ptr → Cmd (ℤ × Option AilList)
ailsa_insert_clone fresh clone none element = pure (ailsa_no_data, none)
ailsa_insert_clone fresh clone (some list) element =
    if element == null then pure (ailsa_no_data, some list) else do
      copy ← clone element
      if copy == null
          then pure (ailsa_list_clone_failed, some list)
          else do c ← load copy; r ← ailsa_list_insert fresh (some list) c.item; free copy; pure r

unfoldable pub ailsa_clone_element : Ptr → Ptr → Ptr → Cmd Ptr
ailsa_clone_element fresh copied e =
    if e == null
    then pure null
    else do load e; store fresh (some (elem null null copied)); pure fresh

-- A list without `destroy` calls through NULL.
unfoldable pub ailsa_clean_element : Option AilList → Ptr → Cmd (Unit {0})
ailsa_clean_element none e = pure tt
ailsa_clean_element (some list) e =
    if e == null
    then pure tt
    else do c ← load e; if list.destroy then (destroy_data c.item >> free e) else (λ h. fault)

-- The struct itself is released as well.
unfoldable pub ailsa_list_full_clean : Option AilList → Cmd (Option AilList)
ailsa_list_full_clean l = do ailsa_list_destroy l; pure none
