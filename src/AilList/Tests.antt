-- ===== src/AilList/Tests.antt =====
-- The operations of the list at concrete lists of three and four elements.
use cmdb.Base.{
  false, ◌≡◌, refl, true, Option, none, some, [], ◌∷◌, ◌++◌, ◌==◌, if◌then◌else◌, arith,
}
use cmdb.Heap.{Ptr, null, Elem, elem, Heap, out_of_fuel}
use cmdb.Heap.Returns.{Returns}
use cmdb.AilList.{
  zeroed, ailsa_list_insert, ailsa_list_ins_next, ailsa_list_ins_prev, ailsa_list_remove,
  ailsa_list_remove_elements, ailsa_list_clean, ailsa_list_destroy, ailsa_list_pop_element,
}
use cmdb.AilList.Chain.{Cells, Chain}
use cmdb.AilList.Insert.{of_cells, Holds, insert-append}
use cmdb.AilList.Link.{Inserted}
use cmdb.AilList.Next.{ins_next_lem}
use cmdb.AilList.Prev.{ins_prev_lem}
use cmdb.AilList.Remove.{Removed, remove_lem}
use cmdb.AilList.Clean.{Emptied, clean_lem}
use cmdb.AilList.Run.{RunRemoved, run_lem}
use cmdb.AilList.Access.{pop_element_diverges}

-- Elements at the addresses 1 to 4, with the items 11 to 14.
abbrev four : Cells
four = (1, 11) ∷ (2, 12) ∷ (3, 13) ∷ (4, 14) ∷ []

abbrev four_elements : Ptr → Option Elem
four_elements a =
    if a == 1
    then some (elem 0 2 11)
    else if a == 2
    then some (elem 1 3 12)
    else if a == 3
    then some (elem 2 4 13)
    else if a == 4
    then some (elem 3 0 14)
    else none

abbrev sample : Heap
sample = record { cell = four_elements; destroyed = [] }

sample-Chain : Chain four_elements null four null
sample-Chain = (
  record { ne_null = omega arith; holds = refl },
  refl,
  (
    record { ne_null = omega arith; holds = refl },
    refl,
    (
      record { ne_null = omega arith; holds = refl },
      refl,
      (record { ne_null = omega arith; holds = refl }, refl, tt),
    ),
  ),
)

remove_lem_example :
    Returns
      (Removed sample true ((1, 11) ∷ (3, 13) ∷ (4, 14) ∷ []) 2 12)
      (ailsa_list_remove (of_cells true four) 2 sample)
remove_lem_example =
    remove_lem sample true ((1, 11) ∷ []) ((3, 13) ∷ (4, 14) ∷ []) 2 12 sample-Chain

clean_lem_example :
    Returns
      (Emptied (of_cells true []) sample true four)
      (ailsa_list_clean (some (of_cells true four)) sample)
    × Returns
        (Emptied zeroed sample true four)
        (ailsa_list_destroy (some (of_cells true four)) sample)
clean_lem_example = clean_lem sample true four sample-Chain

ins_next_lem_example :
    Returns
      (Inserted sample true ((1, 11) ∷ (2, 12) ∷ (5, 15) ∷ (3, 13) ∷ (4, 14) ∷ []))
      (ailsa_list_ins_next 5 (of_cells true four) 2 15 sample)
ins_next_lem_example =
    ins_next_lem sample true 5 15 (omega arith) refl ((1, 11) ∷ []) ((3, 13) ∷ (4, 14) ∷ []) 2 12
      sample-Chain

ins_prev_lem_example :
    Returns
      (Inserted sample true ((1, 11) ∷ (5, 15) ∷ (2, 12) ∷ (3, 13) ∷ (4, 14) ∷ []))
      (ailsa_list_ins_prev 5 (of_cells true four) 2 15 sample)
ins_prev_lem_example =
    ins_prev_lem sample true 5 15 (omega arith) refl ((1, 11) ∷ []) ((3, 13) ∷ (4, 14) ∷ []) 2 12
      sample-Chain

insert-append_example :
    Returns
      (Holds sample true (four ++ ((5, 15) ∷ [])))
      (ailsa_list_insert 5 (some (of_cells true four)) 15 sample)
insert-append_example =
    insert-append sample true 5 15 (omega arith) refl four sample-Chain (omega arith)

pop_element_diverges_example :
    ailsa_list_pop_element 100 (of_cells true four) 3 sample ≡ out_of_fuel
pop_element_diverges_example =
    pop_element_diverges sample true 1 11 2 12 [] 3 13 4 14 [] 100 sample-Chain

run_lem_example :
    Returns
      (RunRemoved false ((1, 11) ∷ (4, 14) ∷ []))
      (ailsa_list_remove_elements (some (of_cells false four)) 2 2 sample)
run_lem_example =
    run_lem false ((1, 11) ∷ []) ((4, 14) ∷ []) ((3, 13) ∷ []) 2 12 sample sample-Chain
