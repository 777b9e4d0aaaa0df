-- ===== src/Heap/Returns.antt =====
-- Total correctness of a run: no fault, enough fuel, and a postcondition of result and memory.
use cmdb.Heap.{Heap, Run, ok, Cmd, and_then}

pub data Returns {Result : Type 0} (Post : Result → Heap → Type 0) : Run Result → Type 0 where
  returns : {result : Result} {memory : Heap} → Post result memory → Returns Post (ok result memory)

-- What follows a command may use its postcondition.
pub Returns-and_then :
    {First Second : Type 0} {Middle : First → Heap → Type 0} {Post : Second → Heap → Type 0}
    {run : Run First} {rest : First → Cmd Second}
    → Returns Middle run
    → ((r : First) (g : Heap) → Middle r g → Returns Post (rest r g))
    → Returns Post (and_then run rest)
Returns-and_then (returns middle) next = next _ _ middle
