-- ===== src/TimerList/Tests.antt =====
-- common/timewheel.h: lists of the nodes 1, 2 and 3.
use cassobee.Base.{refl, if◌then◌else◌, ◌==◌, none, some, [], ◌∷◌, arith}
use cassobee.LockfreePool.Chain.{occ}
use cassobee.TimerList.{cleared, Nodes, TimerList, push_back, pop}
use cassobee.TimerList.Circle.{Distinct, Relinked}
use cassobee.TimerList.Push.{push_back-Relinked}
use cassobee.TimerList.Pop.{pop-Relinked}

-- Node 1 leads to node 2, and node 2 back.
abbrev nodes : Nodes
nodes i = record cleared {
  prev = if i == 1 then some 2 else (if i == 2 then some 1 else none);
  next = if i == 1 then some 2 else (if i == 2 then some 1 else none);
}

abbrev two : TimerList
two = record { head = some 1; count = 2 }

two-Distinct : Distinct (1 ∷ 2 ∷ [])
unfolding occ
two-Distinct i = ground arith

push_back-Relinked_example :
    Relinked nodes (3 ∷ 1 ∷ 2 ∷ []) (1 ∷ 2 ∷ 3 ∷ []) (push_back 3 nodes two)
unfolding occ
push_back-Relinked_example =
    push_back-Relinked nodes two (1 ∷ 2 ∷ []) 3 (refl, refl, ((refl, refl), (refl, refl)))
      two-Distinct refl (omega arith)

pop-Relinked_example : Relinked nodes (1 ∷ 2 ∷ []) (1 ∷ []) (pop 2 nodes two)
pop-Relinked_example =
    pop-Relinked nodes two (1 ∷ []) 2 [] (refl, refl, ((refl, refl), (refl, refl))) two-Distinct
      (omega arith)
