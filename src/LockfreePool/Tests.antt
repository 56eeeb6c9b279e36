-- ===== src/LockfreePool/Tests.antt =====
-- common/objectpool.h: a lock-free pool of two nodes.
use cassobee.Base.{ℕ, ◌+◌, ◌≡◌, refl, ltb, if◌then◌else◌, false, none, some, List, [], ◌∷◌, arith}
use cassobee.LockfreePool.{
  LockfreePool, advance, State, enter_alloc, access, Reach, here, onward, idle, alloc_entered,
  alloc_loaded, alloc,
}
use cassobee.LockfreePool.Chain.{Linked, occ, all_freeing}
use cassobee.LockfreePool.Inv.{Inv}
use cassobee.LockfreePool.Ownership.{nodes_once}

-- Node 1 stands before node 0.
abbrev two : LockfreePool
two = record {
  next = λ i. if ltb 0 i then some 0 else none;
  initialized = λ i. false;
  head = some 1;
  counter = 0;
  cap = 2;
}

abbrev start : State
start = record { pool = two; threads = idle ∷ idle ∷ []; held = [] }

start-Inv : Inv 0 start
unfolding occ all_freeing
start-Inv = record {
  chain = 1 ∷ 0 ∷ [];
  linked = (refl, (refl, refl));
  placed = λ i. ground arith;
  swapped = omega arith;
  known = (tt, (tt, tt));
}

-- A thread has entered `alloc` and loaded the head.
abbrev later : State
later = record { pool = two; threads = alloc_loaded (some 1) 0 ∷ idle ∷ []; held = [] }

start-Reach : Reach start 2 later
unfolding advance
start-Reach =
    onward (onward here (enter_alloc two [] (idle ∷ []) []))
      (access false two [] (idle ∷ []) alloc_entered [])

nodes_once_example :
    (chain : List ℕ) × Linked (later.pool).next (later.pool).head chain
    × ((i : ℕ)
        → occ i chain + occ i later.held + all_freeing i later.threads
          ≡ (if ltb i (later.pool).cap then 1 else 0))
nodes_once_example = nodes_once 2 (omega arith) start-Inv start-Reach

alloc-two : (alloc two).0 ≡ some 1
unfolding alloc
alloc-two = refl
