-- ===== src/LockfreePool.antt =====
-- source/bee/common/objectpool.h: lockfree_objectpool. A node is its index; `Step` lets one of the threads take its
-- next atomic access, sequentially consistent. The head with its counter is one atomic word, whose
-- compare_exchange_weak may fail for no reason.
pub mod Chain
pub mod Inv
pub mod Access
pub mod Ownership
pub mod Alone
mod Tests
use cassobee.Base.{
  ℕ, suc, ◌+◌, ◌-◌, ltb, leb, ◌==◌, ◌&&◌, ◌||◌, not, if◌then◌else◌, Option, none, some, Bool, true,
  false, List, [], ◌∷◌, ◌++◌, add64,
}
use cassobee.ObjectPool.{object_pool_max}

-- `_pool`'s `next` and `initialized`, `_free`, `_cap`. A pool that is not initialized has no nodes.
pub record LockfreePool : Type 0 where
  pub next : ℕ → Option ℕ
  pub initialized : ℕ → Bool
  pub head : Option ℕ
  pub counter : ℕ
  pub cap : ℕ

-- INIT_MODE
pub data Mode : Type 0 where
  lazy : Mode
  eager : Mode

abbrev pub is_eager : Mode → Bool
is_eager lazy = false
is_eager eager = true

-- `none` is a failed assert. In lazy mode nothing is written to `initialized`, which is what the memory holds.
unfoldable pub init : Mode → ℕ → LockfreePool → Option LockfreePool
init mode capacity p =
    if ltb 0 p.cap
    then some p
    else (if ltb 0 capacity && leb capacity object_pool_max
        then some (record {
          next = λ i. if i == capacity - 1 then none else some (i + 1);
          initialized = λ i. is_eager mode || p.initialized i;
          head = some 0;
          counter = 0;
          cap = capacity;
        })
        else none)

abbrev pub update {ℓ} : {V : Type ℓ} → (ℕ → V) → ℕ → V → ℕ → V
update f i v j = if i == j then v else f j

unfoldable pub find_object : ℕ → LockfreePool → Option ℕ
find_object objidx p = if leb p.cap objidx then none else some objidx

-- Where a thread is in `alloc` or `free`: `old_head` with its counter, and the `next_node` that is read.
pub data Thread : Type 0 where
  idle : Thread
  alloc_entered : Thread
  alloc_loaded : Option ℕ → ℕ → Thread
  alloc_swapping : ℕ → ℕ → Option ℕ → Thread
  free_entered : ℕ → Thread
  free_loaded : ℕ → Option ℕ → ℕ → Thread
  free_swapping : ℕ → Option ℕ → ℕ → Thread

abbrev pub same_node : Option ℕ → Option ℕ → Bool
same_node none none = true
same_node none (some j) = false
same_node (some i) none = false
same_node (some i) (some j) = i == j

-- Whether `compare_exchange_weak` puts the new head in place.
abbrev pub swaps : Bool → LockfreePool → Option ℕ → ℕ → Bool
swaps fails p node counter = not fails && (same_node p.head node && p.counter == counter)

abbrev pub set_head : LockfreePool → Option ℕ → LockfreePool
set_head p node = record p { head = node; counter = add64 p.counter 1 }

-- The next access of a thread, and the node that `alloc` returns with it.
unfoldable pub advance : Bool → LockfreePool → Thread → LockfreePool × Thread × Option ℕ
advance fails p idle = (p, idle, none)
advance fails p alloc_entered = (p, alloc_loaded p.head p.counter, none)
advance fails p (alloc_loaded none c) = (p, idle, none)
advance fails p (alloc_loaded (some i) c) = (p, alloc_swapping i c (p.next i), none)
advance fails p (alloc_swapping i c n) =
    if swaps fails p (some i) c
    then (record (set_head p n) { initialized = update p.initialized i true }, idle, some i)
    else (p, alloc_loaded p.head p.counter, none)
advance fails p (free_entered i) =
    if ltb i p.cap then (p, free_loaded i p.head p.counter, none) else (p, idle, none)
advance fails p (free_loaded i old c) =
    (record p { next = update p.next i old }, free_swapping i old c, none)
advance fails p (free_swapping i old c) =
    if swaps fails p old c
    then (set_head p (some i), idle, none)
    else (p, free_loaded i p.head p.counter, none)

-- The threads, and the nodes that are handed out.
pub record State : Type 0 where
  pub pool : LockfreePool
  pub threads : List Thread
  pub held : List ℕ

abbrev pub hand : Option ℕ → List ℕ → List ℕ
hand none held = held
hand (some i) held = i ∷ held

pub data Step : State → State → Type 0 where
  enter_alloc :
      (p : LockfreePool) (before after : List Thread) (held : List ℕ)
      → Step
          (record { pool = p; threads = before ++ (idle ∷ after); held = held })
          (record { pool = p; threads = before ++ (alloc_entered ∷ after); held = held })
  enter_free :
      (p : LockfreePool) (before after : List Thread) (i : ℕ) (newer older : List ℕ)
      → Step
          (record { pool = p; threads = before ++ (idle ∷ after); held = newer ++ (i ∷ older) })
          (record { pool = p; threads = before ++ (free_entered i ∷ after); held = newer ++ older })
  access :
      (fails : Bool) (p : LockfreePool) (before after : List Thread) (t : Thread) (held : List ℕ)
      → Step
          (record { pool = p; threads = before ++ (t ∷ after); held = held })
          (record {
            pool = (advance fails p t).0;
            threads = before ++ ((advance fails p t).1 ∷ after);
            held = hand (advance fails p t).2 held;
          })

-- So many steps.
pub data Reach (start : State) : ℕ → State → Type 0 where
  here : Reach start 0 start
  onward : {n : ℕ} {t u : State} → Reach start n t → Step t u → Reach start (suc n) u

-- The calls by themselves, with no access of another thread in between.
abbrev pub take_node : LockfreePool → Option ℕ → Option ℕ × LockfreePool
take_node p none = (none, p)
take_node p (some i) =
    (some i, record (set_head p (p.next i)) { initialized = update p.initialized i true })

unfoldable pub alloc : LockfreePool → Option ℕ × LockfreePool
alloc p = take_node p p.head

unfoldable pub free : ℕ → LockfreePool → LockfreePool
free i p = if ltb i p.cap then set_head (record p { next = update p.next i p.head }) (some i) else p
