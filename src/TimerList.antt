-- ===== src/TimerList.antt =====
-- source/bee/common/timewheel.h: the nodes of timers in a store, and the circular lists of them. A
-- pointer is the index of a node in the pool. `none` is a failed ASSERT or the use of a null pointer.
pub mod Circle
pub mod Push
pub mod Unlink
pub mod Later
pub mod Pop
mod Tests
use cassobee.Base.{
  ℕ, zero, suc, ◌+◌, ◌-◌, ◌*◌, ◌/◌, ◌%◌, ltb, leb, ◌==◌, ◌||◌, ◌&&◌, not, if◌then◌else◌, Option,
  none, some, ◌>>=◌, Bool, true, false, add64, sub64,
}
use cassobee.Base.Int.{ℤ, pos, negsuc}
use cassobee.LockfreePool.{update}

-- `TIMER_OBJECT_STATE`
pub data TimerState : Type 0 where
  state_none : TimerState
  state_active : TimerState
  state_add : TimerState
  state_del : TimerState
  state_mod : TimerState

-- A TIMETYPE is its bit pattern, below 2 ^ 64. A handler is a number by which the program calls it.
pub record TimerNode : Type 0 where
  pub id : ℕ
  pub timeout : ℕ
  pub nexttime : ℕ
  pub handler : Option ℕ
  pub param : ℕ
  pub repeats : ℤ
  pub state : TimerState
  pub prev : Option ℕ
  pub next : Option ℕ

-- `assign`
abbrev pub cleared : TimerNode
cleared = record {
  id = 0;
  timeout = 0;
  nexttime = 0;
  handler = none;
  param = 0;
  repeats = pos 0;
  state = state_none;
  prev = none;
  next = none;
}

abbrev pub Nodes : Type 0
Nodes = ℕ → TimerNode

unfoldable pub set_prev : Nodes → ℕ → Option ℕ → Nodes
set_prev nodes t p = update nodes t (record (nodes t) { prev = p })

unfoldable pub set_next : Nodes → ℕ → Option ℕ → Nodes
set_next nodes t n = update nodes t (record (nodes t) { next = n })

pub record TimerList : Type 0 where
  pub head : Option ℕ
  pub count : ℕ

-- `clear`
abbrev pub empty_list : TimerList
empty_list = record { head = none; count = 0 }

-- `push_back`; `head->_prev` is read again behind the writes to `t`.
abbrev pub link_last : ℕ → ℕ → Nodes → Option Nodes
link_last t head nodes = do
  last ← (nodes head).prev
  let linked = set_next (set_prev nodes t (some last)) t (some head)
  before ← (linked head).prev
  some (set_prev (set_next linked before (some t)) head (some t))

abbrev pub push_to : ℕ → Nodes → ℕ → Option ℕ → Option (Nodes × TimerList)
push_to t nodes count none = some (
  set_next (set_prev nodes t (some t)) t (some t),
  record { head = some t; count = add64 count 1 },
)
push_to t nodes count (some head) = do
  linked ← link_last t head nodes
  some (linked, record { head = some head; count = add64 count 1 })

unfoldable pub push_back : ℕ → Nodes → TimerList → Option (Nodes × TimerList)
push_back t nodes l = push_to t nodes l.count l.head

-- `pop` behind its first test.
abbrev pub same_pointer : Option ℕ → ℕ → Bool
same_pointer none t = false
same_pointer (some i) t = i == t

abbrev pub unlink : ℕ → Nodes → TimerList → Option (Nodes × TimerList)
unlink t nodes l = do
  after ← (nodes t).next
  let back = set_prev nodes after (nodes t).prev
  before ← (back t).prev
  let around = set_next back before (back t).next
  head ← if same_pointer l.head t then (around t).next else l.head
  some (
    set_next (set_prev around t none) t none,
    record { head = some head; count = sub64 l.count 1 },
  )

unfoldable pub pop : ℕ → Nodes → TimerList → Option (Nodes × TimerList)
pop t nodes l = do
  head ← l.head
  if head == t && l.count == 1 then some (nodes, empty_list) else unlink t nodes l
