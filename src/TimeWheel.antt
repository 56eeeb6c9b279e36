-- ===== src/TimeWheel.antt =====
-- source/bee/common/timewheel.cpp: the timer wheel. `none` is a failed ASSERT or the use of a null pointer. The
-- locks are held for whole calls, and one call is one step. A nexttime stays below 2 ^ 63.
pub mod Timing
pub mod Lists
pub mod Places
pub mod Readd
pub mod Alone
pub mod Turn
pub mod Wait
pub mod OnTime
mod Tests
use cassobee.Base.{
  ℕ, zero, suc, ◌+◌, ◌-◌, ◌*◌, ◌/◌, ◌%◌, ◌^◌, ltb, leb, ◌==◌, ◌||◌, ◌&&◌, not, if◌then◌else◌,
  Option, none, some, ◌>>=◌, Bool, true, false, add64, sub64,
}
use cassobee.Base.Int.{ℤ, pos, negsuc}
use cassobee.LockfreePool.{LockfreePool, update, find_object}
use cassobee.LockfreePool
use cassobee.TimerList.{
  TimerState, state_none, state_active, state_add, state_del, state_mod, TimerNode, cleared, Nodes,
  TimerList, empty_list, push_back, pop,
}

-- NEAR_SLOTS
abbrev pub near_slots : ℕ
near_slots = 4096

pub record TimeWheel : Type 0 where
  pub stopped : Bool
  pub near : ℕ → TimerList
  pub hanging : TimerList
  pub tickcount : ℕ
  pub ticktime : ℕ
  pub frontidx : Bool
  pub changelist : Bool → TimerList
  pub nodes : Nodes
  pub timerpool : LockfreePool

-- `init`, with what the configuration says.
pub init : ℕ → ℕ → TimeWheel → Option TimeWheel
init interval poolsize w = do
  pool ← LockfreePool.init LockfreePool.lazy poolsize w.timerpool
  some (record w { stopped = false; ticktime = interval; timerpool = pool })

pub stop : TimeWheel → TimeWheel
stop w = record w { stopped = true }

-- The list `changelist[b]`.
abbrev pub put : {A : Type 0} → (Bool → A) → Bool → A → Bool → A
put f true v true = v
put f true v false = f false
put f false v true = f true
put f false v false = v

unfoldable pub add_to_changelist : ℕ → TimeWheel → Option TimeWheel
add_to_changelist t w = do
  pushed ← push_back t w.nodes (w.changelist (not w.frontidx))
  some (record w { nodes = pushed.0; changelist = put w.changelist (not w.frontidx) pushed.1 })

-- The division of two int64_t; a divisor of 0 is a fault.
abbrev pub negate : ℕ → ℕ
negate a = sub64 0 a

abbrev pub div64 : ℕ → ℕ → Option ℕ
div64 a b =
    if b == 0
    then none
    else if ltb a (2 ^ 63)
    then some (if ltb b (2 ^ 63) then a / b else negate (a / negate b))
    else some (if ltb b (2 ^ 63) then negate (negate a / b) else negate a / negate b)

-- What `add_timer` writes to a node.
abbrev pub filled : ℕ → Bool → ℕ → ℤ → Option ℕ → ℕ → ℕ → TimerNode
filled t delay ticks repeats handler param tick = record cleared {
  id = t;
  timeout = ticks;
  nexttime = if delay then add64 tick ticks else tick;
  handler = handler;
  param = param;
  repeats = repeats;
  state = state_add;
}

abbrev pub is_none {ℓ} : {A : Type ℓ} → Option A → Bool
is_none none = true
is_none (some a) = false

-- The id is none for -1.
abbrev pub add_allocated :
    Bool
    → ℕ
    → ℤ
    → Option ℕ
    → ℕ
    → Option ℕ × LockfreePool
    → TimeWheel
    → Option (Option ℕ × TimeWheel)
add_allocated delay timeout repeats handler param (none, pool) w =
    some (none, record w { timerpool = pool })
add_allocated delay timeout repeats handler param (some t, pool) w = do
  ticks ← div64 timeout w.ticktime
  let node = filled t delay ticks repeats handler param w.tickcount
  w' ← add_to_changelist t (record w { timerpool = pool; nodes = update w.nodes t node })
  some (some t, w')

unfoldable pub add_timer : Bool → ℕ → ℤ → Option ℕ → ℕ → TimeWheel → Option (Option ℕ × TimeWheel)
unfolding add_to_changelist
add_timer delay timeout repeats handler param w =
    if w.stopped || is_none handler
    then some (none, w)
    else add_allocated delay timeout repeats handler param (LockfreePool.alloc w.timerpool) w

abbrev pub is_active : TimerState → Bool
is_active state_none = false
is_active state_active = true
is_active state_add = false
is_active state_del = false
is_active state_mod = false

abbrev pub set_state : TimeWheel → ℕ → TimerState → TimeWheel
set_state w t state = record w { nodes = update w.nodes t (record (w.nodes t) { state = state }) }

abbrev pub del_found : Option ℕ → TimeWheel → Option (Bool × TimeWheel)
del_found none w = some (false, w)
del_found (some t) w =
    if is_active (w.nodes t).state
    then (do w' ← add_to_changelist t (set_state w t state_del); some (false, w'))
    else some (false, w)

unfoldable pub del_timer : ℕ → TimeWheel → Option (Bool × TimeWheel)
unfolding add_to_changelist
del_timer timerid w = del_found (find_object timerid w.timerpool) w

-- Where `readd_timer` and `regroup_timers` put a timer: a near slot, or none for the hanging ones. The
-- difference is that of unsigned numbers.
unfoldable pub place : ℕ → ℕ → Option ℕ
place nexttime tick =
    let ahead = sub64 nexttime tick in
    if leb near_slots ahead
    then none
    else some (if ltb 0 ahead then nexttime % near_slots else tick % near_slots)

-- Where `remove_timer` looks for it.
unfoldable pub remove_place : ℕ → ℕ → Option ℕ
remove_place nexttime tick =
    let ahead = sub64 nexttime tick in
    if leb near_slots ahead
    then none
    else some (if ltb 0 ahead then ahead % near_slots else tick % near_slots)

-- The list of a near slot, or the hanging one, under an operation.
abbrev pub at_place :
    Option ℕ → (Nodes → TimerList → Option (Nodes × TimerList)) → TimeWheel → Option TimeWheel
at_place none f w = do
  (nodes, l) ← f w.nodes w.hanging
  some (record w { nodes = nodes; hanging = l })
at_place (some slot) f w = do
  (nodes, l) ← f w.nodes (w.near slot)
  some (record w { nodes = nodes; near = update w.near slot l })

unfoldable pub readd_timer : ℕ → TimeWheel → Option TimeWheel
readd_timer t w = do
  w' ← at_place (place (w.nodes t).nexttime w.tickcount) (push_back t) w
  some (set_state w' t state_active)

unfoldable pub free_timer : ℕ → TimeWheel → TimeWheel
free_timer t w =
    let freed = set_state w t state_none in
    record freed { timerpool = LockfreePool.free (freed.nodes t).id freed.timerpool }

unfoldable pub remove_timer : ℕ → TimeWheel → Option TimeWheel
unfolding free_timer
remove_timer t w = do
  w' ← at_place (remove_place (w.nodes t).nexttime w.tickcount) (pop t) w
  some (free_timer t w')

abbrev pub load_timer : TimerState → ℕ → TimeWheel → Option TimeWheel
load_timer state_none t w = some w
load_timer state_active t w = some w
load_timer state_add t w = readd_timer t w
load_timer state_del t w = remove_timer t w
load_timer state_mod t w = readd_timer t w

-- So many timers from one on, along `_next`.
unfoldable pub load_loop : ℕ → Option ℕ → TimeWheel → Option TimeWheel
unfolding readd_timer remove_timer
load_loop zero t w = some w
load_loop (suc n) none w = none
load_loop (suc n) (some t) w =
    load_timer (w.nodes t).state t w >>= λ w'. load_loop n (w.nodes t).next w'

unfoldable pub load_timers : TimeWheel → Option TimeWheel
unfolding load_loop
load_timers w = do
  w' ← load_loop (w.changelist w.frontidx).count (w.changelist w.frontidx).head w
  some (record w' { changelist = put w'.changelist w'.frontidx empty_list })

unfoldable pub switch_changelist : TimeWheel → TimeWheel
switch_changelist w = record w { frontidx = not w.frontidx }

-- A round of `regroup_timers`.
abbrev pub regroup_timer : ℕ → Option ℕ → TimeWheel → Option TimeWheel
regroup_timer t none w = some w
regroup_timer t (some slot) w = do
  w' ← at_place none (pop t) w
  at_place (some slot) (push_back t) w'

unfoldable pub regroup_loop : ℕ → Option ℕ → TimeWheel → Option TimeWheel
unfolding place
regroup_loop zero t w = some w
regroup_loop (suc n) none w = none
regroup_loop (suc n) (some t) w =
    regroup_timer t (place (w.nodes t).nexttime w.tickcount) w >>= λ w'.
    regroup_loop n (w.nodes t).next w'

unfoldable pub regroup_timers : TimeWheel → Option TimeWheel
unfolding regroup_loop
regroup_timers w = regroup_loop w.hanging.count w.hanging.head w

-- `if(_repeats > 0) --_repeats`
abbrev pub count_down : ℤ → ℤ
count_down (pos zero) = pos zero
count_down (pos (suc n)) = pos n
count_down (negsuc n) = negsuc n

abbrev pub is_zero : ℤ → Bool
is_zero (pos zero) = true
is_zero (pos (suc n)) = false
is_zero (negsuc n) = false

-- A handler is the program's code: it gets the wheel, and may add and delete timers.
module _ (call : ℕ → ℕ → TimeWheel → Bool × TimeWheel) where
  -- Behind a handler that returned true.
  abbrev pub repeat_timer : ℕ → TimeWheel → TimerList → Option (TimeWheel × TimerList)
  repeat_timer t w active = do
    (nodes, active') ← pop t w.nodes active
    let node = record (nodes t) { repeats = count_down (nodes t).repeats }
    let counted = record w { nodes = update nodes t node }
    let later = record node { nexttime = add64 node.nexttime node.timeout }
    w' ←
        if is_zero node.repeats
        then some (free_timer t counted)
        else readd_timer t (record w { nodes = update nodes t later })
    some (w', active')

  abbrev pub handled : ℕ → Bool × TimeWheel → TimerList → Option (TimeWheel × TimerList)
  handled t (true, w) active = repeat_timer t w active
  handled t (false, w) active = some (free_timer t w, active)

  abbrev pub run_timer : ℕ → TimeWheel → TimerList → Option (TimeWheel × TimerList)
  run_timer t w active =
      if is_active (w.nodes t).state
      then (do h ← (w.nodes t).handler; handled t (call h (w.nodes t).param w) active)
      else some (w, active)

  unfoldable pub handle_loop : ℕ → Option ℕ → TimeWheel → TimerList → Option TimeWheel
  unfolding readd_timer free_timer
  handle_loop zero t w active = some w
  handle_loop (suc n) none w active = none
  handle_loop (suc n) (some t) w active =
      run_timer t w active >>= λ r. handle_loop n (w.nodes t).next r.0 r.1

  unfoldable pub handle_timer : TimeWheel → Option TimeWheel
  unfolding handle_loop
  handle_timer w =
      let slot = w.tickcount % near_slots in
      let active = w.near slot in
      handle_loop active.count active.head (record w { near = update w.near slot empty_list })
        active

  unfoldable pub tick : TimeWheel → Option TimeWheel
  unfolding switch_changelist load_timers handle_timer regroup_timers
  tick w = do
    loaded ← load_timers (switch_changelist w)
    ran ← handle_timer loaded
    let next = record ran { tickcount = add64 ran.tickcount 1 }
    if next.tickcount % near_slots == 0 then regroup_timers next else some next
