-- ===== src/TimeWheel/Tests.antt =====
-- common/timewheel.cpp on small wheels.
use cassobee.Base.{
  ℕ, zero, suc, ◌+◌, ◌-◌, ◌≡◌, refl, if◌then◌else◌, ◌==◌, Option, none, some, Bool, true, false, [],
  ◌∷◌, ◌>>=◌, arith,
}
use cassobee.Base.Int.{pos}
use cassobee.LockfreePool.{LockfreePool, update, find_object}
use cassobee.LockfreePool
use cassobee.LockfreePool.Chain.{occ}
use cassobee.TimerList.{cleared, state_add, empty_list, push_back, pop, set_prev, set_next}
use cassobee.TimerList.Circle.{IsCircle}
use cassobee.TimeWheel.{TimeWheel, handled, readd_timer, add_timer, del_timer, tick}
use cassobee.TimeWheel.Lists.{Holds, list_at}
use cassobee.TimeWheel.Places.{due_place}
use cassobee.TimeWheel.Readd.{Readded, readd_timer-Readded}
use cassobee.TimeWheel.Alone.{emptied, slot_of, finish}
use cassobee.TimeWheel.Wait
use cassobee.TimeWheel.OnTime.{Quiet, ticks-readd_timer, ticks-readd_timer_late}

-- A wheel at tick 5 with empty lists, whose pool has two nodes.
abbrev wheel : TimeWheel
wheel = record {
  stopped = false;
  near = λ slot. empty_list;
  hanging = empty_list;
  tickcount = 5;
  ticktime = 10;
  frontidx = false;
  changelist = λ b. empty_list;
  nodes = λ i. record cleared { nexttime = 7; handler = some 4; param = 9; state = state_add };
  timerpool = record {
    next = λ i. if i == 0 then some 1 else none;
    initialized = λ i. false;
    head = some 0;
    counter = 0;
    cap = 2;
  };
}

wheel-Holds : Holds wheel (λ p. []) (λ i. none)
unfolding occ
wheel-Holds = record { circles = no_list; once = λ i p. refl }
  where
    no_list : (p : Option ℕ) → IsCircle wheel.nodes (list_at wheel p) []
    no_list none = (refl, refl)
    no_list (some slot) = (refl, refl)

readd_timer-Readded_example : Readded wheel (λ p. []) (λ i. none) 1 (due_place 7 5)
readd_timer-Readded_example =
    readd_timer-Readded wheel (λ p. []) (λ i. none) 1 wheel-Holds refl (omega arith) (omega arith)
      (omega arith)

-- The first node of this wheel is due at tick 9000, and hangs at tick 5.
abbrev far_wheel : TimeWheel
far_wheel = record wheel {
  nodes = λ i. record cleared { nexttime = 9000; handler = some 4; param = 9; state = state_add };
}

far_wheel-Quiet : Quiet far_wheel
unfolding occ
far_wheel-Quiet = record {
  holds = record { circles = no_list; once = λ i p. refl };
  changes = λ b. refl;
}
  where
    no_list : (p : Option ℕ) → IsCircle far_wheel.nodes (list_at far_wheel p) []
    no_list none = (refl, refl)
    no_list (some slot) = (refl, refl)

ticks-readd_timer_example :
    (due : TimeWheel) × (due.tickcount ≡ 9000)
    × ((call : ℕ → ℕ → TimeWheel → Bool × TimeWheel)
        → (readd_timer 0 far_wheel >>= λ w'. Wait.ticks call (9000 - 5) w') ≡ some due)
    × ((call : ℕ → ℕ → TimeWheel → Bool × TimeWheel)
        → tick call due
          ≡ (handled call 0 (call 4 9 (emptied due)) (due.near (slot_of due)) >>= λ r. finish r.0))
ticks-readd_timer_example =
    ticks-readd_timer far_wheel 0 far_wheel-Quiet (omega arith) (omega arith) 4 refl (omega arith)

-- The tick has come too late for nexttime 7.
abbrev late_wheel : TimeWheel
late_wheel = record wheel { tickcount = 8 }

late_wheel-Quiet : Quiet late_wheel
late_wheel-Quiet = record {
  holds = record { circles = wheel-Holds.circles; once = wheel-Holds.once };
  changes = λ b. refl;
}

ticks-readd_timer_late_example :
    (later : TimeWheel) × (later.tickcount ≡ 8 + 100)
    × ((call : ℕ → ℕ → TimeWheel → Bool × TimeWheel)
        → (readd_timer 0 late_wheel >>= λ w'. Wait.ticks call 100 w') ≡ some later)
    × IsCircle later.nodes later.hanging (0 ∷ [])
ticks-readd_timer_late_example =
    ticks-readd_timer_late late_wheel 0 late_wheel-Quiet (omega arith) (omega arith) 100
      (omega arith) (omega arith)

-- The handler writes the tick at which it ran.
abbrev note_tick : ℕ → ℕ → TimeWheel → Bool × TimeWheel
note_tick handler param w = (true, record w { ticktime = 1000 + w.tickcount })

abbrev ticks : ℕ → TimeWheel → Option TimeWheel
ticks zero w = some w
ticks (suc n) w = tick note_tick w >>= λ w'. ticks n w'

abbrev seen : Option TimeWheel → ℕ
seen none = 0
seen (some w) = w.ticktime

abbrev added : Bool → Option TimeWheel
added delay = add_timer delay 20 (pos 1) (some 0) 0 wheel >>= λ r. some r.1

-- A timer of 20 ms that is added at tick 5 is handled at tick 7 and not before.
handled_in_time : seen (added true >>= λ w. ticks 3 w) ≡ 1007
unfolding tick add_timer find_object push_back pop set_prev set_next LockfreePool.alloc
    LockfreePool.free
handled_in_time = refl

not_before : seen (added true >>= λ w. ticks 2 w) ≡ 10
unfolding tick add_timer find_object push_back pop set_prev set_next LockfreePool.alloc
    LockfreePool.free
not_before = refl

-- del_timer returns false also where it marks the timer.
abbrev result : Option (Bool × TimeWheel) → Bool
result none = true
result (some (b, w)) = b

del_timer_says_false : result (added true >>= λ w. ticks 1 w >>= λ v. del_timer 0 v) ≡ false
unfolding tick add_timer del_timer find_object push_back pop set_prev set_next LockfreePool.alloc
    LockfreePool.free
del_timer_says_false = refl
