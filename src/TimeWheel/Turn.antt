-- ===== src/TimeWheel/Turn.antt =====
-- common/timewheel.cpp: a tick in which no handler is called, while one timer waits.
use cassobee.Base.{
  ℕ, ◌+◌, ◌-◌, ◌%◌, ◌^◌, ◌<◌, ◌≤◌, ◌≡◌, ◌≢◌, refl, ◌∙◌, arith, ◌==◌, Bool, true, false, Bool-cases,
  inl, inr, Option, none, some,
}
use cassobee.LockfreePool.{same_node}
use cassobee.TimerList.Circle.{payload}
use cassobee.TimeWheel.{TimeWheel, place, tick}
use cassobee.TimeWheel.Alone.{
  Waiting, slot_of, emptied, next_tick, finish, tick-quiet, finish-no, finish-yes, regroup-none,
  regroup-stay, regroup-move, Moved, no_timer, emptied-Waiting,
}

-- Where a timer stands that waits for its time, or for none any more.
pub data Stands (nexttime now : ℕ) : Option ℕ → Type 0 where
  near : now ≤ nexttime → nexttime < now + 4096 → Stands nexttime now (some (nexttime % 4096))
  hanging : now < nexttime - nexttime % 4096 → Stands nexttime now none
  late : nexttime < now → Stands nexttime now none

-- A tick that calls no handler: its result is the same whatever handlers do.
pub record Turned (w : TimeWheel) (t : ℕ) : Type 0 where
  pub after : TimeWheel
  pub place : Option ℕ
  pub returns : (call : ℕ → ℕ → TimeWheel → Bool × TimeWheel) → tick call w ≡ some after
  pub tick_is : after.tickcount ≡ w.tickcount + 1
  pub waiting : Waiting after t place
  pub stands : Stands (w.nodes t).nexttime (w.tickcount + 1) place
  pub same_payload : payload (after.nodes t) ≡ payload (w.nodes t)

module _ (w : TimeWheel) (t : ℕ) (low : w.tickcount + 1 < 2 ^ 63)
    (low_time : (w.nodes t).nexttime < 2 ^ 63) where
  advanced : (next_tick (emptied w)).tickcount ≡ w.tickcount + 1
  advanced = omega arith

  -- The tick ends without regroup_timers, or with it.
  turn-plain :
      (p : Option ℕ)
      → Waiting w t p
      → same_node p (some (slot_of w)) ≡ false
      → Stands (w.nodes t).nexttime (w.tickcount + 1) p
      → finish (emptied w) ≡ some (next_tick (emptied w))
      → Turned w t
  turn-plain p h elsewhere stands ends = record {
    after = next_tick (emptied w);
    place = p;
    returns = λ call. tick-quiet call w h.changes (no_timer w t p h elsewhere) ∙ ends;
    tick_is = advanced;
    waiting = emptied-Waiting w t p h elsewhere;
    stands = stands;
    same_payload = refl;
  }

  is_multiple : Bool
  is_multiple = (next_tick (emptied w)).tickcount % 4096 == 0

  turn-near :
      Waiting w t (some ((w.nodes t).nexttime % 4096))
      → w.tickcount < (w.nodes t).nexttime
      → (w.nodes t).nexttime < w.tickcount + 4096
      → Turned w t
  unfolding is_multiple
  turn-near h before soon =
      let p : Option ℕ = some ((w.nodes t).nexttime % 4096) in
      let elsewhere : same_node p (some (slot_of w)) ≡ false = ground arith in
      let v : TimeWheel = emptied w in
      turn-plain p h elsewhere (near (omega arith) (omega arith)) (elim (Bool-cases is_multiple) [
        | inl even ↦
            finish-yes v even
            ∙ regroup-none (next_tick v) ((emptied-Waiting w t p h elsewhere).circles none).1
        | inr other ↦ finish-no v other
      ])

  module _ (h : Waiting w t none) where
    beside : Waiting (next_tick (emptied w)) t none
    beside = emptied-Waiting w t none h refl

    -- It is not due within 4096 ticks, and stays.
    turn-stay :
        place (w.nodes t).nexttime (next_tick (emptied w)).tickcount ≡ none
        → Stands (w.nodes t).nexttime (w.tickcount + 1) none
        → Turned w t
    unfolding is_multiple
    turn-stay far stands = turn-plain none h refl stands (elim (Bool-cases is_multiple) [
      | inl even ↦ finish-yes (emptied w) even ∙ regroup-stay (next_tick (emptied w)) t beside far
      | inr other ↦ finish-no (emptied w) other
    ])

    turn-no : is_multiple ≡ false → Stands (w.nodes t).nexttime (w.tickcount + 1) none → Turned w t
    unfolding is_multiple
    turn-no other stands = turn-plain none h refl stands (finish-no (emptied w) other)

    turn-move :
        is_multiple ≡ true
        → place (w.nodes t).nexttime (next_tick (emptied w)).tickcount
          ≡ some ((w.nodes t).nexttime % 4096)
        → Stands (w.nodes t).nexttime (w.tickcount + 1) (some ((w.nodes t).nexttime % 4096))
        → Turned w t
    unfolding is_multiple
    turn-move even soon stands =
        let m : Moved (next_tick (emptied w)) t beside ((w.nodes t).nexttime % 4096) =
          regroup-move (next_tick (emptied w)) t beside ((w.nodes t).nexttime % 4096) soon in
        record {
          after = m.after;
          place = some ((w.nodes t).nexttime % 4096);
          returns = λ call.
              tick-quiet call w h.changes (no_timer w t none h refl)
              ∙ finish-yes (emptied w) even
              ∙ m.returns;
          tick_is = m.same_tick ∙ advanced;
          waiting = m.waiting;
          stands = stands;
          same_payload = m.same_payload;
        }

    turn-hanging : w.tickcount < (w.nodes t).nexttime - (w.nodes t).nexttime % 4096 → Turned w t
    unfolding is_multiple place
    turn-hanging before = elim (Bool-cases is_multiple) [
      | inr other ↦ turn-no other (hanging (ground arith))
      | inl even ↦
          elim (Bool-cases
            (w.tickcount + 1 == (w.nodes t).nexttime - (w.nodes t).nexttime % 4096)) [
              | inl now ↦ turn-move even (ground arith) (near (ground arith) (ground arith))
              | inr later ↦ turn-stay (ground arith) (hanging (ground arith))
            ]
    ]

    turn-late : (w.nodes t).nexttime < w.tickcount → Turned w t
    unfolding place
    turn-late past = turn-stay (ground arith) (late (omega arith))

pub turn :
    (w : TimeWheel) (t : ℕ) (p : Option ℕ)
    → w.tickcount + 1 < 2 ^ 63
    → (w.nodes t).nexttime < 2 ^ 63
    → Waiting w t p
    → Stands (w.nodes t).nexttime w.tickcount p
    → w.tickcount ≢ (w.nodes t).nexttime
    → Turned w t
turn w t p low low_time h (near from soon) ne = turn-near w t low low_time h (omega arith) soon
turn w t p low low_time h (hanging before) ne = turn-hanging w t low low_time h before
turn w t p low low_time h (late past) ne = turn-late w t low low_time h past
