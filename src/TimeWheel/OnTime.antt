-- ===== src/TimeWheel/OnTime.antt =====
-- common/timewheel.cpp: a timer that is alone in the wheel is handled at its time and not before, or never.
use mathlib.Core.Path.{subst}
use cassobee.Base.{
  ℕ, ◌+◌, ◌-◌, ◌^◌, ◌<◌, ◌≤◌, ◌≡◌, ◌≢◌, refl, ap, sym, ◌∙◌, arith, Bool, none, some, ◌>>=◌, [], ◌∷◌,
}
use cassobee.TimerList.{TimerNode, TimerList}
use cassobee.TimerList.Circle.{IsCircle}
use cassobee.TimeWheel.{TimeWheel, readd_timer, handled, tick}
use cassobee.TimeWheel.Lists.{Holds}
use cassobee.TimeWheel.Places.{due_place}
use cassobee.TimeWheel.Readd.{Readded, readd_timer-Readded}
use cassobee.TimeWheel.Alone.{Waiting, slot_of, emptied, finish}
use cassobee.TimeWheel.Turn.{Stands}
use cassobee.TimeWheel.Wait.{ticks, Waited, wait, late-hangs, tick-Waited, due_place-Stands}

-- A wheel without timers in its lists.
pub record Quiet (w : TimeWheel) : Type 0 where
  pub holds : Holds w (λ p. []) (λ i. none)
  pub changes : (b : Bool) → (w.changelist b).count ≡ 0

module _ (w : TimeWheel) (t : ℕ) (q : Quiet w) (low : (w.nodes t).nexttime < 2 ^ 63)
    (low_tick : w.tickcount < 2 ^ 63) where
  entered : Readded w (λ p. []) (λ i. none) t (due_place (w.nodes t).nexttime w.tickcount)
  entered = readd_timer-Readded w (λ p. []) (λ i. none) t q.holds refl low low_tick (omega arith)

  entered_time : (entered.wheel.nodes t).nexttime ≡ (w.nodes t).nexttime
  entered_time = ap (λ (n : TimerNode). n.nexttime) (entered.same_payload t)

  entered-Waiting : Waiting entered.wheel t (due_place (w.nodes t).nexttime w.tickcount)
  entered-Waiting = record {
    circles = entered.holds.circles;
    changes = λ b. ap (λ (f : Bool → TimerList). (f b).count) entered.changes ∙ q.changes b;
    active = entered.active;
  }

  entered-Stands :
      Stands
        (entered.wheel.nodes t).nexttime
        entered.wheel.tickcount
        (due_place (w.nodes t).nexttime w.tickcount)
  entered-Stands =
      subst (λ n. Stands n entered.wheel.tickcount (due_place (w.nodes t).nexttime w.tickcount))
        (sym entered_time)
        (subst (λ n. Stands (w.nodes t).nexttime n (due_place (w.nodes t).nexttime w.tickcount))
          (sym entered.same_tick) (due_place-Stands (w.nodes t).nexttime w.tickcount))

  waited :
      (d : ℕ)
      → w.tickcount + d < 2 ^ 63
      → ((e : ℕ) → e < d → w.tickcount + e ≢ (w.nodes t).nexttime)
      → Waited entered.wheel t d
  waited d less other =
      wait d entered.wheel t (due_place (w.nodes t).nexttime w.tickcount)
        (omega (arith, entered.same_tick)) (omega (arith, entered_time)) entered-Waiting
        entered-Stands
        (λ e b same. other e b (omega (arith, entered.same_tick, entered_time, same)))

  -- Put by readd_timer into a wheel without other timers, a timer is handled on time: the ticks before its nexttime give the
  -- same wheel whatever handlers there are, and the tick at its nexttime calls the handler of the timer with its
  -- parameter, also where the timer hangs first and is regrouped on the way. The nexttime is not before the current
  -- tick, and below 2 ^ 63.
  pub ticks-readd_timer :
      (handler : ℕ)
      → (w.nodes t).handler ≡ some handler
      → w.tickcount ≤ (w.nodes t).nexttime
      → (due : TimeWheel) × (due.tickcount ≡ (w.nodes t).nexttime)
        × ((call : ℕ → ℕ → TimeWheel → Bool × TimeWheel)
            → (readd_timer t w >>= λ w'. ticks call ((w.nodes t).nexttime - w.tickcount) w')
              ≡ some due)
        × ((call : ℕ → ℕ → TimeWheel → Bool × TimeWheel)
            → tick call due ≡ (
                handled call t
                  (call handler (w.nodes t).param (emptied due))
                  (due.near (slot_of due))
                >>= λ r. finish r.0))
  ticks-readd_timer handler set from =
      let d : ℕ = (w.nodes t).nexttime - w.tickcount in
      let r : Waited entered.wheel t d = waited d (omega arith) (λ e b same. omega arith) in
      let now : r.after.tickcount ≡ (w.nodes t).nexttime =
        omega (arith, r.tick_is, entered.same_tick) in
      (
        r.after,
        now,
        λ call. ap (λ o. o >>= λ w'. ticks call d w') entered.returns ∙ r.returns call,
        λ call.
            tick-Waited entered.wheel t d r call handler (w.nodes t).param
              (ap (λ (n : TimerNode). n.handler) (entered.same_payload t) ∙ set)
              (ap (λ (n : TimerNode). n.param) (entered.same_payload t))
              (omega (arith, entered.same_tick, entered_time)),
      )

  -- Put by readd_timer into a wheel without other timers, a timer whose nexttime is before the current tick is not handled:
  -- ticks give the same wheel whatever handlers there are, and the timer still hangs, as long as the tick count is
  -- below 2 ^ 63.
  pub ticks-readd_timer_late :
      (d : ℕ)
      → (w.nodes t).nexttime < w.tickcount
      → w.tickcount + d < 2 ^ 63
      → (later : TimeWheel) × (later.tickcount ≡ w.tickcount + d)
        × ((call : ℕ → ℕ → TimeWheel → Bool × TimeWheel)
            → (readd_timer t w >>= λ w'. ticks call d w') ≡ some later)
        × IsCircle later.nodes later.hanging (t ∷ [])
  ticks-readd_timer_late d past less =
      let r : Waited entered.wheel t d = waited d less (λ e b same. omega arith) in
      (
        r.after,
        omega (arith, r.tick_is, entered.same_tick),
        λ call. ap (λ o. o >>= λ w'. ticks call d w') entered.returns ∙ r.returns call,
        late-hangs r.after t (entered.wheel.nodes t).nexttime (entered.wheel.tickcount + d) r.place
            r.waiting r.stands (omega (arith, entered.same_tick, entered_time)),
      )
