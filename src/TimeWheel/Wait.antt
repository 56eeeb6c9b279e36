-- ===== src/TimeWheel/Wait.antt =====
-- common/timewheel.cpp: ticks in which no handler is called, and the tick in which one is.
use mathlib.Core.Path.{subst}
use cassobee.Base.{
  ℕ, zero, suc, ◌+◌, ◌%◌, ◌^◌, ◌<◌, ◌≡◌, ◌≢◌, refl, ap, sym, ◌∙◌, arith, ltb, if◌then◌else◌, Bool,
  true, false, Option, none, some, ◌>>=◌, [], ◌∷◌,
}
use cassobee.LockfreePool.{same_node}
use cassobee.TimerList.{TimerNode, TimerList, state_active}
use cassobee.TimerList.Circle.{IsCircle, payload}
use cassobee.TimeWheel.{TimeWheel, handle_loop, handled, tick}
use cassobee.TimeWheel.Places.{due_place}
use cassobee.TimeWheel.Alone.{Waiting, slot_of, emptied, finish, tick-handle_loop}
use cassobee.TimeWheel.Turn.{Stands, near, hanging, late, Turned, turn}

unfoldable pub ticks : (ℕ → ℕ → TimeWheel → Bool × TimeWheel) → ℕ → TimeWheel → Option TimeWheel
ticks call zero w = some w
ticks call (suc n) w = tick call w >>= λ w'. ticks call n w'

-- So many ticks that call no handler.
pub record Waited (w : TimeWheel) (t d : ℕ) : Type 0 where
  pub after : TimeWheel
  pub place : Option ℕ
  pub returns : (call : ℕ → ℕ → TimeWheel → Bool × TimeWheel) → ticks call d w ≡ some after
  pub tick_is : after.tickcount ≡ w.tickcount + d
  pub waiting : Waiting after t place
  pub stands : Stands (w.nodes t).nexttime (w.tickcount + d) place
  pub same_payload : payload (after.nodes t) ≡ payload (w.nodes t)

pub wait :
    (d : ℕ) (w : TimeWheel) (t : ℕ) (p : Option ℕ)
    → w.tickcount + d < 2 ^ 63
    → (w.nodes t).nexttime < 2 ^ 63
    → Waiting w t p
    → Stands (w.nodes t).nexttime w.tickcount p
    → ((e : ℕ) → e < d → w.tickcount + e ≢ (w.nodes t).nexttime)
    → Waited w t d
unfolding ticks
wait zero w t p low low_time h stands other = record {
  after = w;
  place = p;
  returns = λ call. refl;
  tick_is = omega arith;
  waiting = h;
  stands = subst (λ n. Stands (w.nodes t).nexttime n p) (omega arith) stands;
  same_payload = refl;
}
wait (suc d) w t p low low_time h stands other =
    let one : Turned w t =
      turn w t p (omega arith) low_time h stands (λ e. other 0 (omega arith) (omega arith)) in
    let time : (one.after.nodes t).nexttime ≡ (w.nodes t).nexttime =
      ap (λ (n : TimerNode). n.nexttime) one.same_payload in
    let stands' : Stands (one.after.nodes t).nexttime one.after.tickcount one.place =
      subst (λ n. Stands n one.after.tickcount one.place) (sym time)
        (subst (λ n. Stands (w.nodes t).nexttime n one.place) (sym one.tick_is) one.stands) in
    let rest : Waited one.after t d =
      wait d one.after t one.place (omega (arith, one.tick_is)) (omega (arith, time)) one.waiting
        stands'
        (λ e less same. other (suc e) (omega arith) (omega (arith, one.tick_is, time, same))) in
    record {
      after = rest.after;
      place = rest.place;
      returns =
          λ call. ap (λ o. o >>= λ w'. ticks call d w') (one.returns call) ∙ rest.returns call;
      tick_is = omega (arith, rest.tick_is, one.tick_is);
      waiting = rest.waiting;
      stands =
          subst (λ n. Stands n (w.tickcount + suc d) rest.place) time
            (subst (λ n. Stands (one.after.nodes t).nexttime n rest.place)
              (omega (arith, one.tick_is)) rest.stands);
      same_payload = rest.same_payload ∙ one.same_payload;
    }

bind_first :
    {A B : Type 0} (o : Option (A × B)) (f : A → Option A)
    → ((o >>= λ r. some r.0) >>= f) ≡ (o >>= λ r. f r.0)
bind_first none f = refl
bind_first (some r) f = refl

-- At its time the timer is the one of the slot.
due_slot :
    (w : TimeWheel) (t : ℕ) (p : Option ℕ)
    → Waiting w t p
    → Stands (w.nodes t).nexttime w.tickcount p
    → w.tickcount ≡ (w.nodes t).nexttime
    → IsCircle w.nodes (w.near (slot_of w)) (t ∷ [])
due_slot w t p h (near from soon) same =
    let slot : (w.nodes t).nexttime % 4096 ≡ slot_of w = omega arith in
    let there : same_node (some ((w.nodes t).nexttime % 4096)) (some (slot_of w)) ≡ true =
      ground arith in
    subst (λ b. IsCircle w.nodes (w.near (slot_of w)) (if b then t ∷ [] else [])) there
      (h.circles (some (slot_of w)))
due_slot w t p h (hanging before) same = absurd (omega arith)
due_slot w t p h (late past) same = absurd (omega arith)

handle_one :
    (call : ℕ → ℕ → TimeWheel → Bool × TimeWheel) (v : TimeWheel) (l : TimerList) (t handler : ℕ)
    → l.count ≡ 1
    → l.head ≡ some t
    → (v.nodes t).state ≡ state_active
    → (v.nodes t).handler ≡ some handler
    → handle_loop call l.count l.head v l
      ≡ (handled call t (call handler (v.nodes t).param v) l >>= λ r. some r.0)
unfolding handle_loop
handle_one call v l t handler count head active set =
    ap (λ n. handle_loop call n l.head v l) count
    ∙ ap (λ o. handle_loop call 1 o v l) head
    ∙ rw (active, set) refl

tick-due :
    (call : ℕ → ℕ → TimeWheel → Bool × TimeWheel) (w : TimeWheel) (t handler : ℕ) (p : Option ℕ)
    → Waiting w t p
    → Stands (w.nodes t).nexttime w.tickcount p
    → w.tickcount ≡ (w.nodes t).nexttime
    → (w.nodes t).handler ≡ some handler
    → tick call w ≡ (
        handled call t (call handler (w.nodes t).param (emptied w)) (w.near (slot_of w)) >>= λ r.
        finish r.0)
tick-due call w t handler p h stands now set =
    let c = due_slot w t p h stands now in
    tick-handle_loop call w h.changes
    ∙ ap (λ o. o >>= finish)
        (handle_one call (emptied w) (w.near (slot_of w)) t handler c.1 c.0 h.active set)
    ∙ (bind_first (handled call t (call handler (w.nodes t).param (emptied w)) (w.near (slot_of w)))
        finish)

pub due_place-Stands : (n now : ℕ) → Stands n now (due_place n now)
due_place-Stands n now = go (ltb n now) (ltb n (now + 4096)) refl refl
  where
    go :
        (a b : Bool)
        → ltb n now ≡ a
        → ltb n (now + 4096) ≡ b
        → Stands n now (if a then none else if b then some (n % 4096) else none)
    go true b e f = late (ground arith)
    go false true e f = near (ground arith) (ground arith)
    go false false e f = hanging (ground arith)

module _ (v : TimeWheel) (t d : ℕ) (r : Waited v t d) where
  after_Stands : Stands (r.after.nodes t).nexttime r.after.tickcount r.place
  after_Stands =
      subst (λ n. Stands n r.after.tickcount r.place)
        (sym (ap (λ (n : TimerNode). n.nexttime) r.same_payload))
        (subst (λ n. Stands (v.nodes t).nexttime n r.place) (sym r.tick_is) r.stands)

  pub tick-Waited :
      (call : ℕ → ℕ → TimeWheel → Bool × TimeWheel) (handler param : ℕ)
      → (v.nodes t).handler ≡ some handler
      → (v.nodes t).param ≡ param
      → v.tickcount + d ≡ (v.nodes t).nexttime
      → tick call r.after ≡ (
          handled call t (call handler param (emptied r.after)) (r.after.near (slot_of r.after))
          >>= λ x. finish x.0)
  tick-Waited call handler param set given now =
      tick-due call r.after t handler r.place r.waiting after_Stands
        (r.tick_is ∙ now ∙ sym (ap (λ (n : TimerNode). n.nexttime) r.same_payload))
        (ap (λ (n : TimerNode). n.handler) r.same_payload ∙ set)
      ∙ ap
          (λ a.
            handled call t (call handler a (emptied r.after)) (r.after.near (slot_of r.after))
            >>= λ x. finish x.0)
          (ap (λ (n : TimerNode). n.param) r.same_payload ∙ given)

-- A timer whose time is over hangs.
pub late-hangs :
    (w : TimeWheel) (t n now : ℕ) (p : Option ℕ)
    → Waiting w t p
    → Stands n now p
    → n < now
    → IsCircle w.nodes w.hanging (t ∷ [])
late-hangs w t n now p h (near from soon) past = absurd (omega arith)
late-hangs w t n now p h (hanging before) past = h.circles none
late-hangs w t n now p h (late over) past = h.circles none
