-- ===== src/TimeWheel/Alone.antt =====
-- common/timewheel.cpp: a tick of a wheel in which one timer waits, and its time has not come.
use cassobee.Base.{
  ℕ, ◌%◌, ◌≡◌, refl, ap, ◌∙◌, arith, ◌==◌, not, if◌then◌else◌, Bool, true, false, Option, none,
  some, ◌>>=◌, [], ◌∷◌, add64,
}
use mathlib.Core.Path.{subst}
use cassobee.LockfreePool.{update, same_node}
use cassobee.LockfreePool.Chain.{occ}
use cassobee.TimerList.{state_active, TimerNode, empty_list, push_back, pop}
use cassobee.TimerList.Circle.{IsCircle, Relinked, payload}
use cassobee.TimerList.Push.{push_back-Relinked}
use cassobee.TimerList.Pop.{pop-Relinked}
use cassobee.TimeWheel.{
  TimeWheel, place, put, load_timers, load_loop, switch_changelist, regroup_timer, regroup_loop,
  regroup_timers, handle_loop, handle_timer, tick,
}
use cassobee.TimeWheel.Lists.{list_at}
use cassobee.TimeWheel.Places.{with_list}

-- The timer is in the list of the place, and every other list, with the change lists, is empty.
pub record Waiting (w : TimeWheel) (t : ℕ) (p : Option ℕ) : Type 0 where
  pub circles :
      (q : Option ℕ) → IsCircle w.nodes (list_at w q) (if same_node p q then t ∷ [] else [])
  pub changes : (b : Bool) → (w.changelist b).count ≡ 0
  pub active : (w.nodes t).state ≡ state_active

-- The wheel at the begin of `handle_timer`, where no list of changes has a timer.
abbrev pub loaded : TimeWheel → TimeWheel
loaded w = record w {
  frontidx = not w.frontidx;
  changelist = put w.changelist (not w.frontidx) empty_list;
}

abbrev pub slot_of : TimeWheel → ℕ
slot_of w = w.tickcount % 4096

-- The list of the slot is taken out.
abbrev pub emptied : TimeWheel → TimeWheel
emptied w = record (loaded w) { near = update w.near (slot_of w) empty_list }

-- What follows handle_timer.
abbrev pub next_tick : TimeWheel → TimeWheel
next_tick w = record w { tickcount = add64 w.tickcount 1 }

unfoldable pub finish : TimeWheel → Option TimeWheel
finish w =
    if (next_tick w).tickcount % 4096 == 0 then regroup_timers (next_tick w) else some (next_tick w)

module _ (call : ℕ → ℕ → TimeWheel → Bool × TimeWheel) (w : TimeWheel)
    (changes : (b : Bool) → (w.changelist b).count ≡ 0) where
  load-loaded : load_timers (switch_changelist w) ≡ some (loaded w)
  unfolding load_timers switch_changelist load_loop
  load-loaded = rw (changes (not w.frontidx)) refl

  -- A tick goes over the list of its slot.
  pub tick-handle_loop : tick call w ≡ (
      handle_loop call
        (w.near (slot_of w)).count
        (w.near (slot_of w)).head
        (emptied w)
        (w.near (slot_of w))
      >>= finish)
  unfolding tick handle_timer finish
  tick-handle_loop = rw load-loaded refl

  pub tick-quiet : (w.near (slot_of w)).count ≡ 0 → tick call w ≡ finish (emptied w)
  unfolding handle_loop
  tick-quiet none_due = tick-handle_loop ∙ rw none_due refl

pub finish-no :
    (v : TimeWheel) → ((next_tick v).tickcount % 4096 == 0) ≡ false → finish v ≡ some (next_tick v)
unfolding finish
finish-no v h = rw h refl

pub finish-yes :
    (v : TimeWheel)
    → ((next_tick v).tickcount % 4096 == 0) ≡ true
    → finish v ≡ regroup_timers (next_tick v)
unfolding finish
finish-yes v h = rw h refl

pub regroup-none : (w : TimeWheel) → w.hanging.count ≡ 0 → regroup_timers w ≡ some w
unfolding regroup_timers regroup_loop
regroup-none w h = rw h refl

module _ (w : TimeWheel) (t : ℕ) (h : Waiting w t none) where
  regroup-place :
      regroup_timers w
      ≡ (regroup_timer t (place (w.nodes t).nexttime w.tickcount) w >>= λ w'. some w')
  unfolding regroup_timers regroup_loop
  regroup-place = rw ((h.circles none).1, (h.circles none).0) refl

  pub regroup-stay : place (w.nodes t).nexttime w.tickcount ≡ none → regroup_timers w ≡ some w
  regroup-stay e = regroup-place ∙ rw e refl

  -- The timer goes from the hanging list to its slot.
  pub record Moved (slot : ℕ) : Type 0 where
    pub after : TimeWheel
    pub returns : regroup_timers w ≡ some after
    pub waiting : Waiting after t (some slot)
    pub same_tick : after.tickcount ≡ w.tickcount
    pub same_payload : payload (after.nodes t) ≡ payload (w.nodes t)

  taken : Relinked w.nodes (t ∷ []) [] (pop t w.nodes w.hanging)
  unfolding occ
  taken = pop-Relinked w.nodes w.hanging [] t [] (h.circles none) (λ i. ground arith) (omega arith)

  given :
      (slot : ℕ) → Relinked taken.nodes' (t ∷ []) (t ∷ []) (push_back t taken.nodes' (w.near slot))
  unfolding occ
  given slot =
      push_back-Relinked taken.nodes' (w.near slot) [] t (h.circles (some slot)) (λ i. omega arith)
        refl (omega arith)

  moved : ℕ → TimeWheel
  moved slot =
      with_list (with_list w none taken.nodes' taken.list) (some slot) (given slot).nodes'
        (given slot).list

  moved_near :
      (slot j : ℕ) (b : Bool)
      → (slot == j) ≡ b
      → IsCircle
          (given slot).nodes'
          (if b then (given slot).list else w.near j)
          (if b then t ∷ [] else [])
  moved_near slot j true e = (given slot).circle
  moved_near slot j false e = h.circles (some j)

  moved_circles :
      (slot : ℕ) (q : Option ℕ)
      → IsCircle
          (moved slot).nodes
          (list_at (moved slot) q)
          (if same_node (some slot) q then t ∷ [] else [])
  unfolding moved
  moved_circles slot none = taken.circle
  moved_circles slot (some j) = moved_near slot j (slot == j) refl

  pub regroup-move : (slot : ℕ) → place (w.nodes t).nexttime w.tickcount ≡ some slot → Moved slot
  unfolding moved
  regroup-move slot e = record {
    after = moved slot;
    returns = regroup-place ∙ rw (e, taken.returns, (given slot).returns) refl;
    waiting = record {
      circles = moved_circles slot;
      changes = h.changes;
      active =
          ap (λ (n : TimerNode). n.state) ((given slot).same_payload t ∙ taken.same_payload t)
          ∙ h.active;
    };
    same_tick = refl;
    same_payload = (given slot).same_payload t ∙ taken.same_payload t;
  }

-- The list of the slot is empty, and so it still is afterwards.
module _ (w : TimeWheel) (t : ℕ) (p : Option ℕ) (h : Waiting w t p)
    (elsewhere : same_node p (some (slot_of w)) ≡ false) where
  pub no_timer : (w.near (slot_of w)).count ≡ 0
  no_timer =
      (subst (λ b. IsCircle w.nodes (w.near (slot_of w)) (if b then t ∷ [] else [])) elsewhere
        (h.circles (some (slot_of w)))).1

  emptied_near :
      (j : ℕ) (b : Bool)
      → (slot_of w == j) ≡ b
      → IsCircle w.nodes
          (if b then empty_list else w.near j)
          (if same_node p (some j) then t ∷ [] else [])
  emptied_near j true e =
      let same : same_node p (some j) ≡ false =
        ap (λ i. same_node p (some i)) (ground arith) ∙ elsewhere in
      rw same (refl, refl)
  emptied_near j false e = h.circles (some j)

  emptied_circles :
      (q : Option ℕ)
      → IsCircle w.nodes (list_at (next_tick (emptied w)) q) (if same_node p q then t ∷ [] else [])
  emptied_circles none = h.circles none
  emptied_circles (some j) = emptied_near j (slot_of w == j) refl

  put_changes : (front b : Bool) → (put w.changelist front empty_list b).count ≡ 0
  put_changes true true = refl
  put_changes true false = h.changes false
  put_changes false true = h.changes true
  put_changes false false = refl

  pub emptied-Waiting : Waiting (next_tick (emptied w)) t p
  emptied-Waiting = record {
    circles = emptied_circles;
    changes = put_changes (not w.frontidx);
    active = h.active;
  }
