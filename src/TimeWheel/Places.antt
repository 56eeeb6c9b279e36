-- ===== src/TimeWheel/Places.antt =====
-- common/timewheel.cpp: the lists of the wheel by their place, and the place where a timer belongs.
use cassobee.Base.{
  ℕ, ◌+◌, ◌<◌, ◌^◌, ◌%◌, ltb, ◌≡◌, refl, arith, if◌then◌else◌, true, Option, none, some,
}
use cassobee.LockfreePool.{update, same_node}
use cassobee.TimerList.{state_active, Nodes, TimerList}
use cassobee.TimeWheel.{TimeWheel, place, at_place, set_state}
use cassobee.TimeWheel.Lists.{list_at}

abbrev pub with_list : TimeWheel → Option ℕ → Nodes → TimerList → TimeWheel
with_list w none nodes l = record w { nodes = nodes; hanging = l }
with_list w (some slot) nodes l = record w { nodes = nodes; near = update w.near slot l }

pub at_place-with_list :
    (w : TimeWheel) (p : Option ℕ) (f : Nodes → TimerList → Option (Nodes × TimerList))
    (nodes : Nodes) (l : TimerList)
    → f w.nodes (list_at w p) ≡ some (nodes, l)
    → at_place p f w ≡ some (with_list w p nodes l)
at_place-with_list w none f nodes l e = rw e
at_place-with_list w (some slot) f nodes l e = rw e

pub list_at-with_list :
    (w : TimeWheel) (p q : Option ℕ) (nodes : Nodes) (l : TimerList)
    → list_at (with_list w p nodes l) q ≡ (if same_node p q then l else list_at w q)
list_at-with_list w none none nodes l = refl
list_at-with_list w none (some j) nodes l = refl
list_at-with_list w (some i) none nodes l = refl
list_at-with_list w (some i) (some j) nodes l = refl

pub nodes-with_list :
    (w : TimeWheel) (p : Option ℕ) (nodes : Nodes) (l : TimerList)
    → (with_list w p nodes l).nodes ≡ nodes
nodes-with_list w none nodes l = refl
nodes-with_list w (some i) nodes l = refl

pub tick-with_list :
    (w : TimeWheel) (p : Option ℕ) (nodes : Nodes) (l : TimerList)
    → (with_list w p nodes l).tickcount ≡ w.tickcount
tick-with_list w none nodes l = refl
tick-with_list w (some i) nodes l = refl

pub same_sound : (p q : Option ℕ) → same_node p q ≡ true → p ≡ q
same_sound none none h = refl
same_sound none (some j) h = absurd (ground arith)
same_sound (some i) none h = absurd (ground arith)
same_sound (some i) (some j) h = ground arith

pub same_self : (p : Option ℕ) → same_node p p ≡ true
same_self none = refl
same_self (some i) = ground arith

pub changes-with_list :
    (w : TimeWheel) (p : Option ℕ) (nodes : Nodes) (l : TimerList)
    → (with_list w p nodes l).changelist ≡ w.changelist
changes-with_list w none nodes l = refl
changes-with_list w (some i) nodes l = refl

-- Where a timer belongs at a tick: in the slot of its time, if that is this tick or one of the next 4095, and else among
-- the hanging ones.
abbrev pub due_place : ℕ → ℕ → Option ℕ
due_place nexttime now =
    if ltb nexttime now
    then none
    else if ltb nexttime (now + 4096)
    then some (nexttime % 4096)
    else none

pub place-due_place :
    (nexttime now : ℕ)
    → nexttime < 2 ^ 63
    → now < 2 ^ 63
    → place nexttime now ≡ due_place nexttime now
unfolding place
place-due_place nexttime now b c = ground arith

pub set_state_links :
    (w : TimeWheel) (t c : ℕ)
    → (((set_state w t state_active).nodes c).next ≡ (w.nodes c).next)
      × (((set_state w t state_active).nodes c).prev ≡ (w.nodes c).prev)
set_state_links w t c = ground arith

pub list_at-set_state :
    (w : TimeWheel) (t : ℕ) (q : Option ℕ) → list_at (set_state w t state_active) q ≡ list_at w q
list_at-set_state w t none = refl
list_at-set_state w t (some j) = refl
