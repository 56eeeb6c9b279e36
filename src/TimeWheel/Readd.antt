-- ===== src/TimeWheel/Readd.antt =====
-- common/timewheel.cpp: `readd_timer` puts a timer at the end of the list of its place.
use cassobee.Base.{
  ℕ, ◌+◌, ◌≤◌, ◌<◌, ◌^◌, ◌≢◌, ◌≡◌, refl, ap, ◌∙◌, arith, ◌==◌, if◌then◌else◌, Bool, true, false,
  Bool-cases, inl, inr, Option, none, some, List, [], ◌∷◌, ◌++◌, length,
}
use cassobee.LockfreePool.{update, same_node}
use cassobee.LockfreePool.Chain.{occ, occ-append}
use cassobee.TimerList.{state_active, state_none, TimerNode, Nodes, push_back}
use cassobee.TimerList.Circle.{IsCircle, Relinked, payload}
use cassobee.TimerList.Push.{push_back-Relinked}
use cassobee.TimeWheel.{TimeWheel, place, set_state, readd_timer}
use cassobee.TimeWheel.Lists.{list_at, stands, Holds, IsCircle-same}
use cassobee.TimeWheel.Places.{
  with_list, at_place-with_list, list_at-with_list, nodes-with_list, tick-with_list, same_sound,
  changes-with_list, due_place, place-due_place, set_state_links, list_at-set_state,
}

-- A node stands at one place only.
stands_once :
    (a : Option (Option ℕ)) (p q : Option ℕ)
    → same_node p q ≡ false
    → stands a q ≡ true
    → stands a p ≡ false
stands_once none p q h k = refl
stands_once (some a) p q h k = elim (Bool-cases (same_node a p)) [
  | inl at_p ↦ absurd (ground (arith, same_sound a p at_p, same_sound a q k))
  | inr elsewhere ↦ elsewhere
]

-- The lists behind the addition of `t` at `p`.
abbrev pub extended : (Option ℕ → List ℕ) → Option ℕ → ℕ → Option ℕ → List ℕ
extended items p t q = if same_node p q then items p ++ (t ∷ []) else items q

module _ (w : TimeWheel) (items : Option ℕ → List ℕ) (at : ℕ → Option (Option ℕ))
    (h : Holds w items at) (t : ℕ) (free : at t ≡ none) (p : Option ℕ)
    (few : length (items p) + 1 < 2 ^ 64) where
  absent : (q : Option ℕ) → occ t (items q) ≡ 0
  absent q = h.once t q ∙ ap (λ a. if stands a q then 1 else 0) free

  bit_small : (b : Bool) → (if b then 1 else 0) ≤ 1
  bit_small true = omega arith
  bit_small false = omega arith

  pushed : Relinked w.nodes (t ∷ items p) (items p ++ (t ∷ [])) (push_back t w.nodes (list_at w p))
  pushed =
      push_back-Relinked w.nodes (list_at w p) (items p) t (h.circles p)
        (λ i. omega (arith, h.once i p, bit_small (stands (at i) p))) (absent p) few

  after : TimeWheel
  after = set_state (with_list w p pushed.nodes' pushed.list) t state_active

  after_links :
      (c : ℕ)
      → ((after.nodes c).next ≡ (pushed.nodes' c).next)
        × ((after.nodes c).prev ≡ (pushed.nodes' c).prev)
  unfolding after
  after_links c =
      let links = set_state_links (with_list w p pushed.nodes' pushed.list) t c in
      (
        links.0 ∙ ap (λ (n : Nodes). (n c).next) (nodes-with_list w p pushed.nodes' pushed.list),
        links.1 ∙ ap (λ (n : Nodes). (n c).prev) (nodes-with_list w p pushed.nodes' pushed.list),
      )

  list_at-after :
      (q : Option ℕ) → list_at after q ≡ (if same_node p q then pushed.list else list_at w q)
  unfolding after
  list_at-after q =
      list_at-set_state (with_list w p pushed.nodes' pushed.list) t q
      ∙ list_at-with_list w p q pushed.nodes' pushed.list

  -- A node of another list is none of those that are linked anew.
  untouched :
      (q : Option ℕ)
      → same_node p q ≡ false
      → (c : ℕ) → 1 ≤ occ c (items q)
      → pushed.nodes' c ≡ w.nodes c
  unfolding occ
  untouched q apart c among =
      let there : stands (at c) q ≡ true = ground (arith, h.once c q) in
      pushed.others c (ground (arith, h.once c p, stands_once (at c) p q apart there, absent q))

  IsCircle-after :
      (q : Option ℕ)
      → (b : Bool) → same_node p q ≡ b
      → IsCircle after.nodes (list_at after q) (extended items p t q)
  IsCircle-after q true same =
      rw (same, list_at-after q, same)
        (IsCircle-same pushed.nodes' after.nodes pushed.list (items p ++ (t ∷ []))
          (λ c among. after_links c) pushed.circle)
  IsCircle-after q false apart =
      rw (apart, list_at-after q, apart)
        (IsCircle-same w.nodes after.nodes (list_at w q) (items q)
          (λ c among.
            let same = untouched q apart c among in
            (
              (after_links c).0 ∙ ap (λ (n : TimerNode). n.next) same,
              (after_links c).1 ∙ ap (λ (n : TimerNode). n.prev) same,
            ))
          (h.circles q))

  once_at :
      (i : ℕ) (q : Option ℕ) (new here : Bool)
      → (t == i) ≡ new
      → same_node p q ≡ here
      → occ i (if here then items p ++ (t ∷ []) else items q)
        ≡ (if stands (if new then some p else at i) q then 1 else 0)
  unfolding occ
  once_at i q true true e s = rw s (ground (arith, occ-append i (items p) (t ∷ []), absent p))
  once_at i q true false e s = rw s (ground (arith, absent q))
  once_at i q false true e s =
      rw (← same_sound p q s) (ground (arith, occ-append i (items p) (t ∷ []), h.once i p))
  once_at i q false false e s = h.once i q

  once_after :
      (i : ℕ) (q : Option ℕ)
      → occ i (extended items p t q) ≡ (if stands (update at t (some p) i) q then 1 else 0)
  once_after i q = once_at i q (t == i) (same_node p q) refl refl

  after-Holds : Holds after (extended items p t) (update at t (some p))
  after-Holds = record { circles = λ q. IsCircle-after q (same_node p q) refl; once = once_after }

  after_tick : after.tickcount ≡ w.tickcount
  unfolding after
  after_tick = tick-with_list w p pushed.nodes' pushed.list

  after_elsewhere : (i : ℕ) → t ≢ i → occ i (items p) ≡ 0 → after.nodes i ≡ w.nodes i
  unfolding after occ
  after_elsewhere i ne out =
      ground arith
      ∙ ap (λ (n : Nodes). n i) (nodes-with_list w p pushed.nodes' pushed.list)
      ∙ pushed.others i (ground arith)

  after_payload :
      (i : ℕ)
      → payload (record (after.nodes i) { state = state_none })
        ≡ payload (record (w.nodes i) { state = state_none })
  unfolding after
  after_payload i =
      ground arith
      ∙ ap (λ (n : Nodes). payload (record (n i) { state = state_none }))
          (nodes-with_list w p pushed.nodes' pushed.list)
      ∙ ap (λ (n : TimerNode). record n { state = state_none }) (pushed.same_payload i)

  after_changes : after.changelist ≡ w.changelist
  unfolding after
  after_changes = changes-with_list w p pushed.nodes' pushed.list

  readd-after : place (w.nodes t).nexttime w.tickcount ≡ p → readd_timer t w ≡ some after
  unfolding readd_timer after
  readd-after e =
      rw (e, at_place-with_list w p (push_back t) pushed.nodes' pushed.list pushed.returns)

-- What readd_timer leaves: the timer stands at the end of the list of its place, active, and the lists are well formed.
-- The nodes of the other lists, of the change lists too, are as they were, and no node has another field changed.
pub record Readded (w : TimeWheel) (items : Option ℕ → List ℕ) (at : ℕ → Option (Option ℕ)) (t : ℕ)
    (p : Option ℕ) : Type 0 where
  pub wheel : TimeWheel
  pub returns : readd_timer t w ≡ some wheel
  pub holds : Holds wheel (extended items p t) (update at t (some p))
  pub active : (wheel.nodes t).state ≡ state_active
  pub same_tick : wheel.tickcount ≡ w.tickcount
  pub elsewhere : (i : ℕ) → t ≢ i → occ i (items p) ≡ 0 → wheel.nodes i ≡ w.nodes i
  pub same_payload :
      (i : ℕ)
      → payload (record (wheel.nodes i) { state = state_none })
        ≡ payload (record (w.nodes i) { state = state_none })
  pub changes : wheel.changelist ≡ w.changelist

-- If the hanging list and those of the near slots are well formed and hold each of their timers once, readd_timer of a
-- timer that stands in none of these lists returns with it, active, at the end of the list where it belongs: that of the
-- slot of its nexttime, if this is the current tick or one of the next 4095, and else the hanging list. The other lists
-- keep their timers, and nodes outside that list keep their links. The times are below 2 ^ 63, and that list has fewer
-- than 2 ^ 64 - 1 timers.
pub readd_timer-Readded :
    (w : TimeWheel) (items : Option ℕ → List ℕ) (at : ℕ → Option (Option ℕ)) (t : ℕ)
    → Holds w items at
    → at t ≡ none
    → (w.nodes t).nexttime < 2 ^ 63
    → w.tickcount < 2 ^ 63
    → length (items (due_place (w.nodes t).nexttime w.tickcount)) + 1 < 2 ^ 64
    → Readded w items at t (due_place (w.nodes t).nexttime w.tickcount)
unfolding after
readd_timer-Readded w items at t h free b c few =
    let p : Option ℕ = due_place (w.nodes t).nexttime w.tickcount in
    record {
      wheel = after w items at h t free p few;
      returns =
          readd-after w items at h t free p few
            (place-due_place (w.nodes t).nexttime w.tickcount b c);
      holds = after-Holds w items at h t free p few;
      active = ground arith;
      same_tick = after_tick w items at h t free p few;
      elsewhere = after_elsewhere w items at h t free p few;
      same_payload = after_payload w items at h t free p few;
      changes = after_changes w items at h t free p few;
    }
