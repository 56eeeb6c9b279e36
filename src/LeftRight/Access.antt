-- ===== src/LeftRight/Access.antt =====
-- thread/left_right.h: each access by itself keeps what the invariant says.
use cassobee.Base.{
  ℕ, ◌+◌, ◌≤◌, ◌<◌, ◌≡◌, ◌⊎◌, inl, inr, refl, ap, sym, ◌∙◌, arith, ltb, if◌then◌else◌, Bool, true,
  false, not,
}
use cassobee.LeftRight.{
  Side, left, right, other, Place, outside, loaded, arrived, reading, Writer, unlocked,
  writing_first, storing, loading, waiting_next, toggling, waiting_pre, writing_second, Shared,
  advance, proceed, scan,
}
use cassobee.LeftRight.Count.{counted}
use cassobee.LeftRight.Inv.{Allowed, Phase}

module _ {A : Type 0} where
  -- A reader chooses an instance that the writer lets it read.
  pub advance-Allowed :
      (w : Writer A) (s : Shared A) (slot : ℕ) (p : Place)
      → Phase w s.left_right s.inst
      → Allowed w s.left_right slot p
      → Allowed w s.left_right slot (advance s slot p).1
  unfolding advance
  advance-Allowed w s slot outside h a = tt
  advance-Allowed w s slot (loaded vi) h a = tt
  advance-Allowed w s slot (reading vi side) h a = tt
  advance-Allowed unlocked s slot (arrived vi) h a = refl
  advance-Allowed (writing_first lr f) s slot (arrived vi) h a = h.0
  advance-Allowed (storing lr f) s slot (arrived vi) h a = h.0
  advance-Allowed (loading lr f) s slot (arrived vi) h a = tt
  advance-Allowed (waiting_next lr f v k) s slot (arrived vi) h a = inl h.0
  advance-Allowed (toggling lr f v) s slot (arrived vi) h a = inl h.0
  advance-Allowed (waiting_pre lr f v k) s slot (arrived vi) h a = inl h.0
  advance-Allowed (writing_second lr f) s slot (arrived vi) h a = h.0

  -- A round of a scan: a counter at 0 has no reader of the old instance.
  scan_next :
      (counters : Bool → ℕ → ℕ) (nums : ℕ) (s : Side) (f : A → A) (v : Bool) (k : ℕ) (slot : ℕ)
      (vi : Bool) (side lr : Side)
      → slot < nums
      → counted (not v) slot slot (reading vi side) ≤ counters (not v) slot
      → (side ≡ other s) ⊎ ((vi ≡ v) ⊎ (k ≤ slot))
      → Allowed
          (scan nums k
            (counters (not v) k)
            (waiting_next s f v 0)
            (waiting_next s f v (k + 1))
            (toggling s f v))
          lr
          slot
          (reading vi side)
  scan_next counters nums s f true k slot true side lr b c a = ground arith
  scan_next counters nums s f true k slot false side lr b c a = ground arith
  scan_next counters nums s f false k slot true side lr b c a = ground arith
  scan_next counters nums s f false k slot false side lr b c a = ground arith

  scan_pre :
      (counters : Bool → ℕ → ℕ) (nums : ℕ) (s : Side) (f : A → A) (v : Bool) (k : ℕ) (slot : ℕ)
      (vi : Bool) (side lr : Side)
      → slot < nums
      → counted v slot slot (reading vi side) ≤ counters v slot
      → (side ≡ other s) ⊎ ((vi ≡ v) × (k ≤ slot))
      → Allowed
          (scan nums k
            (counters v k)
            (waiting_pre s f v 0)
            (waiting_pre s f v (k + 1))
            (writing_second s f))
          lr
          slot
          (reading vi side)
  scan_pre counters nums s f true k slot true side lr b c a = ground arith
  scan_pre counters nums s f true k slot false side lr b c a = ground arith
  scan_pre counters nums s f false k slot true side lr b c a = ground arith
  scan_pre counters nums s f false k slot false side lr b c a = ground arith

  -- The writer's step keeps what a reader is allowed, if the counters count the reader.
  pub proceed-Allowed :
      (nums : ℕ) (w : Writer A) (s : Shared A) (slot : ℕ) (p : Place)
      → Phase w s.left_right s.inst
      → slot < nums
      → ((v : Bool) → counted v slot slot p ≤ s.counters v slot)
      → Allowed w s.left_right slot p
      → Allowed (proceed nums s w).1 (proceed nums s w).0.left_right slot p
  unfolding proceed
  proceed-Allowed nums w s slot outside h b c a = tt
  proceed-Allowed nums w s slot (loaded vi) h b c a = tt
  proceed-Allowed nums w s slot (arrived vi) h b c a = tt
  proceed-Allowed nums unlocked s slot (reading vi side) h b c a = a
  proceed-Allowed nums (writing_first lr f) s slot (reading vi side) h b c a = a
  proceed-Allowed nums (storing lr f) s slot (reading vi side) h b c a = tt
  proceed-Allowed nums (loading lr f) s slot (reading vi side) h b c a = inr (inr (omega arith))
  proceed-Allowed nums (waiting_next lr f v k) s slot (reading vi side) h b c a =
      scan_next s.counters nums lr f v k slot vi side s.left_right b (c (not v)) a
  proceed-Allowed nums (toggling lr f v) s slot (reading vi side) h b c (inl old) = inl old
  proceed-Allowed nums (toggling lr f v) s slot (reading vi side) h b c (inr e) =
      inr (e, omega arith)
  proceed-Allowed nums (waiting_pre lr f v k) s slot (reading vi side) h b c a =
      scan_pre s.counters nums lr f v k slot vi side s.left_right b (c v) a
  proceed-Allowed nums (writing_second lr f) s slot (reading vi side) h b c a = a ∙ sym h.0

  scan_all :
      (P : Writer A → Type 0) (nums k counter : ℕ) (again onward done : Writer A)
      → P again
      → P onward
      → P done
      → P (scan nums k counter again onward done)
  scan_all P nums k counter again onward done a b c = pick (ltb k nums) (ltb 0 counter)
    where
      pick : (more busy : Bool) → P (if more then (if busy then again else onward) else done)
      pick true true = a
      pick true false = b
      pick false busy = c

  pub proceed-Phase :
      (nums : ℕ) (w : Writer A) (s : Shared A)
      → Phase w s.left_right s.inst
      → Phase (proceed nums s w).1 (proceed nums s w).0.left_right (proceed nums s w).0.inst
  unfolding proceed
  proceed-Phase nums unlocked s h = h
  proceed-Phase nums (writing_first left f) s h = (h.0, ap f (sym h.1))
  proceed-Phase nums (writing_first right f) s h = (h.0, ap f h.1)
  proceed-Phase nums (storing lr f) s h = (refl, h.1)
  proceed-Phase nums (loading lr f) s h = h
  proceed-Phase nums (waiting_next lr f v k) s h =
      scan_all (λ w. Phase w s.left_right s.inst) nums k (s.counters (not v) k)
        (waiting_next lr f v 0) (waiting_next lr f v (k + 1)) (toggling lr f v) h h h
  proceed-Phase nums (toggling lr f v) s h = h
  proceed-Phase nums (waiting_pre lr f v k) s h =
      scan_all (λ w. Phase w s.left_right s.inst) nums k (s.counters v k) (waiting_pre lr f v 0)
        (waiting_pre lr f v (k + 1)) (writing_second lr f) h h h
  proceed-Phase nums (writing_second left f) s h = sym h.1
  proceed-Phase nums (writing_second right f) s h = h.1

  pub advance-Phase :
      (w : Writer A) (s : Shared A) (slot : ℕ) (p : Place)
      → Phase w s.left_right s.inst
      → Phase w (advance s slot p).0.left_right (advance s slot p).0.inst
  unfolding advance
  advance-Phase w s slot outside h = h
  advance-Phase w s slot (loaded vi) h = h
  advance-Phase w s slot (arrived vi) h = h
  advance-Phase w s slot (reading vi side) h = h

  pub left_right-advance :
      (s : Shared A) (slot : ℕ) (p : Place) → s.left_right ≡ (advance s slot p).0.left_right
  unfolding advance
  left_right-advance s slot outside = refl
  left_right-advance s slot (loaded vi) = refl
  left_right-advance s slot (arrived vi) = refl
  left_right-advance s slot (reading vi side) = refl

  pub counters-proceed :
      (nums : ℕ) (s : Shared A) (w : Writer A) (v : Bool) (k : ℕ)
      → (proceed nums s w).0.counters v k ≡ s.counters v k
  unfolding proceed
  counters-proceed nums s unlocked v k = refl
  counters-proceed nums s (writing_first lr f) v k = refl
  counters-proceed nums s (storing lr f) v k = refl
  counters-proceed nums s (loading lr f) v k = refl
  counters-proceed nums s (waiting_next lr f u j) v k = refl
  counters-proceed nums s (toggling lr f u) v k = refl
  counters-proceed nums s (waiting_pre lr f u j) v k = refl
  counters-proceed nums s (writing_second lr f) v k = refl
