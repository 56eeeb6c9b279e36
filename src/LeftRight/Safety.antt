-- ===== src/LeftRight/Safety.antt =====
-- thread/left_right.h: no interleaving lets the writer change an instance that is being read.
use cassobee.Base.{
  ℕ, ◌+◌, ◌≤◌, ◌<◌, ◌≢◌, refl, ◌∙◌, arith, Option, none, some, Bool, List, [], ◌∷◌, ◌++◌,
  length-append, All, All-append, All-split, All-map, All-zip,
}
use mathlib.Core.Path.{subst}
use cassobee.LeftRight.{
  Side, left, right, other, Place, outside, loaded, arrived, reading, Reader, Writer, unlocked,
  writing_first, storing, loading, waiting_next, toggling, waiting_pre, writing_second, Shared,
  State, advance, proceed, Step, read_step, lock_step, write_step, Reach, here, next,
}
use cassobee.LeftRight.Count.{count, counted, count-append, count-le-length, advance_counts}
use cassobee.LeftRight.Inv.{Allowed, Inv}
use cassobee.LeftRight.Access.{
  advance-Allowed, advance-Phase, left_right-advance, proceed-Allowed, proceed-Phase,
  counters-proceed,
}

-- Every reader is one of those that are counted at its counter.
each_counted :
    (counters : Bool → ℕ → ℕ) (rs : List Reader)
    → ((v : Bool) (k : ℕ) → count v k rs ≤ counters v k)
    → All (λ (r : Reader). (v : Bool) → counted v r.slot r.slot r.place ≤ counters v r.slot) rs
unfolding count
each_counted counters [] h = tt
each_counted counters (r ∷ rs) h =
    (λ v. omega (arith, h v r.slot), each_counted counters rs (λ v k. omega (arith, h v k)))

module _ {A : Type 0} (nums : ℕ) where
  read_step-Inv :
      (before after : List Reader) (r : Reader) (w : Writer A) (s : Shared A)
      → Inv nums (record { readers = before ++ (r ∷ after); writer = w; shared = s })
      → Inv nums (record {
        readers = before ++ (record r { place = (advance s r.slot r.place).1 } ∷ after);
        writer = w;
        shared = (advance s r.slot r.place).0;
      })
  unfolding count
  read_step-Inv before after r w s h = record {
    few = omega (arith, h.few, length-append before (r ∷ after), length-append before (r' ∷ after));
    slots = All-append (λ (x : Reader). x.slot < nums) before (r' ∷ after) slots.0 slots.1;
    counts = λ v k.
        advance_counts A s r.slot r.place v k (count v k before + count v k after)
          (h.counts v k ∙ count-append v k before (r ∷ after) ∙ omega arith)
          (omega (
            arith,
            h.few,
            length-append before (r ∷ after),
            count-le-length v k before,
            count-le-length v k after,
          ))
        ∙ omega (arith, count-append v k before (r' ∷ after));
    phase = advance-Phase w s r.slot r.place h.phase;
    allowed =
        subst (λ lr. All (λ (x : Reader). Allowed w lr x.slot x.place) (before ++ (r' ∷ after)))
          (left_right-advance s r.slot r.place)
          (All-append (λ (x : Reader). Allowed w s.left_right x.slot x.place) before (r' ∷ after)
            allowed.0 (advance-Allowed w s r.slot r.place h.phase allowed.1.0, allowed.1.1));
  }
    where
      r' : Reader
      r' = record r { place = (advance s r.slot r.place).1 }

      slots :
          All (λ (x : Reader). x.slot < nums) before
          × All (λ (x : Reader). x.slot < nums) (r ∷ after)
      slots = All-split (λ (x : Reader). x.slot < nums) before (r ∷ after) h.slots

      allowed :
          All (λ (x : Reader). Allowed w s.left_right x.slot x.place) before
          × All (λ (x : Reader). Allowed w s.left_right x.slot x.place) (r ∷ after)
      allowed =
          All-split (λ (x : Reader). Allowed w s.left_right x.slot x.place) before (r ∷ after)
            h.allowed

  lock_step-Inv :
      (rs : List Reader) (s : Shared A) (f : A → A)
      → Inv nums (record { readers = rs; writer = unlocked; shared = s })
      → Inv nums (record { readers = rs; writer = writing_first s.left_right f; shared = s })
  lock_step-Inv rs s f h = record {
    few = h.few;
    slots = h.slots;
    counts = h.counts;
    phase = (refl, h.phase);
    allowed =
        All-map (λ (x : Reader). Allowed {A = A} unlocked s.left_right x.slot x.place)
          (λ (x : Reader). Allowed (writing_first s.left_right f) s.left_right x.slot x.place)
          (λ x a. same_allowed x.slot x.place a) rs h.allowed;
  }
    where
      same_allowed :
          (slot : ℕ) (p : Place)
          → Allowed {A = A} unlocked s.left_right slot p
          → Allowed (writing_first s.left_right f) s.left_right slot p
      same_allowed slot outside a = tt
      same_allowed slot (loaded vi) a = tt
      same_allowed slot (arrived vi) a = tt
      same_allowed slot (reading vi side) a = a

  write_step-Inv :
      (rs : List Reader) (w : Writer A) (s : Shared A)
      → Inv nums (record { readers = rs; writer = w; shared = s })
      → Inv nums
          (record { readers = rs; writer = (proceed nums s w).1; shared = (proceed nums s w).0 })
  write_step-Inv rs w s h = record {
    few = h.few;
    slots = h.slots;
    counts = λ v k. counters-proceed nums s w v k ∙ h.counts v k;
    phase = proceed-Phase nums w s h.phase;
    allowed =
        All-zip Known (λ (r : Reader). Allowed w s.left_right r.slot r.place)
          (λ (r : Reader).
            Allowed (proceed nums s w).1 (proceed nums s w).0.left_right r.slot r.place)
          (λ r known a. proceed-Allowed nums w s r.slot r.place h.phase known.0 known.1 a) rs
          known_all h.allowed;
  }
    where
      Counted : Reader → Type 0
      Counted r = (v : Bool) → counted v r.slot r.slot r.place ≤ s.counters v r.slot

      Known : Reader → Type 0
      Known r = (r.slot < nums) × Counted r

      known_all : All Known rs
      known_all =
          All-zip (λ (r : Reader). r.slot < nums) Counted Known (λ r b c. (b, c)) rs h.slots
            (each_counted s.counters rs (λ v k. omega (arith, h.counts v k)))

  Step-Inv : {t u : State A} → Step A nums t u → Inv nums t → Inv nums u
  Step-Inv (read_step before after r w s) h = read_step-Inv before after r w s h
  Step-Inv (lock_step rs s f) h = lock_step-Inv rs s f h
  Step-Inv (write_step rs w s) h = write_step-Inv rs w s h

  -- No access ends the invariant: each counter is the number of the readers that have arrived at it, every
  -- reader reads an instance that the writer's phase allows, and the instances differ by the function that is
  -- applied at most.
  pub Reach-Inv : {t u : State A} → Inv nums t → Reach A nums t u → Inv nums u
  Reach-Inv h here = h
  Reach-Inv h (next r step) = Step-Inv step (Reach-Inv h r)

  -- The instance that the writer's next access changes.
  abbrev pub written : Writer A → Option Side
  written unlocked = none
  written (writing_first s f) = some (other s)
  written (storing s f) = none
  written (loading s f) = none
  written (waiting_next s f v k) = none
  written (toggling s f v) = none
  written (waiting_pre s f v k) = none
  written (writing_second s f) = some s

  abbrev pub Apart : Writer A → Place → Type 0
  Apart w outside = Unit {0}
  Apart w (loaded vi) = Unit {0}
  Apart w (arrived vi) = Unit {0}
  Apart w (reading vi side) = written w ≢ some side

  Allowed-Apart :
      (w : Writer A) (lr : Side) (slot : ℕ) (p : Place) → Allowed w lr slot p → Apart w p
  Allowed-Apart w lr slot outside a = tt
  Allowed-Apart w lr slot (loaded vi) a = tt
  Allowed-Apart w lr slot (arrived vi) a = tt
  Allowed-Apart unlocked lr slot (reading vi side) a = λ e. cc
  Allowed-Apart (writing_first left f) lr slot (reading vi side) a = λ e. cc
  Allowed-Apart (writing_first right f) lr slot (reading vi side) a = λ e. cc
  Allowed-Apart (storing s f) lr slot (reading vi side) a = λ e. cc
  Allowed-Apart (loading s f) lr slot (reading vi side) a = λ e. cc
  Allowed-Apart (waiting_next s f v k) lr slot (reading vi side) a = λ e. cc
  Allowed-Apart (toggling s f v) lr slot (reading vi side) a = λ e. cc
  Allowed-Apart (waiting_pre s f v k) lr slot (reading vi side) a = λ e. cc
  Allowed-Apart (writing_second left f) lr slot (reading vi side) a = λ e. cc
  Allowed-Apart (writing_second right f) lr slot (reading vi side) a = λ e. cc

  -- From a state in which the invariant holds, no interleaving of readers and writers leads to one in which
  -- the writer's next access changes an instance that a reader is reading.
  pub Reach-Apart :
      {t u : State A}
      → Inv nums t
      → Reach A nums t u
      → All (λ (r : Reader). Apart u.writer r.place) u.readers
  Reach-Apart {u = u} h r =
      let inv = Reach-Inv h r in
      All-map (λ (x : Reader). Allowed u.writer u.shared.left_right x.slot x.place)
        (λ (x : Reader). Apart u.writer x.place)
        (λ x a. Allowed-Apart u.writer u.shared.left_right x.slot x.place a) u.readers inv.allowed
