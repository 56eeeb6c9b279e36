-- ===== src/LeftRight/Progress.antt =====
-- thread/left_right.h: a writer that meets no reader ends, and both instances have its change.
use cassobee.Base.{ℕ, zero, suc, ◌+◌, ◌*◌, ◌≡◌, refl, ap, ◌∙◌, arith, Bool, not}
use cassobee.LeftRight.{
  Side, left, right, other, Writer, unlocked, writing_first, waiting_next, toggling, waiting_pre,
  writing_second, Shared, proceed, assign, scan,
}

module _ {A : Type 0} (nums : ℕ) where
  -- So many accesses of the writer, one behind the other.
  pub run : ℕ → Shared A × Writer A → Shared A × Writer A
  run zero t = t
  run (suc n) t = run n (proceed nums t.0 t.1)

  run-add : (n m : ℕ) (t : Shared A × Writer A) → run (n + m) t ≡ run m (run n t)
  unfolding run
  run-add zero m t = ap (λ k. run k t) nothing_first
    where
      nothing_first : 0 + m ≡ m
      nothing_first = omega arith
  run-add (suc n) m t = ap (λ k. run k t) next_first ∙ run-add n m (proceed nums t.0 t.1)
    where
      next_first : suc n + m ≡ suc (n + m)
      next_first = omega arith

  module _ (s : Shared A) (f : A → A) (lr : Side) (v : Bool)
      (free : (i : Bool) (k : ℕ) → s.counters i k ≡ 0) where
    scan_next_ends :
        (d k : ℕ) → k + d ≡ nums → run (suc d) (s, waiting_next lr f v k) ≡ (s, toggling lr f v)
    unfolding run proceed
    scan_next_ends zero k h = ground (arith, free (not v) k)
    scan_next_ends (suc d) k h =
        ap (λ w. run (suc d) (s, w)) more ∙ scan_next_ends d (k + 1) (omega arith)
      where
        more :
            scan nums k
              (s.counters (not v) k)
              (waiting_next lr f v 0)
              (waiting_next lr f v (k + 1))
              (toggling lr f v)
            ≡ waiting_next lr f v (k + 1)
        more = ground (arith, free (not v) k)

    scan_pre_ends :
        (d k : ℕ) → k + d ≡ nums → run (suc d) (s, waiting_pre lr f v k) ≡ (s, writing_second lr f)
    unfolding run proceed
    scan_pre_ends zero k h = ground (arith, free v k)
    scan_pre_ends (suc d) k h =
        ap (λ w. run (suc d) (s, w)) more ∙ scan_pre_ends d (k + 1) (omega arith)
      where
        more :
            scan nums k
              (s.counters v k)
              (waiting_pre lr f v 0)
              (waiting_pre lr f v (k + 1))
              (writing_second lr f)
            ≡ waiting_pre lr f v (k + 1)
        more = ground (arith, free v k)

  -- The members when the writer is done.
  abbrev pub changed : Shared A → (A → A) → Shared A
  changed s f = record s {
    version_index = not s.version_index;
    left_right = other s.left_right;
    inst = assign (assign s.inst (other s.left_right) f) s.left_right f;
  }

  -- The accesses of `apply_write`, when all counters are 0.
  write_ends :
      (s : Shared A) (f : A → A)
      → ((i : Bool) (k : ℕ) → s.counters i k ≡ 0)
      → run (3 + (suc nums + (1 + (suc nums + 1)))) (s, writing_first s.left_right f)
        ≡ (changed s f, unlocked)
  unfolding run proceed
  write_ends s f free =
      run-add 3 (suc nums + (1 + (suc nums + 1))) (s, writing_first s.left_right f)
      ∙ run-add (suc nums) (1 + (suc nums + 1))
          (stored, waiting_next s.left_right f s.version_index 0)
      ∙ ap (λ t. run (1 + (suc nums + 1)) t)
          (scan_next_ends stored f s.left_right s.version_index free nums 0 (omega arith))
      ∙ run-add 1 (suc nums + 1) (stored, toggling s.left_right f s.version_index)
      ∙ run-add (suc nums) 1 (toggled, waiting_pre s.left_right f s.version_index 0)
      ∙ ap (λ t. run 1 t)
          (scan_pre_ends toggled f s.left_right s.version_index free nums 0 (omega arith))
    where
      stored : Shared A
      stored = record s {
        left_right = other s.left_right;
        inst = assign s.inst (other s.left_right) f;
      }

      toggled : Shared A
      toggled = record stored { version_index = not s.version_index }

  assign_both :
      (inst : Side → A) (lr : Side) (f : A → A) (side : Side)
      → assign (assign inst (other lr) f) lr f side ≡ f (inst side)
  assign_both inst left f left = refl
  assign_both inst left f right = refl
  assign_both inst right f left = refl
  assign_both inst right f right = refl

  -- While no reader has arrived, `apply_write` ends after 2 * nums + 7 accesses, with the function applied once to
  -- each of the two instances, the readers directed to the other instance and the version index toggled.
  pub apply_write_ends :
      (s : Shared A) (f : A → A)
      → ((i : Bool) (k : ℕ) → s.counters i k ≡ 0)
      → (run (2 * nums + 7) (s, writing_first s.left_right f) ≡ (changed s f, unlocked))
        × ((side : Side) → (changed s f).inst side ≡ f (s.inst side))
  apply_write_ends s f free = (
    ap (λ k. run k (s, writing_first s.left_right f)) count ∙ write_ends s f free,
    λ side. assign_both s.inst s.left_right f side,
  )
    where
      count : 2 * nums + 7 ≡ 3 + (suc nums + (1 + (suc nums + 1)))
      count = omega arith
