-- ===== src/LeftRight/Tests.antt =====
-- thread/left_right.h with two readers and one counter line.
use cassobee.Base.{ℕ, ◌+◌, ◌*◌, ◌≡◌, refl, false, [], ◌∷◌, All, arith}
use cassobee.LeftRight.{
  Side, left, outside, loaded, Reader, unlocked, writing_first, Shared, State, advance, read_step,
  lock_step, Reach, here, next,
}
use cassobee.LeftRight.Count.{count}
use cassobee.LeftRight.Inv.{Inv}
use cassobee.LeftRight.Safety.{Apart, Reach-Apart}
use cassobee.LeftRight.Progress.{run, changed, apply_write_ends}

abbrev fresh : Shared ℕ
fresh = record { counters = λ v k. 0; version_index = false; left_right = left; inst = λ side. 5 }

abbrev reader : Reader
reader = record { slot = 0; place = outside }

abbrev start : State ℕ
start = record { readers = reader ∷ reader ∷ []; writer = unlocked; shared = fresh }

start-Inv : Inv 1 start
unfolding count
start-Inv = record {
  few = omega arith;
  slots = (omega arith, (omega arith, tt));
  counts = λ v k. refl;
  phase = refl;
  allowed = (tt, (tt, tt));
}

-- The first reader has loaded the version index, and a writer has the lock.
abbrev written_to : State ℕ
written_to = record {
  readers = record reader { place = loaded false } ∷ reader ∷ [];
  writer = writing_first left (λ n. n + 1);
  shared = fresh;
}

start-Reach : Reach ℕ 1 start written_to
unfolding advance
start-Reach =
    next (next here (read_step [] (reader ∷ []) reader unlocked fresh))
      (lock_step (record reader { place = loaded false } ∷ reader ∷ []) fresh (λ n. n + 1))

Reach-Apart_example : All (λ (r : Reader). Apart 1 written_to.writer r.place) written_to.readers
Reach-Apart_example = Reach-Apart 1 start-Inv start-Reach

apply_write_ends_example :
    (run 1 (2 * 1 + 7) (fresh, writing_first left (λ n. n + 1))
      ≡ (changed 1 fresh (λ n. n + 1), unlocked))
    × ((side : Side) → (changed 1 fresh (λ n. n + 1)).inst side ≡ 5 + 1)
apply_write_ends_example = apply_write_ends 1 fresh (λ n. n + 1) (λ i k. refl)
