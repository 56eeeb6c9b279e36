-- ===== src/LeftRight.antt =====
-- source/bee/thread/left_right.h: one atomic access is one step. A reader and the writer are programs that
-- stop before each access; `Step` lets any of them take its next one. Accesses are sequentially
-- consistent in the model. The counters are those of ri_distributed_counter, by the number of their
-- cache line.
pub mod Count
pub mod Inv
pub mod Access
pub mod Safety
pub mod Progress
mod Tests
use cassobee.Base.{
  ℕ, ◌+◌, ◌==◌, ltb, ◌&&◌, if◌then◌else◌, Bool, true, false, not, List, [], ◌∷◌, ◌++◌, add64, sub64,
}

-- `LEFT_RIGHT`
pub data Side : Type 0 where
  left : Side
  right : Side

abbrev pub other : Side → Side
other left = right
other right = left

-- Where a reader is in `apply_read`; the version index that it has loaded, and the instance that it reads.
pub data Place : Type 0 where
  outside : Place
  loaded : Bool → Place
  arrived : Bool → Place
  reading : Bool → Side → Place

-- `slot` is what `thread_to_idx` gives for the thread.
pub record Reader : Type 0 where
  pub slot : ℕ
  pub place : Place

-- Where the writer that holds the lock is in `apply_write`: the value of `_left_right` that it has
-- loaded, the function, the version index that it has loaded, and the next counter of the scan.
pub data Writer (A : Type 0) : Type 0 where
  unlocked : Writer A
  writing_first : Side → (A → A) → Writer A
  storing : Side → (A → A) → Writer A
  loading : Side → (A → A) → Writer A
  waiting_next : Side → (A → A) → Bool → ℕ → Writer A
  toggling : Side → (A → A) → Bool → Writer A
  waiting_pre : Side → (A → A) → Bool → ℕ → Writer A
  writing_second : Side → (A → A) → Writer A

-- The members of `left_right`.
pub record Shared (A : Type 0) : Type 0 where
  pub counters : Bool → ℕ → ℕ
  pub version_index : Bool
  pub left_right : Side
  pub inst : Side → A

-- One counter of one of the two indicators is changed.
abbrev pub change : (Bool → ℕ → ℕ) → Bool → ℕ → (ℕ → ℕ) → Bool → ℕ → ℕ
change counters false k f false j = if k == j then f (counters false j) else counters false j
change counters false k f true j = counters true j
change counters true k f false j = counters false j
change counters true k f true j = if k == j then f (counters true j) else counters true j

abbrev pub assign : {A : Type 0} → (Side → A) → Side → (A → A) → Side → A
assign inst left f left = f (inst left)
assign inst left f right = inst right
assign inst right f left = inst left
assign inst right f right = f (inst right)

module _ {A : Type 0} where
  -- `arrive`, the choice of the instance, and `depart`.
  unfoldable pub advance : Shared A → ℕ → Place → Shared A × Place
  advance s slot outside = (s, loaded s.version_index)
  advance s slot (loaded vi) =
      (record s { counters = change s.counters vi slot (λ c. add64 c 1) }, arrived vi)
  advance s slot (arrived vi) = (s, reading vi s.left_right)
  advance s slot (reading vi side) =
      (record s { counters = change s.counters vi slot (λ c. sub64 c 1) }, outside)

  -- A round of `is_empty`: a counter above 0 starts the scan again, the end of the scan ends the wait.
  abbrev pub scan : ℕ → ℕ → ℕ → Writer A → Writer A → Writer A → Writer A
  scan nums k counter again next done =
      if ltb k nums then (if ltb 0 counter then again else next) else done

  -- The writer's next access. `nums` is `_counters_nums`.
  unfoldable pub proceed : ℕ → Shared A → Writer A → Shared A × Writer A
  proceed nums s unlocked = (s, unlocked)
  proceed nums s (writing_first lr f) =
      (record s { inst = assign s.inst (other lr) f }, storing lr f)
  proceed nums s (storing lr f) = (record s { left_right = other lr }, loading lr f)
  proceed nums s (loading lr f) = (s, waiting_next lr f s.version_index 0)
  proceed nums s (waiting_next lr f vi k) = (
    s,
    scan nums k (s.counters (not vi) k) (waiting_next lr f vi 0) (waiting_next lr f vi (k + 1))
        (toggling lr f vi),
  )
  proceed nums s (toggling lr f vi) = (record s { version_index = not vi }, waiting_pre lr f vi 0)
  proceed nums s (waiting_pre lr f vi k) = (
    s,
    scan nums k (s.counters vi k) (waiting_pre lr f vi 0) (waiting_pre lr f vi (k + 1))
        (writing_second lr f),
  )
  proceed nums s (writing_second lr f) = (record s { inst = assign s.inst lr f }, unlocked)

pub record State (A : Type 0) : Type 0 where
  pub readers : List Reader
  pub writer : Writer A
  pub shared : Shared A

-- A call of `apply_write` that gets the lock loads `_left_right`.
pub data Step (A : Type 0) (nums : ℕ) : State A → State A → Type 0 where
  read_step :
      (before after : List Reader) (r : Reader) (w : Writer A) (s : Shared A)
      → Step A nums
          (record { readers = before ++ (r ∷ after); writer = w; shared = s })
          (record {
            readers = before ++ (record r { place = (advance s r.slot r.place).1 } ∷ after);
            writer = w;
            shared = (advance s r.slot r.place).0;
          })
  lock_step :
      (rs : List Reader) (s : Shared A) (f : A → A)
      → Step A nums
          (record { readers = rs; writer = unlocked; shared = s })
          (record { readers = rs; writer = writing_first s.left_right f; shared = s })
  write_step :
      (rs : List Reader) (w : Writer A) (s : Shared A)
      → Step A nums
          (record { readers = rs; writer = w; shared = s })
          (record { readers = rs; writer = (proceed nums s w).1; shared = (proceed nums s w).0 })

pub data Reach (A : Type 0) (nums : ℕ) (start : State A) : State A → Type 0 where
  here : Reach A nums start start
  next : {t u : State A} → Reach A nums start t → Step A nums t u → Reach A nums start u
