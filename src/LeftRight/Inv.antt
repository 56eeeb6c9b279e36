-- ===== src/LeftRight/Inv.antt =====
-- thread/left_right.h: what holds between any two accesses.
use cassobee.Base.{ℕ, ◌≤◌, ◌<◌, ◌^◌, ◌≡◌, ◌⊎◌, Bool, length, All}
use cassobee.LeftRight.{
  Side, left, right, other, Place, outside, loaded, arrived, reading, Reader, Writer, unlocked,
  writing_first, storing, loading, waiting_next, toggling, waiting_pre, writing_second, State,
}
use cassobee.LeftRight.Count.{count}

module _ {A : Type 0} where
  -- Which instance a reader can be reading, by where the writer is. A scan has seen the counters
  -- before `k` at 0.
  abbrev pub Allowed : Writer A → Side → ℕ → Place → Type 0
  Allowed w lr slot outside = Unit {0}
  Allowed w lr slot (loaded vi) = Unit {0}
  Allowed w lr slot (arrived vi) = Unit {0}
  Allowed unlocked lr slot (reading vi side) = side ≡ lr
  Allowed (writing_first s f) lr slot (reading vi side) = side ≡ s
  Allowed (storing s f) lr slot (reading vi side) = side ≡ s
  Allowed (loading s f) lr slot (reading vi side) = Unit {0}
  Allowed (waiting_next s f v k) lr slot (reading vi side) =
      (side ≡ other s) ⊎ ((vi ≡ v) ⊎ (k ≤ slot))
  Allowed (toggling s f v) lr slot (reading vi side) = (side ≡ other s) ⊎ (vi ≡ v)
  Allowed (waiting_pre s f v k) lr slot (reading vi side) =
      (side ≡ other s) ⊎ ((vi ≡ v) × (k ≤ slot))
  Allowed (writing_second s f) lr slot (reading vi side) = side ≡ other s

  -- What the writer knows of `_left_right` and of the two instances.
  abbrev pub Phase : Writer A → Side → (Side → A) → Type 0
  Phase unlocked lr inst = inst left ≡ inst right
  Phase (writing_first s f) lr inst = (lr ≡ s) × (inst left ≡ inst right)
  Phase (storing s f) lr inst = (lr ≡ s) × (inst (other s) ≡ f (inst s))
  Phase (loading s f) lr inst = (lr ≡ other s) × (inst (other s) ≡ f (inst s))
  Phase (waiting_next s f v k) lr inst = (lr ≡ other s) × (inst (other s) ≡ f (inst s))
  Phase (toggling s f v) lr inst = (lr ≡ other s) × (inst (other s) ≡ f (inst s))
  Phase (waiting_pre s f v k) lr inst = (lr ≡ other s) × (inst (other s) ≡ f (inst s))
  Phase (writing_second s f) lr inst = (lr ≡ other s) × (inst (other s) ≡ f (inst s))

  pub record Inv (nums : ℕ) (st : State A) : Type 0 where
    pub few : length st.readers < 2 ^ 64
    pub slots : All (λ (r : Reader). r.slot < nums) st.readers
    pub counts : (v : Bool) (k : ℕ) → st.shared.counters v k ≡ count v k st.readers
    pub phase : Phase st.writer st.shared.left_right st.shared.inst
    pub allowed :
        All (λ (r : Reader). Allowed st.writer st.shared.left_right r.slot r.place) st.readers
