-- ===== src/LeftRight/Count.antt =====
-- thread/left_right.h: a counter is the number of its readers that have arrived and not departed.
use cassobee.Base.{
  ℕ, ◌+◌, ◌≤◌, ◌<◌, ◌^◌, ◌≡◌, arith, ◌==◌, ◌&&◌, if◌then◌else◌, Bool, true, false, not, List, [],
  ◌∷◌, ◌++◌, length,
}
use cassobee.LeftRight.{Place, outside, loaded, arrived, reading, Reader, Shared, advance}

abbrev pub same : Bool → Bool → Bool
same true b = b
same false b = not b

-- 1 for a reader that is counted at an indicator's counter.
abbrev pub counted : Bool → ℕ → ℕ → Place → ℕ
counted v k slot outside = 0
counted v k slot (loaded vi) = 0
counted v k slot (arrived vi) = if same v vi && slot == k then 1 else 0
counted v k slot (reading vi side) = if same v vi && slot == k then 1 else 0

unfoldable pub count : Bool → ℕ → List Reader → ℕ
count v k [] = 0
count v k (r ∷ rs) = counted v k r.slot r.place + count v k rs

pub count-append :
    (v : Bool) (k : ℕ) (xs ys : List Reader) → count v k (xs ++ ys) ≡ count v k xs + count v k ys
unfolding count
count-append v k [] ys = omega arith
count-append v k (x ∷ xs) ys = omega (arith, count-append v k xs ys)

pub count-le-length : (v : Bool) (k : ℕ) (xs : List Reader) → count v k xs ≤ length xs
unfolding count
count-le-length v k [] = omega arith
count-le-length v k (x ∷ xs) = omega (arith, count-le-length v k xs, counted-le (x.place))
  where
    counted-le : (p : Place) → counted v k x.slot p ≤ 1
    counted-le outside = omega arith
    counted-le (loaded vi) = omega arith
    counted-le (arrived vi) = ground arith
    counted-le (reading vi side) = ground arith

module _ (A : Type 0) where
  -- What a reader's step does to a counter, with the reader counted in it before and after.
  pub advance_counts :
      (s : Shared A) (slot : ℕ) (p : Place) (v : Bool) (k others : ℕ)
      → s.counters v k ≡ counted v k slot p + others
      → others + 1 < 2 ^ 64
      → (advance s slot p).0.counters v k ≡ counted v k slot (advance s slot p).1 + others
  unfolding advance
  advance_counts s slot outside v k others h q = h
  advance_counts s slot (loaded true) true k others h q = ground arith
  advance_counts s slot (loaded true) false k others h q = ground arith
  advance_counts s slot (loaded false) true k others h q = ground arith
  advance_counts s slot (loaded false) false k others h q = ground arith
  advance_counts s slot (arrived vi) v k others h q = h
  advance_counts s slot (reading true side) true k others h q = ground arith
  advance_counts s slot (reading true side) false k others h q = ground arith
  advance_counts s slot (reading false side) true k others h q = ground arith
  advance_counts s slot (reading false side) false k others h q = ground arith
