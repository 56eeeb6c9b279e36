-- ===== src/Shaper/Rate.antt =====
-- How many bytes the token bucket of source/bee/io/traffic_shaper.h lets through in any run of calls.
use cassobee.Base.{
  ℕ, ◌+◌, ◌-◌, ◌*◌, ◌/◌, ◌≡◌, ◌≤◌, ◌<◌, ap, refl, arith, leb, Bool, true, false, List, [], ◌∷◌,
  word, sub64, Bool-cases, inl, inr,
}
use mathlib.Core.Path.{ap₂}
use cassobee.Shaper.{Shaper, fill, acquire}

-- A call at a time, for so many bytes.
abbrev pub Call : Type 0
Call = ℕ × ℕ

-- The bytes of a call that is granted.
abbrev pub granted : Bool → ℕ → ℕ
granted true bytes = bytes
granted false bytes = 0

-- The bytes that a run of calls lets through, and the bucket afterwards.
pub run : List Call → Shaper → ℕ × Shaper
run [] s = (0, s)
run ((now, bytes) ∷ calls) s =
    let (ok, s') = acquire now bytes s in
    let (total, end) = run calls s' in (granted ok bytes + total, end)

-- The times do not fall, from a time on.
abbrev pub IsOrdered : ℕ → List Call → Type 0
IsOrdered t [] = Unit {0}
IsOrdered t ((now, bytes) ∷ calls) = (t ≤ now) × (now < word) × IsOrdered now calls

abbrev pub rate : Shaper → ℕ
rate s = s.capacity / 1000

module _ (now bytes : ℕ) (s : Shaper) (after : s.last_fill ≤ now) (low : now < word) where
  fill-le : (fill now s).tokens ≤ s.tokens + (now - s.last_fill) * rate s
  unfolding fill
  fill-le =
      let same : sub64 now s.last_fill ≡ now - s.last_fill = omega arith in rw same (omega arith)

  acquire-le :
      (granted (acquire now bytes s).0 bytes + (acquire now bytes s).1.tokens
        ≤ s.tokens + (now - s.last_fill) * rate s)
      × ((acquire now bytes s).1.last_fill ≡ now)
      × ((acquire now bytes s).1.capacity ≡ s.capacity)
  unfolding acquire
  acquire-le =
      let f : Shaper = fill now s in
      let time : f.last_fill ≡ now = unfold fill in refl in
      let size : f.capacity ≡ s.capacity = unfold fill in refl in
      elim (Bool-cases (leb bytes f.tokens)) [
        | inl enough ↦ rw enough (ground (arith, fill-le), time, size)
        | inr short ↦ rw short (omega (arith, fill-le), time, size)
      ]

-- The clock of the bucket does not go back.
run-later :
    (calls : List Call) (s : Shaper)
    → IsOrdered s.last_fill calls
    → s.last_fill ≤ (run calls s).1.last_fill
unfolding run
run-later [] s h = omega arith
run-later ((now, bytes) ∷ calls) s (after, low, later) =
    let (granted_le, time, same) = acquire-le now bytes s after low in
    omega (arith, after, time, run-later calls (acquire now bytes s).1 (rw time later))

one_more :
    (before now end r g total tokens left tokens' : ℕ)
    → before ≤ now
    → now ≤ end
    → g + tokens' ≤ tokens + (now - before) * r
    → total + left ≤ tokens' + (end - now) * r
    → g + total + left ≤ tokens + (end - before) * r
one_more before now end r g total tokens left tokens' p q h k =
    let span : (end - before) * r ≡ ((end - now) + (now - before)) * r =
      ap (λ (t : ℕ). t * r) (omega arith) in
    omega (arith, span, h, k)

-- For any calls whose times do not fall and stay below 2 ^ 64, the bytes that are let through and
-- the tokens that are left are together at most the tokens at first and, for each millisecond
-- since, a thousandth of the capacity, rounded down.
pub run-le :
    (calls : List Call) (s : Shaper)
    → IsOrdered s.last_fill calls
    → (run calls s).0 + (run calls s).1.tokens
      ≤ s.tokens + ((run calls s).1.last_fill - s.last_fill) * rate s
unfolding run
run-le [] s h = omega arith
run-le ((now, bytes) ∷ calls) s (after, low, later) =
    let s' : Shaper = (acquire now bytes s).1 in
    let (granted_le, time, same) = acquire-le now bytes s after low in
    let rest = run-le calls s' (rw time later) in
    one_more s.last_fill now (run calls s').1.last_fill (rate s)
      (granted (acquire now bytes s).0 bytes) (run calls s').0 s.tokens (run calls s').1.tokens
      s'.tokens after (omega (arith, time, run-later calls s' (rw time later))) granted_le
      (kept s' time same rest)
  where
    kept :
        (a : Shaper)
        → a.last_fill ≡ now
        → a.capacity ≡ s.capacity
        → (run calls a).0 + (run calls a).1.tokens
          ≤ a.tokens + ((run calls a).1.last_fill - a.last_fill) * rate a
        → (run calls a).0 + (run calls a).1.tokens
          ≤ a.tokens + ((run calls a).1.last_fill - now) * rate s
    kept a time same h =
        omega (arith, h, ap₂ (λ (t c : ℕ). ((run calls a).1.last_fill - t) * (c / 1000)) time same)
