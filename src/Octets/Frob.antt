-- ===== src/Octets/Frob.antt =====
-- `frob_size` of source/bee/common/octets.h: the capacity that a request is rounded up to.
use cassobee.Base.{
  ℕ, zero, suc, ◌*◌, ◌-◌, min, ◌/◌, ◌^◌, ◌≡◌, ◌≤◌, ◌<◌, ltb, ◌==◌, if◌then◌else◌, none, some, arith,
  add64, lt→ltb,
}
use cassobee.Base.Bits.{bit_or-lt, le-bit_or}
use native.Mathlib.Nat.{div-le_self}
use cassobee.Octets.{smear, fill_ones, frob_size}

record Grows (n r : ℕ) : Type 0 where
  least : n ≤ r
  bound : r < 2 ^ 63

smear-Grows : (n r k : ℕ) → Grows n r → Grows n (smear r k)
unfolding smear
smear-Grows n r k g = record {
  least = omega (arith, g.least, le-bit_or 63 r (r / 2 ^ k) g.bound);
  bound = bit_or-lt 63 r (r / 2 ^ k) g.bound (omega (arith, div-le_self r (2 ^ k), g.bound));
}

fill_ones-Grows : (n : ℕ) → n < 2 ^ 63 → Grows n (fill_ones n)
unfolding fill_ones
fill_ones-Grows n h = smear-Grows n _ 32 (
    smear-Grows n _ 16 (
      smear-Grows n _ 8 (
        smear-Grows n _ 4
          (smear-Grows n _ 2 (smear-Grows n n 1 (record { least = omega arith; bound = h }))))))

-- The size that is returned where nothing is thrown.
unfoldable pub rounded : ℕ → ℕ
rounded n =
    if n == 0 then 1 else let size = add64 (fill_ones (n - 1)) 1 in if ltb size 16 then 16 else size

rounded_bounds :
    (n : ℕ) → n ≤ 2 ^ 63 → (n ≤ rounded n) × (rounded n ≤ 2 ^ 63) × (0 < n → 16 ≤ rounded n)
unfolding rounded
rounded_bounds zero h = omega arith
rounded_bounds (suc n) h =
    let same : suc n - 1 ≡ n = omega arith in ground (arith, same, fill_ones-Grows n (omega arith))

-- Up to 2 ^ 63 `frob_size` throws nothing. Its result holds the request, does not exceed 2 ^ 63,
-- and is at least 16 for any request but 0.
pub frob_size_lem :
    (n : ℕ)
    → n ≤ 2 ^ 63
    → (frob_size n ≡ some (rounded n))
      × (n ≤ rounded n)
      × (rounded n ≤ 2 ^ 63)
      × (16 * min n 1 ≤ rounded n)
unfolding frob_size
frob_size_lem n h =
    let (lo, hi, least) = rounded_bounds n h in
    (unfold rounded in ground arith, lo, hi, ground (arith, least))

pub frob_size_throws : (n : ℕ) → 2 ^ 63 < n → frob_size n ≡ none
unfolding frob_size
frob_size_throws n h = rw (lt→ltb _ _ h)
