-- ===== src/Varint/Size.antt =====
-- The size table of source/bee/common/varint.h against the bytes that `write_varint` writes.
use cassobee.Base.{
  ℕ, zero, suc, ◌+◌, ◌-◌, ◌*◌, ◌/◌, ◌^◌, ◌<◌, ◌≤◌, ◌≡◌, arith, ltb, ◌==◌, [], length, word, refl,
  max, Bool, true, false, ==_iff, Bool-cases, inl, inr, ltb→lt, get_or, holds_below,
  holds_below_sound,
}
use cassobee.Varint.{
  write_varint, countl_zero, bit_length, compact_int_size_table, get_compact_int_size,
}
use cassobee.Varint.Write.{groups, write_varint-groups, length-groups}
use native.Mathlib.Decide.{dec_le}
use native.Mathlib.Nat.{pow-suc, one-le-pow, pow-le-pow_right}

-- `bit_length` of a value of w bits, w at most 64: the value lies between two powers of two.
pub record IsBitLength (v b : ℕ) : Type 0 where
  pub above : v < 2 ^ b
  pub below : 2 ^ b ≤ 2 * v + 1

longest : (w v : ℕ) → v < 2 ^ suc w → ltb v (2 ^ w) ≡ false → IsBitLength v (suc w - 0)
longest w v h high =
    let same : suc w - 0 ≡ suc w = omega arith in
    rw same (record { above = h; below = ground (arith, pow-suc 2 w) })

shorter :
    (w v : ℕ)
    → IsBitLength v (w - countl_zero w v) × (countl_zero w v ≤ w)
    → IsBitLength v (suc w - suc (countl_zero w v)) × (suc (countl_zero w v) ≤ suc w)
shorter w v (b, le) =
    let same : suc w - suc (countl_zero w v) ≡ w - countl_zero w v = omega arith in
    rw same (b, omega arith)

countl_zero-IsBitLength :
    (w v : ℕ) → v < 2 ^ w → IsBitLength v (w - countl_zero w v) × (countl_zero w v ≤ w)
unfolding countl_zero
countl_zero-IsBitLength zero v h = omega arith
countl_zero-IsBitLength (suc w) v h = elim (Bool-cases (ltb v (2 ^ w))) [
  | inl low ↦ rw low (shorter w v (countl_zero-IsBitLength w v (ltb→lt v (2 ^ w) low)))
  | inr high ↦ rw high (longest w v h high, omega arith)
]

-- Every entry of the table is the number of bits, divided by eight, plus one.
table_entry : (b : ℕ) → b < 65 → get_or compact_int_size_table b 0 ≡ b / 8 + 1
table_entry b h = (==_iff _ _).0 (holds_below_sound 65 test b tested h)
  where
    test : ℕ → Bool
    test b = get_or compact_int_size_table b 0 == b / 8 + 1

    tested : holds_below 65 test ≡ true
    tested = unfold holds_below in refl

-- A value has more than j groups exactly if it is not below 128 ^ j.
length-groups-le : (k j v : ℕ) → v < 128 ^ suc j → length (groups k v) ≤ suc j
unfolding groups
length-groups-le zero j v h = omega arith
length-groups-le (suc k) zero v h = ground arith
length-groups-le (suc k) (suc j) v h = ground (
  arith,
  pow-suc 128 (suc j),
  length-groups-le k j (v / 128) (omega (arith, pow-suc 128 (suc j))),
)

length-groups-gt : (k j v : ℕ) → j ≤ k → 128 ^ j ≤ v → j < length (groups k v)
unfolding groups
length-groups-gt k zero v hj h = omega (arith, length-groups k v)
length-groups-gt zero (suc j) v hj h = absurd (omega arith)
length-groups-gt (suc k) (suc j) v hj h = ground (
  arith,
  pow-suc 128 j,
  one-le-pow j 128,
  length-groups-gt k j (v / 128) (omega arith) (omega (arith, pow-suc 128 j)),
)

pub bit_length-IsBitLength :
    (v : ℕ) → v < word → IsBitLength v (bit_length 64 v) × (bit_length 64 v ≤ 64)
unfolding bit_length
bit_length-IsBitLength v h = elim (Bool-cases (v == 0)) [
  | inl nil ↦ rw nil (record { above = ground arith; below = ground arith }, omega arith)
  | inr pos ↦ rw pos ((countl_zero-IsBitLength 64 v h).0, omega arith)
]

pow_128 : (j : ℕ) → 128 ^ j ≡ 2 ^ (7 * j)
pow_128 zero = refl
pow_128 (suc j) =
    let next : 7 * suc j ≡ suc (suc (suc (suc (suc (suc (suc (7 * j))))))) = omega arith in
    rw next (simp pow-suc (omega (arith, pow_128 j)))

length-groups_bits :
    (v b : ℕ) → IsBitLength v (suc b) → suc b ≤ 64 → length (groups 9 v) ≡ b / 7 + 1
length-groups_bits v b bits h =
    let q : ℕ = b / 7 in
    let hi : v < 128 ^ suc q = omega (
      arith,
      bits.above,
      pow_128 (suc q),
      pow-le-pow_right {n = 2} (omega arith) {i = suc b} {j = 7 * suc q} (omega arith),
    ) in
    let lo : 128 ^ q ≤ v = omega (
      arith,
      bits.below,
      pow-suc 2 b,
      pow_128 q,
      pow-le-pow_right {n = 2} (omega arith) {i = 7 * q} {j = b} (omega arith),
    ) in
    omega (arith, length-groups-le 9 q v hi, length-groups-gt 9 q v (omega arith) lo)

length_written : (v b : ℕ) → IsBitLength v b → b ≤ 64 → length (groups 9 v) ≡ max 1 ((b + 6) / 7)
length_written v zero bits h =
    omega (arith, length-groups 9 v, length-groups-le 9 0 v (ground arith))
length_written v (suc b) bits h = omega (arith, length-groups_bits v b bits h)

-- For every 64-bit number `get_compact_int_size` answers an eighth of the bit length, rounded
-- down, and one, while `write_varint` writes a seventh of the bit length, rounded up, and at least
-- one byte.
pub size_and_length :
    (v : ℕ)
    → v < word
    → (get_compact_int_size 64 v ≡ bit_length 64 v / 8 + 1)
      × (length (write_varint v []) ≡ max 1 ((bit_length 64 v + 6) / 7))
unfolding get_compact_int_size
size_and_length v h =
    let (bits, le) = bit_length-IsBitLength v h in
    (
      table_entry (bit_length 64 v) (omega arith),
      rw (write_varint-groups v [] h) (length_written v _ bits le),
    )

bits-le : (v b k : ℕ) → IsBitLength v b → v < 2 ^ k → b ≤ k
bits-le v b k bits h = elim (dec_le b k) [
  | yes le ↦ le
  | no gt ↦ absurd (
      omega (
        arith,
        bits.below,
        pow-suc 2 k,
        pow-le-pow_right {n = 2} (omega arith) {i = suc k} {j = b} (omega arith),
      ))
]

bits-gt : (v b k : ℕ) → IsBitLength v b → 2 ^ k ≤ v → k < b
bits-gt v b k bits h = elim (dec_le b k) [
  | yes le ↦
      absurd (omega (arith, bits.above, pow-le-pow_right {n = 2} (omega arith) {i = b} {j = k} le))
  | no gt ↦ omega arith
]

-- The table never announces more bytes than `write_varint` writes. It announces as many below
-- 2 ^ 14, and from there up to 2 ^ 15 two bytes where three are written.
pub compact_size :
    (v : ℕ)
    → v < word
    → (get_compact_int_size 64 v ≤ length (write_varint v []))
      × (v < 2 ^ 14 → get_compact_int_size 64 v ≡ length (write_varint v []))
      × (2 ^ 14 ≤ v
          → v < 2 ^ 15
          → (get_compact_int_size 64 v ≡ 2) × (length (write_varint v []) ≡ 3))
compact_size v h =
    let (size, written) = size_and_length v h in
    let (bits, le) = bit_length-IsBitLength v h in
    let b = bit_length 64 v in
    (
      omega arith,
      (λ small. omega (arith, bits-le v b 14 bits small)),
      (λ lo hi. omega (arith, bits-gt v b 14 bits lo, bits-le v b 15 bits hi)),
    )

-- The range of the table, and two values of it.
pub compact_size_range :
    (v : ℕ) → v < word → (1 ≤ get_compact_int_size 64 v) × (get_compact_int_size 64 v ≤ 9)
compact_size_range v h =
    let (size, written) = size_and_length v h in
    let (bits, le) = bit_length-IsBitLength v h in omega arith

pub compact_size_2048 : get_compact_int_size 64 2048 ≡ 2
unfolding get_compact_int_size bit_length countl_zero
compact_size_2048 = refl
