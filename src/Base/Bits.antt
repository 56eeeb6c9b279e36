-- ===== src/Base/Bits.antt =====
-- Bit operations as arithmetic, at every width: one equation for the lowest digit of each, then
-- inductions on the number of digits.
use Prim.Native.Nat.{ℕ, zero, suc, ◌+◌, ◌-◌, ◌*◌, ◌/◌, ◌%◌, ◌^◌, ◌≤◌, ◌<◌, min, max}
use Prim.Native.Nat.{bit_and, bit_or, bit_xor, digits, bitwise, differ}
use Prim.Native.Nat.{bit_and-bitwise, bit_or-bitwise, bit_xor-bitwise}
use mathlib.Core.Path.{◌≡◌, refl, ap}
use native.Mathlib.Nat.{pow-suc, one-le-pow}
use native.Mathlib.Omega.{arith}

module _ (z : ℕ → ℕ) (f : ℕ → ℕ → ℕ) where
  -- Any fuel that the first operand does not exceed gives the same digits.
  digits_enough : (n m a b : ℕ) → a ≤ n → a ≤ m → digits z f n a b ≡ digits z f m a b
  digits_enough zero zero a b p q = refl
  digits_enough zero (suc m) zero b p q = refl
  digits_enough zero (suc m) (suc a) b p q = absurd (omega arith)
  digits_enough (suc n) zero zero b p q = refl
  digits_enough (suc n) zero (suc a) b p q = absurd (omega arith)
  digits_enough (suc n) (suc m) zero b p q = refl
  digits_enough (suc n) (suc m) (suc a) b p q =
      ap (λ (t : ℕ). t * 2 + f (suc a % 2) (b % 2))
        (digits_enough n m (suc a / 2) (b / 2) (omega arith) (omega arith))

  bitwise_step :
      (a b : ℕ)
      → bitwise z f (suc a) b ≡ bitwise z f (suc a / 2) (b / 2) * 2 + f (suc a % 2) (b % 2)
  bitwise_step a b =
      ap (λ (t : ℕ). t * 2 + f (suc a % 2) (b % 2))
        (digits_enough a (suc a / 2) (suc a / 2) (b / 2) (omega arith) (omega arith))

bit_or_step : (a b : ℕ) → bit_or a b ≡ bit_or (a / 2) (b / 2) * 2 + max (a % 2) (b % 2)
bit_or_step zero b = omega (arith, bit_or-bitwise zero b, bit_or-bitwise zero (b / 2))
bit_or_step (suc a) b = omega (
  arith,
  bit_or-bitwise (suc a) b,
  bit_or-bitwise (suc a / 2) (b / 2),
  bitwise_step (λ y. y) max a b,
)

bit_and_step : (a b : ℕ) → bit_and a b ≡ bit_and (a / 2) (b / 2) * 2 + min (a % 2) (b % 2)
bit_and_step zero b = omega (arith, bit_and-bitwise zero b, bit_and-bitwise zero (b / 2))
bit_and_step (suc a) b = omega (
  arith,
  bit_and-bitwise (suc a) b,
  bit_and-bitwise (suc a / 2) (b / 2),
  bitwise_step (λ y. 0) min a b,
)

bit_or_nil : (b : ℕ) → bit_or 0 b ≡ b
bit_or_nil b = bit_or-bitwise 0 b

bit_and_nil : (b : ℕ) → bit_and 0 b ≡ 0
bit_and_nil b = bit_and-bitwise 0 b

two_pow : (k : ℕ) → 2 ^ suc k ≡ 2 ^ k * 2
two_pow k = pow-suc 2 k

-- An or stays below a power of two, and is at least either operand.
pub bit_or-lt : (k a b : ℕ) → a < 2 ^ k → b < 2 ^ k → bit_or a b < 2 ^ k
bit_or-lt zero a b ha hb =
    let a0 : a ≡ 0 = omega arith in ground (arith, ap (λ (t : ℕ). bit_or t b) a0, bit_or_nil b)
bit_or-lt (suc k) a b ha hb = omega (
  arith,
  two_pow k,
  bit_or_step a b,
  bit_or-lt k (a / 2) (b / 2) (omega (arith, two_pow k)) (omega (arith, two_pow k)),
)

pub le-bit_or : (k a b : ℕ) → a < 2 ^ k → a ≤ bit_or a b
le-bit_or zero a b ha = omega arith
le-bit_or (suc k) a b ha =
    omega (arith, bit_or_step a b, le-bit_or k (a / 2) (b / 2) (omega (arith, two_pow k)))

-- The or of two fields that do not meet is their sum.
pub bit_or_fields : (k a b : ℕ) → a < 2 ^ k → bit_or a (b * 2 ^ k) ≡ a + b * 2 ^ k
bit_or_fields zero a b ha =
    let a0 : a ≡ 0 = omega arith in
    ground (arith, ap (λ (t : ℕ). bit_or t (b * 1)) a0, bit_or_nil (b * 1))
bit_or_fields (suc k) a b ha =
    let shifted : b * 2 ^ suc k ≡ b * 2 ^ k * 2 =
      omega (arith, ap (λ (t : ℕ). b * t) (two_pow k)) in
    ground (
      arith,
      shifted,
      bit_or_step a (b * 2 ^ suc k),
      bit_or_fields k (a / 2) b (omega (arith, two_pow k)),
    )

bit_and-zero : (n a : ℕ) → a ≤ n → bit_and a 0 ≡ 0
bit_and-zero n zero h = bit_and_nil 0
bit_and-zero zero (suc a) h = absurd (omega arith)
bit_and-zero (suc n) (suc a) h =
    omega (arith, bit_and_step (suc a) 0, bit_and-zero n (suc a / 2) (omega arith))

bit_and-one : (a : ℕ) → bit_and a 1 ≡ a % 2
bit_and-one a = omega (arith, bit_and_step a 1, bit_and-zero (a / 2) (a / 2) (omega arith))

bit_and-seven : (a : ℕ) → bit_and a 7 ≡ a % 8
bit_and-seven a = omega (arith, bit_and_step a 7, bit_and_step (a / 2) 3, bit_and-one (a / 2 / 2))

bit_and-fifteen : (a : ℕ) → bit_and a 15 ≡ a % 16
bit_and-fifteen a = omega (arith, bit_and_step a 15, bit_and-seven (a / 2))

bit_and-thirty_one : (a : ℕ) → bit_and a 31 ≡ a % 32
bit_and-thirty_one a = omega (arith, bit_and_step a 31, bit_and-fifteen (a / 2))

bit_and-sixty_three : (a : ℕ) → bit_and a 63 ≡ a % 64
bit_and-sixty_three a = omega (arith, bit_and_step a 63, bit_and-thirty_one (a / 2))

-- The mask of the seven low bits is a remainder.
pub low_seven : (a : ℕ) → bit_and a 0x7f ≡ a % 128
low_seven a = omega (arith, bit_and_step a 127, bit_and-sixty_three (a / 2))

bit_one : (a : ℕ) → bit_and a 2 ≡ a / 2 % 2 * 2
bit_one a = omega (arith, bit_and_step a 2, bit_and-one (a / 2))

bit_two : (a : ℕ) → bit_and a 4 ≡ a / 4 % 2 * 4
bit_two a = omega (arith, bit_and_step a 4, bit_one (a / 2))

bit_three : (a : ℕ) → bit_and a 8 ≡ a / 8 % 2 * 8
bit_three a = omega (arith, bit_and_step a 8, bit_two (a / 2))

bit_four : (a : ℕ) → bit_and a 16 ≡ a / 16 % 2 * 16
bit_four a = omega (arith, bit_and_step a 16, bit_three (a / 2))

bit_five : (a : ℕ) → bit_and a 32 ≡ a / 32 % 2 * 32
bit_five a = omega (arith, bit_and_step a 32, bit_four (a / 2))

bit_six : (a : ℕ) → bit_and a 64 ≡ a / 64 % 2 * 64
bit_six a = omega (arith, bit_and_step a 64, bit_five (a / 2))

-- The mask of bit 7.
pub bit_seven : (a : ℕ) → bit_and a 0x80 ≡ a / 128 % 2 * 128
bit_seven a = omega (arith, bit_and_step a 128, bit_six (a / 2))

pub low_bit : (a : ℕ) → bit_and a 1 ≡ a % 2
low_bit a = bit_and-one a

pub set_bit_seven : (a : ℕ) → bit_or (a % 128) 0x80 ≡ a % 128 + 128
set_bit_seven a = bit_or_fields 7 (a % 128) 1 (omega arith)

bit_xor_step : (a b : ℕ) → bit_xor a b ≡ bit_xor (a / 2) (b / 2) * 2 + differ (a % 2) (b % 2)
bit_xor_step zero b = xor_nil_step b
  where
    digit : (y : ℕ) → differ 0 y ≡ y
    digit y = refl

    xor_nil_step : (b : ℕ) → bit_xor 0 b ≡ bit_xor (0 / 2) (b / 2) * 2 + differ (0 % 2) (b % 2)
    xor_nil_step b =
        omega (arith, bit_xor-bitwise zero b, bit_xor-bitwise zero (b / 2), digit (b % 2))
bit_xor_step (suc a) b = omega (
  arith,
  bit_xor-bitwise (suc a) b,
  bit_xor-bitwise (suc a / 2) (b / 2),
  bitwise_step (λ y. y) differ a b,
)

differ-zero : (x : ℕ) → differ x 0 ≡ x
differ-zero zero = refl
differ-zero (suc x) = refl

differ-one : (x : ℕ) → x < 2 → differ x 1 ≡ 1 - x
differ-one zero h = refl
differ-one (suc zero) h = refl
differ-one (suc (suc x)) h = absurd (omega arith)

-- Exclusive or with 0 and with k ones, which is the complement.
pub bit_xor-zero : (k a : ℕ) → a < 2 ^ k → bit_xor a 0 ≡ a
bit_xor-zero zero a h =
    let a0 : a ≡ 0 = omega arith in
    omega (arith, ap (λ (t : ℕ). bit_xor t 0) a0, bit_xor-bitwise 0 0)
bit_xor-zero (suc k) a h = omega (
  arith,
  bit_xor_step a 0,
  bit_xor-zero k (a / 2) (omega (arith, two_pow k)),
  differ-zero (a % 2),
)

pub bit_xor-ones : (k a : ℕ) → a < 2 ^ k → bit_xor a (2 ^ k - 1) ≡ 2 ^ k - 1 - a
bit_xor-ones zero a h =
    let a0 : a ≡ 0 = omega arith in
    omega (arith, ap (λ (t : ℕ). bit_xor t 0) a0, bit_xor-bitwise 0 0)
bit_xor-ones (suc k) a h =
    let half : (2 ^ suc k - 1) / 2 ≡ 2 ^ k - 1 = omega (arith, two_pow k, one-le-pow k 2) in
    let odd : (2 ^ suc k - 1) % 2 ≡ 1 = omega (arith, two_pow k, one-le-pow k 2) in
    omega (
      arith,
      two_pow k,
      one-le-pow k 2 (omega arith),
      bit_xor_step a (2 ^ suc k - 1),
      ap (λ (t : ℕ). bit_xor (a / 2) t) half,
      ap (λ (t : ℕ). differ (a % 2) t) odd,
      bit_xor-ones k (a / 2) (omega (arith, two_pow k)),
      differ-one (a % 2) (omega arith),
    )
