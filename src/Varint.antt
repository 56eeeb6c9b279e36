-- ===== src/Varint.antt =====
-- source/bee/common/varint.h: zigzag coding of signed integers, variable-length unsigned
-- integers, and the table of encoded sizes. A signed integer of w bits is its bit pattern, below
-- 2 ^ w. A `char` is a number below 256. Pointers into a buffer are the bytes from there on.
pub mod ZigZag
pub mod Write
pub mod Read
pub mod Size
mod Tests
use cassobee.Base.{
  ℕ, zero, suc, ◌+◌, ◌-◌, ◌*◌, ◌/◌, ◌%◌, ◌^◌, ◌<◌, ◌≤◌, bit_and, bit_or, bit_xor, arith, Bool, true,
  false, ltb, ◌==◌, if◌then◌else◌, Option, none, some, List, [], ◌∷◌, ◌++◌, get_or, word,
}
use cassobee.Base.Order.{lt_wf}
use mathlib.Core.Logic.{dite, ite}
use mathlib.Core.WellFounded.{Acc}
use native.Mathlib.Decide.{dec_le}

abbrev pub IsByte : ℕ → Type 0
IsByte b = b < 256

-- `n << 1` and `n >> (w - 1)` of a signed integer of w bits. The second copies the sign bit.
abbrev pub shl_one : ℕ → ℕ → ℕ
shl_one w n = n * 2 % 2 ^ w

abbrev pub sign_fill : ℕ → ℕ → ℕ
sign_fill w n = if ltb n (2 ^ (w - 1)) then 0 else 2 ^ w - 1

-- `-x` at w bits.
abbrev pub negate : ℕ → ℕ → ℕ
negate w x = (2 ^ w - x) % 2 ^ w

-- The body that the three widths share.
pub encode_zigzag : ℕ → ℕ → ℕ
encode_zigzag w n = bit_xor (shl_one w n) (sign_fill w n)

pub decode_zigzag : ℕ → ℕ → ℕ
decode_zigzag w n = bit_xor (n / 2) (negate w (bit_and n 1))

unfoldable pub encode_zigzag16 : ℕ → ℕ
encode_zigzag16 n = encode_zigzag 16 n

unfoldable pub decode_zigzag16 : ℕ → ℕ
decode_zigzag16 n = decode_zigzag 16 n

unfoldable pub encode_zigzag32 : ℕ → ℕ
encode_zigzag32 n = encode_zigzag 32 n

unfoldable pub decode_zigzag32 : ℕ → ℕ
decode_zigzag32 n = decode_zigzag 32 n

unfoldable pub encode_zigzag64 : ℕ → ℕ
encode_zigzag64 n = encode_zigzag 64 n

unfoldable pub decode_zigzag64 : ℕ → ℕ
decode_zigzag64 n = decode_zigzag 64 n

seventh-lt : (value : ℕ) → 128 ≤ value → value / 128 < value
seventh-lt value h = omega arith

-- `while(value >= 0x80)`: the value falls in each round.
pub write_loop : List ℕ → (value : ℕ) → Acc ◌<◌ value → List ℕ
write_loop buffer value (Acc.intro _ smaller) =
    dite (dec_le 0x80 value)
      (λ more.
        write_loop (buffer ++ (bit_or (bit_and value 0x7f) 0x80 ∷ [])) (value / 128)
          (smaller (value / 128) (seventh-lt value more)))
      (λ _. buffer ++ (value ∷ []))

-- The bytes that are in `buffer` afterwards.
pub write_varint : ℕ → List ℕ → List ℕ
write_varint value buffer = write_loop buffer value (lt_wf.apply value)

-- `value |= (uint64_t)(byte & 0x7F) << shift`
abbrev pub merge : ℕ → ℕ → ℕ → ℕ
merge value byte shift = bit_or value (bit_and byte 0x7f * 2 ^ shift % word)

-- The loop of `read_varint`, from a pointer at the given bytes: the pointer that it returns, `none`
-- for `nullptr`, beside what is then in `value`.
pub read_loop : List ℕ → ℕ → ℕ → Option (List ℕ) × ℕ
read_loop [] value shift = (none, value)
read_loop (byte ∷ rest) value shift =
    let value' = merge value byte shift in
    let again = read_loop rest value' (shift + 7) in
    if ltb shift 64
    then (if bit_and byte 0x80 == 0 then (some rest, value') else again)
    else (none, value)

pub read_varint : List ℕ → Option (List ℕ) × ℕ
read_varint bytes = read_loop bytes 0 0

-- `compact_int_size_table`, indexed by the number of bits.
abbrev pub compact_int_size_table : List ℕ
compact_int_size_table =
    1 ∷ 1 ∷ 1 ∷ 1 ∷ 1 ∷ 1 ∷ 1 ∷ 1 ∷ 2 ∷ 2 ∷ 2 ∷ 2 ∷ 2 ∷ 2 ∷ 2 ∷ 2 ∷ 3 ∷ 3 ∷ 3 ∷ 3 ∷ 3 ∷ 3 ∷ 3 ∷ 3
    ∷ 4 ∷ 4 ∷ 4 ∷ 4 ∷ 4 ∷ 4 ∷ 4 ∷ 4 ∷ 5 ∷ 5 ∷ 5 ∷ 5 ∷ 5 ∷ 5 ∷ 5 ∷ 5 ∷ 6 ∷ 6 ∷ 6 ∷ 6 ∷ 6 ∷ 6 ∷ 6 ∷ 6
    ∷ 7 ∷ 7 ∷ 7 ∷ 7 ∷ 7 ∷ 7 ∷ 7 ∷ 7 ∷ 8 ∷ 8 ∷ 8 ∷ 8 ∷ 8 ∷ 8 ∷ 8 ∷ 8 ∷ 9 ∷ []

-- `std::countl_zero` of a value of w bits: the zeros above its highest one.
pub countl_zero : ℕ → ℕ → ℕ
countl_zero zero value = 0
countl_zero (suc w) value =
    let below = countl_zero w value in if ltb value (2 ^ w) then suc below else 0

-- For a type of w bits. The literal 64 is `sizeof(size_t) * 8`, whatever the type.
pub bit_length : ℕ → ℕ → ℕ
bit_length w value = if value == 0 then 0 else 64 - countl_zero w value

unfoldable pub get_compact_int_size : ℕ → ℕ → ℕ
get_compact_int_size w value = get_or compact_int_size_table (bit_length w value) 0
