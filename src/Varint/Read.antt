-- ===== src/Varint/Read.antt =====
-- `read_varint` of source/bee/common/varint.h on any bytes, and on what `write_varint` wrote.
use cassobee.Base.{
  ℕ, zero, suc, ◌+◌, ◌*◌, ◌/◌, ◌%◌, ◌^◌, ◌<◌, ◌≡◌, ap, arith, bit_or, ltb, List, [], ◌∷◌, ◌++◌, All,
  if◌then◌else◌, word, ◌∙◌, refl, Option, none, some, Bool-cases, inl, inr, ltb→lt,
}
use cassobee.Base.Bits.{low_seven, bit_seven, bit_or_fields, bit_or-lt}
use cassobee.Varint.{IsByte, merge, read_loop, read_varint, write_varint}
use cassobee.Varint.Write.{groups, write_varint-groups}
use native.Mathlib.Nat.{mod-eq_of_lt, div-add-mod}
use native.Mathlib.Numerals.{towards_suc}

-- An independent description of where a number ends: the bytes behind the first one below 128, if
-- that is among the first n.
unfoldable pub behind_last : ℕ → List ℕ → Option (List ℕ)
behind_last zero bytes = none
behind_last (suc n) [] = none
behind_last (suc n) (byte ∷ rest) = if ltb byte 128 then some rest else behind_last n rest

seven_more : (s : ℕ) → 2 ^ (s + 7) ≡ 2 ^ s * 128
seven_more s = simp towards_suc (omega arith)

merge-lt : (value byte shift : ℕ) → value < word → merge value byte shift < word
merge-lt value byte shift h = bit_or-lt 64 value _ h (omega arith)

-- The shift is seven times the number of bytes that are read.
read_loop-behind_last :
    (n j : ℕ) (bytes : List ℕ) (value : ℕ)
    → n + j ≡ 10
    → All IsByte bytes
    → value < word
    → ((read_loop bytes value (7 * j)).0 ≡ behind_last n bytes)
      × ((read_loop bytes value (7 * j)).1 < word)
unfolding read_loop behind_last
read_loop-behind_last zero j [] value e hs hv = (refl, hv)
read_loop-behind_last zero j (byte ∷ rest) value e hs hv = ground arith
read_loop-behind_last (suc n) j [] value e hs hv = (refl, hv)
read_loop-behind_last (suc n) j (byte ∷ rest) value e hs hv =
    let next : 7 * j + 7 ≡ 7 * (j + 1) = omega arith in
    ground (
      arith,
      next,
      bit_seven byte,
      merge-lt value byte (7 * j),
      read_loop-behind_last n (j + 1) rest (merge value byte (7 * j)) (omega arith),
    )

-- On any bytes `read_varint` succeeds exactly if one of the first ten is below 128, returns the
-- pointer behind the first such byte, and leaves a 64-bit number in `value`, also where it fails.
pub read_varint-behind_last :
    (bytes : List ℕ)
    → All IsByte bytes
    → ((read_varint bytes).0 ≡ behind_last 10 bytes) × ((read_varint bytes).1 < word)
unfolding read_varint
read_varint-behind_last bytes hs = read_loop-behind_last 10 0 bytes 0 (omega arith) hs (omega arith)

module _ (acc shift g : ℕ) (below : acc < 2 ^ shift) where
  -- A group that fits its place is added.
  merge_fits :
      (byte : ℕ)
      → byte % 128 ≡ g
      → g * 2 ^ shift < word
      → merge acc byte shift ≡ acc + g * 2 ^ shift
  merge_fits byte e fits =
      ap (λ (t : ℕ). bit_or acc (t * 2 ^ shift % word)) (low_seven byte ∙ e)
      ∙ ap (λ (t : ℕ). bit_or acc t) (mod-eq_of_lt fits)
      ∙ bit_or_fields shift acc g below

  next_below : g < 128 → acc + g * 2 ^ shift < 2 ^ (shift + 7)
  next_below h = grind (arith, seven_more shift)

-- The lowest group of `v` and the others, both shifted by s.
split_group : (v s : ℕ) → v * 2 ^ s ≡ v % 128 * 2 ^ s + v / 128 * 2 ^ (s + 7)
split_group v s = omega (
  arith,
  ap (λ (t : ℕ). t * 2 ^ s) (div-add-mod v 128),
  ap (λ (t : ℕ). v / 128 * t) (seven_more s),
)

module _ (shift v acc : ℕ) (rest : List ℕ) (low : shift < 64) (below : acc < 2 ^ shift) where
  last_byte :
      v < 128
      → acc + v * 2 ^ shift < word
      → read_loop (v ∷ rest) acc shift ≡ (some rest, acc + v * 2 ^ shift)
  unfolding read_loop
  last_byte hv fits =
      ground (arith, bit_seven v, merge_fits acc shift v below v (omega arith) (omega arith))

  inner_byte :
      acc + v * 2 ^ shift < word
      → read_loop ((v % 128 + 128) ∷ rest) acc shift
        ≡ read_loop rest (acc + v % 128 * 2 ^ shift) (shift + 7)
  unfolding read_loop
  inner_byte fits = ground (
    arith,
    split_group v shift,
    bit_seven (v % 128 + 128),
    merge_fits acc shift (v % 128) below (v % 128 + 128) (omega arith)
        (omega (arith, split_group v shift)),
  )

-- What remains to be read is `v`, and it counts from bit `shift` on.
read_loop-groups :
    (k v acc shift : ℕ) (rest : List ℕ)
    → shift + 7 * k < 64
    → v < 128 ^ suc k
    → acc < 2 ^ shift
    → acc + v * 2 ^ shift < word
    → read_loop (groups k v ++ rest) acc shift ≡ (some rest, acc + v * 2 ^ shift)
unfolding groups
read_loop-groups zero v acc shift rest hs hv below fits =
    last_byte shift v acc rest (omega arith) below (omega arith) fits
read_loop-groups (suc k) v acc shift rest hs hv below fits = elim (Bool-cases (ltb v 128)) [
  | inl last ↦ rw last (last_byte shift v acc rest (omega arith) below (ltb→lt v 128 last) fits)
  | inr more ↦ rw more (
      inner_byte shift v acc (groups k (v / 128) ++ rest) (omega arith) below fits
      ∙ read_loop-groups k (v / 128) (acc + v % 128 * 2 ^ shift) (shift + 7) rest (omega arith)
          (omega arith) (next_below acc shift (v % 128) below (omega arith))
          (omega (arith, split_group v shift))
      ∙ ap (λ (t : ℕ). (some rest, t)) (omega (arith, split_group v shift)))
]

-- `read_varint` reads back every 64-bit number that `write_varint` wrote, and returns the pointer
-- to whatever follows it.
pub read_varint-write_varint :
    (v : ℕ) (rest : List ℕ) → v < word → read_varint (write_varint v [] ++ rest) ≡ (some rest, v)
unfolding read_varint
read_varint-write_varint v rest h = rw (write_varint-groups v [] h) (
    read_loop-groups 9 v 0 0 rest (omega arith) (omega arith) (omega arith) (omega arith)
    ∙ ap (λ (t : ℕ). (some rest, t)) (omega arith))
