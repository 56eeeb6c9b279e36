-- ===== src/Varint/Write.antt =====
-- What `write_varint` of source/bee/common/varint.h appends, in plain arithmetic.
use cassobee.Base.{
  ℕ, zero, suc, ◌+◌, ◌/◌, ◌%◌, ◌^◌, ◌<◌, ◌≤◌, ◌≡◌, ap, arith, bit_and, bit_or, ltb, List, [], ◌∷◌,
  ◌++◌, append_assoc, length, All, if◌then◌else◌, word, ◌∙◌,
}
use cassobee.Base.Bits.{low_seven, set_bit_seven}
use cassobee.Varint.{IsByte, write_loop, write_varint}
use mathlib.Core.WellFounded.{Acc}

-- The groups of seven bits, lowest first, of a value below 128 ^ (k + 1); the last one is below 128
-- and all the others carry bit 7.
unfoldable pub groups : ℕ → ℕ → List ℕ
groups zero v = v ∷ []
groups (suc k) v = if ltb v 128 then v ∷ [] else (v % 128 + 128) ∷ groups k (v / 128)

more_byte : (v : ℕ) → bit_or (bit_and v 0x7f) 0x80 ≡ v % 128 + 128
more_byte v = ap (λ (t : ℕ). bit_or t 0x80) (low_seven v) ∙ set_bit_seven v

write_loop-groups :
    (k : ℕ) (buffer : List ℕ) (v : ℕ) (w : Acc ◌<◌ v)
    → v < 128 ^ suc k
    → write_loop buffer v w ≡ buffer ++ groups k v
unfolding write_loop groups
write_loop-groups zero buffer v (Acc.intro _ smaller) h = grind arith
write_loop-groups (suc k) buffer v (Acc.intro _ smaller) h =
    let byte : List ℕ = (v % 128 + 128) ∷ [] in
    grind (
      arith,
      more_byte v,
      λ (w : Acc ◌<◌ (v / 128)). write_loop-groups k (buffer ++ byte) (v / 128) w (omega arith),
      append_assoc buffer byte (groups k (v / 128)),
    )

-- `write_varint` keeps what is in the buffer and appends the groups of the value, at most ten.
pub write_varint-groups :
    (v : ℕ) (buffer : List ℕ) → v < word → write_varint v buffer ≡ buffer ++ groups 9 v
unfolding write_varint
write_varint-groups v buffer h = write_loop-groups 9 buffer v _ (omega arith)

pub groups-IsByte : (k v : ℕ) → v < 128 ^ suc k → All IsByte (groups k v)
unfolding groups
groups-IsByte zero v h = omega arith
groups-IsByte (suc k) v h = ground (arith, groups-IsByte k (v / 128) (omega arith))

pub length-groups : (k v : ℕ) → (1 ≤ length (groups k v)) × (length (groups k v) ≤ k + 1)
unfolding groups
length-groups zero v = omega arith
length-groups (suc k) v = ground (arith, length-groups k (v / 128))

-- A number below 128 is one byte.
pub write_varint-small : (v : ℕ) → v < 128 → write_varint v [] ≡ v ∷ []
unfolding groups
write_varint-small v h = write_varint-groups v [] (omega arith) ∙ ground arith
