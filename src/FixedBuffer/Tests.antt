-- ===== src/FixedBuffer/Tests.antt =====
-- A buffer of four bytes that holds three, as an example for source/bee/utility/fixed_buffer.h.
use cassobee.Base.{◌-◌, ◌≡◌, arith, refl, [], ◌∷◌, take}
use cassobee.FixedBuffer.{FixedBuffer, read}
use cassobee.FixedBuffer.Contents.{IsValid, contents, read_lem}

abbrev three : FixedBuffer
three = record { capacity = 4; cursor = 3; bytes = 1 ∷ 2 ∷ 3 ∷ 0 ∷ [] }

three-IsValid : IsValid three
three-IsValid = record { block = refl; within = omega arith; low = omega arith }

-- The first byte is read twice, the third one never.
read_again : (read 1 (read 1 three).1).0 ≡ 1 ∷ []
unfolding read
read_again = refl

read_lem_example :
    ((read 1 three).0 ≡ take 1 (1 ∷ 2 ∷ 3 ∷ []))
    × (contents (read 1 three).1 ≡ take (3 - 1) (1 ∷ 2 ∷ 3 ∷ []))
    × IsValid (read 1 three).1
read_lem_example = read_lem {b = three} three-IsValid 1
