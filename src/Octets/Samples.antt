-- ===== src/Octets/Samples.antt =====
-- An allocator and a buffer for the examples.
use cassobee.Base.{refl, arith, [], ◌∷◌, replicate, length-replicate}
use cassobee.Octets.{Memory, Octets}
use cassobee.Octets.Inv.{IsValid}

-- New blocks hold zeros.
abbrev pub zeros : Memory
zeros = record { fresh = λ n. replicate n 0; length-fresh = λ n. length-replicate n 0 }

-- Three bytes in a block of four.
abbrev pub three : Octets
three = record { buf = 10 ∷ 20 ∷ 30 ∷ 0 ∷ []; len = 3; cap = 4 }

pub three-IsValid : IsValid three
three-IsValid = record { block = refl; within = omega arith; small = omega arith }
