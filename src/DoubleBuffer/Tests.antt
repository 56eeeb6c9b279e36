-- ===== src/DoubleBuffer/Tests.antt =====
-- thread/double_buffer.h with two writes around the swap of a read.
use cassobee.Base.{ℕ, ◌≡◌, refl, List, [], ◌∷◌, ◌++◌}
use cassobee.DoubleBuffer.{swap, write, idle, Action, writes, reads, steps, step, initial}
use cassobee.DoubleBuffer.Delivery.{Apart, unread_by, delivered_in_order, read_all}

abbrev kept : List ℕ → List ℕ
kept xs = xs

abbrev mixed : List (Action ℕ)
mixed = writes 1 ∷ writes 2 ∷ reads ∷ writes 3 ∷ reads ∷ []

delivered_in_order_example :
    ((steps kept mixed initial).delivered
        ++ unread_by (steps kept mixed initial).reader (steps kept mixed initial).buffers
      ≡ 1 ∷ 2 ∷ 3 ∷ [])
    × Apart (steps kept mixed initial).reader (steps kept mixed initial).buffers
delivered_in_order_example = delivered_in_order kept mixed

mixed_run : (steps kept mixed initial).delivered ≡ 1 ∷ 2 ∷ []
unfolding swap write step steps
mixed_run = refl

-- The read of the two values is over when the third one is read.
abbrev quiet : List (Action ℕ)
quiet = writes 1 ∷ writes 2 ∷ reads ∷ writes 3 ∷ reads ∷ reads ∷ []

quiet-idle : (steps kept quiet initial).reader ≡ idle
unfolding swap write step steps
quiet-idle = refl

read_all_example :
    (steps kept (reads ∷ reads ∷ reads ∷ []) (steps kept quiet initial)).delivered ≡ 1 ∷ 2 ∷ 3 ∷ []
read_all_example = read_all kept quiet quiet-idle
