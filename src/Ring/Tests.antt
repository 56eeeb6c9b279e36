-- ===== src/Ring/Tests.antt =====
-- utility/ring_buffer.h on a ring of four bytes.
use cassobee.Base.{◌≡◌, refl, min, ◌-◌, [], ◌∷◌, ◌++◌, take, drop, arith}
use cassobee.Ring.{Ring, write, read, write_loop, read_loop, free_space}
use cassobee.Ring.Queue.{queue, IsValid}
use cassobee.Ring.Write.{queue-write}
use cassobee.Ring.Read.{queue-read}

-- Three bytes, the last of them around the end.
abbrev wrapped : Ring
wrapped = record {
  capacity = 4;
  write_cursor = 1;
  read_cursor = 2;
  size = 3;
  cells = 9 ∷ 0 ∷ 7 ∷ 8 ∷ [];
}

wrapped-IsValid : IsValid wrapped
wrapped-IsValid = omega arith

queue-write_example :
    ((write (5 ∷ 6 ∷ []) wrapped).0 ≡ min (4 - 3) 2)
    × IsValid (write (5 ∷ 6 ∷ []) wrapped).1
    × (queue (write (5 ∷ 6 ∷ []) wrapped).1
        ≡ queue wrapped ++ take (write (5 ∷ 6 ∷ []) wrapped).0 (5 ∷ 6 ∷ []))
queue-write_example = queue-write (5 ∷ 6 ∷ []) wrapped wrapped-IsValid

queue-read_example :
    ((read 2 wrapped).0 ≡ take (min 3 2) (queue wrapped))
    × IsValid (read 2 wrapped).1
    × (queue (read 2 wrapped).1 ≡ drop (min 3 2) (queue wrapped))
queue-read_example = queue-read 2 wrapped wrapped-IsValid

read_around : (read 3 wrapped).0 ≡ 7 ∷ 8 ∷ 9 ∷ []
unfolding read read_loop
read_around = refl

write_full :
    (write (5 ∷ 6 ∷ []) wrapped).1
    ≡ record wrapped { write_cursor = 2; size = 4; cells = 9 ∷ 5 ∷ 7 ∷ 8 ∷ [] }
unfolding write write_loop free_space
write_full = refl
