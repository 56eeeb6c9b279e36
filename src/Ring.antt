-- ===== src/Ring.antt =====
-- source/bee/utility/ring_buffer.h: a ring of N bytes. The two `read`s differ in where the bytes go.
pub mod Bytewise
pub mod Window
pub mod Queue
pub mod Write
pub mod Read
mod Tests
use cassobee.Base.{
  ℕ, zero, suc, ◌-◌, ◌%◌, min, ◌==◌, Bool, List, [], ◌∷◌, ◌++◌, length, take, drop, replicate,
  add64, sub64,
}
use cassobee.Octets.{blit}

-- `capacity` is the template's N.
pub record Ring : Type 0 where
  pub capacity : ℕ
  pub write_cursor : ℕ
  pub read_cursor : ℕ
  pub size : ℕ
  pub cells : List ℕ

unfoldable pub create : ℕ → Ring
create n = record {
  capacity = n;
  write_cursor = 0;
  read_cursor = 0;
  size = 0;
  cells = replicate n 0;
}

unfoldable pub free_space : Ring → ℕ
free_space r = sub64 r.capacity r.size

unfoldable pub is_empty : Ring → Bool
is_empty r = r.size == 0

unfoldable pub is_full : Ring → Bool
is_full r = r.size == r.capacity

-- A round of the loop of `write`: the bytes up to the end of the block.
abbrev pub write_chunk : ℕ → List ℕ → Ring → Ring
write_chunk n src r = record r {
  cells = blit r.cells r.write_cursor (take n src);
  write_cursor = add64 r.write_cursor n % r.capacity;
}

-- The loop of `write`, on the bytes that are left; each round takes one byte or more.
unfoldable pub write_loop : ℕ → List ℕ → Ring → Ring
write_loop zero src r = r
write_loop (suc fuel) [] r = r
write_loop (suc fuel) (x ∷ xs) r =
    let n = min (sub64 r.capacity r.write_cursor) (length (x ∷ xs)) in
    write_loop fuel (drop n (x ∷ xs)) (write_chunk n (x ∷ xs) r)

-- How many bytes were written, and the ring afterwards.
unfoldable pub write : List ℕ → Ring → ℕ × Ring
write src r =
    let n = min (free_space r) (length src) in
    let r' = write_loop n (take n src) r in (n, record r' { size = add64 r'.size n })

-- The loop of `read`: `left` bytes are still wanted.
unfoldable pub read_loop : ℕ → ℕ → Ring → List ℕ × Ring
read_loop zero left r = ([], r)
read_loop (suc fuel) zero r = ([], r)
read_loop (suc fuel) (suc left) r =
    let n = min (sub64 r.capacity r.read_cursor) (suc left) in
    let (bytes, r') =
      read_loop fuel (suc left - n)
        (record r { read_cursor = add64 r.read_cursor n % r.capacity }) in
    (take n (drop r.read_cursor r.cells) ++ bytes, r')

-- The bytes that were read, and the ring afterwards.
unfoldable pub read : ℕ → Ring → List ℕ × Ring
read wanted r =
    let n = min r.size wanted in
    let (bytes, r') = read_loop n n r in (bytes, record r' { size = sub64 r'.size n })

unfoldable pub reset : Ring → Ring
reset r = record r { write_cursor = 0; read_cursor = 0; size = 0 }
