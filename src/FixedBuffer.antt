-- ===== src/FixedBuffer.antt =====
-- source/bee/utility/fixed_buffer.h: a buffer of N bytes with one cursor, which is its number of bytes. The
-- two `read`s differ in where the bytes go.
pub mod Contents
mod Tests
use cassobee.Base.{
  ℕ, zero, ltb, ◌==◌, if◌then◌else◌, Bool, List, length, take, replicate, add64, sub64,
}
use cassobee.Octets.{blit}

pub record FixedBuffer : Type 0 where
  pub capacity : ℕ
  pub cursor : ℕ
  pub bytes : List ℕ

pub create : ℕ → FixedBuffer
create n = record { capacity = n; cursor = 0; bytes = replicate n 0 }

unfoldable pub free_space : FixedBuffer → ℕ
free_space b = sub64 b.capacity b.cursor

-- How many bytes were written, and the buffer afterwards.
pub write : List ℕ → FixedBuffer → ℕ × FixedBuffer
write src b =
    let free = free_space b in
    let write_length = if ltb free (length src) then free else length src in
    if ltb 0 write_length
    then (
      write_length,
      record b {
        bytes = blit b.bytes b.cursor (take write_length src);
        cursor = add64 b.cursor write_length;
      },
    )
    else (write_length, b)

-- The bytes that were read, and the buffer afterwards.
pub read : ℕ → FixedBuffer → List ℕ × FixedBuffer
read n b =
    let read_length = if ltb b.cursor n then b.cursor else n in
    (take read_length b.bytes, record b { cursor = sub64 b.cursor read_length })

pub reset : FixedBuffer → FixedBuffer
reset b = record b { cursor = 0 }

pub is_empty : FixedBuffer → Bool
is_empty b = b.cursor == 0
