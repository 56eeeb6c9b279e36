-- ===== src/FixedBuffer/Contents.antt =====
-- The bytes that `fixed_buffer` of source/bee/utility/fixed_buffer.h holds after a call.
use cassobee.Base.{
  ℕ, ◌+◌, ◌-◌, ◌≡◌, ◌≤◌, ◌<◌, ◌∙◌, ap, sym, arith, min, ltb, Bool-cases, inl, inr, if◌then◌else◌,
  List, ◌++◌, length, take, length-take, take-take, take_all, append-nil, word, add64,
}
use mathlib.Core.Path.{ap₂}
use cassobee.Octets.{blit}
use cassobee.Octets.Blocks.{length-blit, take-blit_end}
use cassobee.Octets.Edits.{take-min}
use cassobee.FixedBuffer.{FixedBuffer, free_space, write, read}

pub record IsValid (b : FixedBuffer) : Type 0 where
  pub block : length b.bytes ≡ b.capacity
  pub within : b.cursor ≤ b.capacity
  pub low : b.capacity < word

abbrev pub contents : FixedBuffer → List ℕ
contents b = take b.cursor b.bytes

module _ {b : FixedBuffer} (v : IsValid b) where
  read_is : (n : ℕ) → read n b ≡ (take (min b.cursor n) b.bytes, record b { cursor = b.cursor - n })
  unfolding read
  read_is n = elim (Bool-cases (ltb b.cursor n)) [
    | inl more ↦ rw more (
        ap₂ (λ (k c : ℕ). (take k b.bytes, record b { cursor = c })) (ground arith)
          (ground (arith, v.within, v.low)))
    | inr less ↦ rw less (
        ap₂ (λ (k c : ℕ). (take k b.bytes, record b { cursor = c })) (ground arith)
          (ground (arith, v.within, v.low)))
  ]

  front : (n : ℕ) → take (min b.cursor n) b.bytes ≡ take n (contents b)
  front n = elim (Bool-cases (ltb b.cursor n)) [
    | inl more ↦
        ap (λ k. take k b.bytes) {y = b.cursor} (ground arith)
        ∙ sym (take_all n (contents b) (ground (arith, length-take b.cursor b.bytes)))
    | inr less ↦
        ap (λ k. take k b.bytes) {y = n} (ground arith)
        ∙ sym (take-take n b.cursor b.bytes (ground arith))
  ]

  -- `read` gives the first bytes, as many as it is asked for or as there are. What the buffer then holds are
  -- the first bytes again, not the ones behind those that were read: as many of the last bytes are lost
  -- as were read.
  pub read_lem :
      (n : ℕ)
      → ((read n b).0 ≡ take n (contents b))
        × (contents (read n b).1 ≡ take (b.cursor - n) (contents b))
        × IsValid (read n b).1
  read_lem n = rw (read_is n) (
    front n,
    sym (take-take (b.cursor - n) b.cursor b.bytes (omega arith)),
    record { block = v.block; within = omega (arith, v.within); low = v.low },
  )

  abbrev given : List ℕ → ℕ → ℕ × FixedBuffer
  given src n =
      if ltb 0 n
      then (n, record b { bytes = blit b.bytes b.cursor (take n src); cursor = add64 b.cursor n })
      else (n, b)

  -- `write` adds as many of the bytes as there is room for behind those that the buffer holds, stays inside
  -- the block, and answers how many.
  pub write_lem :
      (src : List ℕ)
      → ((write src b).0 ≡ min (b.capacity - b.cursor) (length src))
        × (contents (write src b).1 ≡ contents b ++ take (b.capacity - b.cursor) src)
        × IsValid (write src b).1
  unfolding write free_space
  write_lem src =
      let w : ℕ = min (length src) (b.capacity - b.cursor) in
      let same : write src b ≡ given src w = ap (given src) (ground (arith, v.within, v.low)) in
      rw same (elim (Bool-cases (ltb 0 w)) [
        | inl bytes_go ↦
            let size : length (take w src) ≡ w = omega (arith, length-take w src) in
            let end : add64 b.cursor w ≡ b.cursor + w = omega (arith, v.within, v.low) in
            rw (bytes_go, end)
              (
                omega arith,
                ap (λ (n : ℕ). take (b.cursor + n) (blit b.bytes b.cursor (take w src)))
                      (omega (arith, size))
                    ∙ take-blit_end b.bytes (take w src) b.cursor (omega (arith, v.block, v.within))
                    ∙ ap (λ l. contents b ++ l) (take-min src (b.capacity - b.cursor)),
                record {
                  block =
                      length-blit b.bytes (take w src) b.cursor
                        (omega (arith, v.block, v.within, size))
                      ∙ v.block;
                  within = omega (arith, v.within);
                  low = v.low;
                },
              )
        | inr none_go ↦
            let zero_is : w ≡ 0 = ground arith in
            rw none_go (
              omega arith,
              sym (append-nil (contents b))
                  ∙ ap (λ l. contents b ++ l)
                      (ap (λ (n : ℕ). take n src) {x = 0} {y = w} (omega (arith, zero_is))
                        ∙ take-min src (b.capacity - b.cursor)),
              v,
            )
      ])
