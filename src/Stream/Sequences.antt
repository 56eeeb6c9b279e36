-- ===== src/Stream/Sequences.antt =====
-- The values of source/bee/common/marshal.h that are bytes: they are read back whole.
use cassobee.Base.{
  ℕ, ◌+◌, ◌-◌, ◌≡◌, ◌≤◌, ◌∙◌, ap, sym, arith, some, List, [], ◌∷◌, ◌++◌, length, take, drop, add64,
  ltb, false, take-take, take-append_le, take_all,
}
use mathlib.Core.Path.{subst}
use mathlib.Core.List.{reverse, reverse_aux, reverse-reverse}
use cassobee.Octets.{bytes_at}
use cassobee.Octets.Edits.{back}
use cassobee.Varint.{write_varint}
use cassobee.Stream.{
  size, pop_raw, pop_byte, pop_pod, pop_string, max_size, reserve_bytes, pop_compactu64,
}
use cassobee.Stream.Effects.{Pops, map-Pops, pos_inside, >>=-Pops, return-Pops}
use cassobee.Stream.Integers.{pop_compactu64-Pops}

reverse_onto : (xs ys : List ℕ) → length (reverse_aux xs ys) ≡ length xs + length ys
reverse_onto [] ys = omega arith
reverse_onto (x ∷ xs) ys = omega (arith, reverse_onto xs (x ∷ ys))

pub length-reverse : (xs : List ℕ) → length (reverse xs) ≡ length xs
length-reverse xs = omega (arith, reverse_onto xs [])

-- A block of bytes is read back whole.
pub pop_raw-Pops : (bytes : List ℕ) → Pops (pop_raw (length bytes)) bytes bytes
unfolding pop_raw
pop_raw-Pops bytes s rest v at e =
    let total : s.pos + length bytes + length rest ≡ s.content.len =
      pos_inside s bytes rest v at e in
    let fits : ltb (size s) (add64 s.pos (length bytes)) ≡ false =
      ground (arith, total, v.within, v.small) in
    let end : add64 s.pos (length bytes) ≡ s.pos + length bytes =
      omega (arith, total, v.within, v.small) in
    let got : bytes_at s.content.buf s.pos (length bytes) ≡ bytes =
      sym (
        take-take (length bytes) (s.content.len - s.pos) (drop s.pos s.content.buf)
          (omega (arith, total)))
      ∙ ap (λ l. take (length bytes) l) (sym (back v s.pos at) ∙ e)
      ∙ take-append_le (length bytes) bytes rest (omega arith)
      ∙ take_all (length bytes) bytes (omega arith) in
    rw (fits, end) (ap (λ (l : List ℕ). (some l, record s { pos = s.pos + length bytes })) got)

pub pop_byte-Pops : (b : ℕ) → Pops pop_byte (b ∷ []) (b ∷ [])
unfolding pop_byte
pop_byte-Pops b = pop_raw-Pops (b ∷ [])

-- The bytes of a floating-point number, back in the order of the host.
pub pop_pod-Pops : (bytes : List ℕ) → Pops (pop_pod (length bytes)) (reverse bytes) bytes
unfolding pop_pod
pop_pod-Pops bytes s rest v at e =
    map-Pops (pop_raw (length bytes)) reverse (reverse bytes) (reverse bytes) stored s rest v at e
    ∙ ap (λ (l : List ℕ). (some l, record s { pos = s.pos + length (reverse bytes) }))
        (reverse-reverse bytes)
  where
    stored : Pops (pop_raw (length bytes)) (reverse bytes) (reverse bytes)
    stored =
        subst (λ n. Pops (pop_raw n) (reverse bytes) (reverse bytes)) (length-reverse bytes)
          (pop_raw-Pops (reverse bytes))

reserved : (n : ℕ) → n ≤ max_size → Pops (reserve_bytes n) [] tt
unfolding reserve_bytes
reserved n low = let small : ltb max_size n ≡ false = ground arith in rw small (return-Pops tt)

pub pop_string-Pops :
    (bytes : List ℕ)
    → length bytes ≤ max_size
    → Pops pop_string (write_varint (length bytes) [] ++ bytes) bytes
unfolding pop_string
pop_string-Pops bytes low =
    >>=-Pops pop_compactu64 _ (write_varint (length bytes) []) bytes (length bytes) bytes
      (pop_compactu64-Pops (length bytes) (omega arith))
      (>>=-Pops (reserve_bytes (length bytes)) _ [] bytes tt bytes (reserved (length bytes) low)
        (pop_raw-Pops bytes))
