-- ===== src/Octets/Edits.antt =====
-- `erase` of source/bee/common/octets.h, and the copies inside the block that `insert` makes.
use cassobee.Base.{
  ℕ, ◌+◌, ◌-◌, ◌≡◌, ◌≤◌, ◌∙◌, ap, sym, arith, min, List, ◌++◌, length, take, drop, take_all,
  take-take, append_assoc, drop_all,
}
use native.Mathlib.Decide.{dec_le}
use mathlib.Core.Path.{ap₂}
use cassobee.Octets.{Octets, blit, bytes_at, move_bytes, erase}
use cassobee.Octets.Blocks.{
  length-blit, take-blit_end, drop-blit_end, length-bytes_at, take_split, drop-take, bytes_at-blit,
  take-blit_before,
}
use cassobee.Octets.Inv.{IsValid, contents, length-contents}

-- A position past the end is the end.
pub take-min : (xs : List ℕ) (n : ℕ) → take (min (length xs) n) xs ≡ take n xs
take-min xs n = elim (dec_le (length xs) n) [
  | yes h ↦ take_all _ xs (omega arith) ∙ sym (take_all n xs h)
  | no h ↦ ap (λ k. take k xs) (omega arith)
]

pub drop-min : (xs : List ℕ) (n : ℕ) → drop (min (length xs) n) xs ≡ drop n xs
drop-min xs n = elim (dec_le (length xs) n) [
  | yes h ↦ drop_all _ xs (omega arith) ∙ sym (drop_all n xs h)
  | no h ↦ ap (λ k. drop k xs) (omega arith)
]

module _ {o : Octets} (v : IsValid o) where
  -- The two parts of the contents at a cut, as parts of the block.
  pub front : (p : ℕ) → p ≤ o.len → take p (contents o) ≡ take p o.buf
  front p h = take-take p o.len o.buf h

  pub back : (p : ℕ) → p ≤ o.len → drop p (contents o) ≡ bytes_at o.buf p (o.len - p)
  back p h = ap (λ k. drop p (take k o.buf)) whole ∙ drop-take o.buf p (o.len - p)
    where
      whole : o.len ≡ p + (o.len - p)
      whole = omega arith

  pub front_clipped : (pos : ℕ) → take (min o.len pos) o.buf ≡ take pos (contents o)
  front_clipped pos =
      sym (front (min o.len pos) (omega arith))
      ∙ ap (λ k. take (min k pos) (contents o)) (sym (length-contents v))
      ∙ take-min (contents o) pos

  pub back_clipped :
      (pos q n : ℕ) → q ≡ min o.len pos → n ≡ o.len - q → bytes_at o.buf q n ≡ drop pos (contents o)
  back_clipped pos q n e f =
      ap (λ k. bytes_at o.buf q k) f
      ∙ sym (back q (omega arith))
      ∙ ap (λ k. drop k (contents o)) (e ∙ ap (λ k. min k pos) (sym (length-contents v)))
      ∙ drop-min (contents o) pos

  -- `erase` takes the bytes from `pos` to `pos + n` out of a valid buffer, or as many of them as
  -- there are, and leaves a valid buffer.
  pub erase_lem :
      (pos n : ℕ)
      → IsValid (erase o pos n)
        × (contents (erase o pos n) ≡ take pos (contents o) ++ drop (pos + n) (contents o))
  unfolding erase
  erase_lem pos n = (
    record {
      block = length-blit o.buf rest p (omega (arith, v.block, v.within, size)) ∙ v.block;
      within = omega (arith, v.within);
      small = v.small;
    },
    ap (λ t. take t (blit o.buf p rest)) (omega (arith, size))
        ∙ take-blit_end o.buf rest p (omega (arith, v.block, v.within))
        ∙ ap₂ ◌++◌ (front_clipped pos)
            (back_clipped (pos + n) (p + k) (o.len - p - k) (omega arith) (omega arith)),
  )
    where
      p : ℕ
      p = min o.len pos

      k : ℕ
      k = min (o.len - p) n

      rest : List ℕ
      rest = bytes_at o.buf (p + k) (o.len - p - k)

      size : length rest ≡ o.len - p - k
      size = length-bytes_at o.buf (p + k) (o.len - p - k) (omega (arith, v.block, v.within))

  module _ (src : List ℕ) (p : ℕ) (at : p ≤ o.len) (fits : o.len + length src ≤ o.cap) where
    -- The block after the two copies of `insert`.
    abbrev pub opened : List ℕ
    opened = move_bytes o.buf (p + length src) p (o.len - p)

    abbrev pub filled : List ℕ
    filled = blit opened p src

    length-opened : length opened ≡ length o.buf
    length-opened = length-blit o.buf (bytes_at o.buf p (o.len - p)) (p + length src) (
        omega
          (arith, length-bytes_at o.buf p (o.len - p) (omega (arith, v.block, v.within)), v.block))

    pub length-filled : length filled ≡ o.cap
    length-filled =
        length-blit opened src p (omega (arith, length-opened, v.block)) ∙ length-opened ∙ v.block

    pub take-filled :
        take (o.len + length src) filled ≡ take p (contents o) ++ (src ++ drop p (contents o))
    take-filled =
        ap (λ k. take k filled) (omega arith)
        ∙ take_split filled (p + length src) (o.len - p)
        ∙ ap₂ ◌++◌
            (take-blit_end opened src p (omega (arith, length-opened, v.block))
              ∙ ap (λ l. l ++ src)
                  (take-blit_before o.buf kept (p + length src) (omega (arith, v.block)) p
                      (omega arith)
                    ∙ sym (front p at)))
            (ap (λ l. take (o.len - p) l)
                (drop-blit_end opened src p (omega (arith, length-opened, v.block)))
              ∙ ap (λ k. take k (drop (p + length src) opened)) (sym size)
              ∙ bytes_at-blit o.buf kept (p + length src) (omega (arith, v.block))
              ∙ sym (back p at))
        ∙ append_assoc (take p (contents o)) src (drop p (contents o))
      where
        kept : List ℕ
        kept = bytes_at o.buf p (o.len - p)

        size : length kept ≡ o.len - p
        size = length-bytes_at o.buf p (o.len - p) (omega (arith, v.block, v.within))
