-- ===== src/Octets/Blocks.antt =====
-- Laws of the copies between blocks of source/bee/common/octets.h.
use cassobee.Base.{
  ℕ, zero, suc, ◌+◌, ◌≡◌, ◌≤◌, ◌∙◌, ap, sym, arith, List, [], ◌∷◌, ◌++◌, length, take, drop,
  length-append, length-take, length-drop, take-append_add, take-append_le, take_all, take-take,
  drop-append_add,
}
use cassobee.Octets.{blit, bytes_at}

module _ (buf bytes : List ℕ) (p : ℕ) where
  -- A copy inside the block keeps its size.
  pub length-blit : p + length bytes ≤ length buf → length (blit buf p bytes) ≡ length buf
  length-blit h = omega (
    arith,
    length-append (take p buf) (bytes ++ drop (p + length bytes) buf),
    length-append bytes (drop (p + length bytes) buf),
    length-take p buf,
    length-drop (p + length bytes) buf,
  )

  -- What stands before the end of the copy.
  pub take-blit :
      p ≤ length buf
      → (n : ℕ)
      → take (p + n) (blit buf p bytes)
        ≡ take p buf ++ take n (bytes ++ drop (p + length bytes) buf)
  take-blit h n =
      ap (λ k. take k (blit buf p bytes)) cut
      ∙ take-append_add (take p buf) (bytes ++ drop (p + length bytes) buf) n
    where
      cut : p + n ≡ length (take p buf) + n
      cut = omega (arith, length-take p buf)

  pub take-blit_end :
      p ≤ length buf → take (p + length bytes) (blit buf p bytes) ≡ take p buf ++ bytes
  take-blit_end h =
      take-blit h (length bytes)
      ∙ ap (λ l. take p buf ++ l)
          (take-append_le (length bytes) bytes (drop (p + length bytes) buf) (omega arith)
            ∙ take_all (length bytes) bytes (omega arith))

  -- What stands after it.
  pub drop-blit_end :
      p ≤ length buf → drop (p + length bytes) (blit buf p bytes) ≡ drop (p + length bytes) buf
  drop-blit_end h =
      ap (λ k. drop k (blit buf p bytes)) cut
      ∙ drop-append_add (take p buf) (bytes ++ drop (p + length bytes) buf) (length bytes)
      ∙ ap (λ k. drop k (bytes ++ drop (p + length bytes) buf)) (omega arith)
      ∙ drop-append_add bytes (drop (p + length bytes) buf) 0
    where
      cut : p + length bytes ≡ length (take p buf) + length bytes
      cut = omega (arith, length-take p buf)

-- The first bytes of the bytes from p on.
pub take-bytes_at :
    (buf : List ℕ) (p n k : ℕ) → k ≤ n → take k (bytes_at buf p n) ≡ bytes_at buf p k
take-bytes_at buf p n k h = take-take k n (drop p buf) h

nothing : (n : ℕ) → take {A = ℕ} n [] ≡ []
nothing n = take_all n [] (omega arith)

-- A list cut in two places.
pub take_split : (xs : List ℕ) (p n : ℕ) → take (p + n) xs ≡ take p xs ++ take n (drop p xs)
take_split xs zero n = ap (λ k. take k xs) (omega arith)
take_split [] (suc p) n = nothing (suc p + n) ∙ sym (nothing n)
take_split (x ∷ xs) (suc p) n = ap (λ k. take k (x ∷ xs)) cut ∙ ap (λ l. x ∷ l) (take_split xs p n)
  where
    cut : suc p + n ≡ suc (p + n)
    cut = omega arith

pub drop-take : (xs : List ℕ) (p n : ℕ) → drop p (take (p + n) xs) ≡ take n (drop p xs)
drop-take xs zero n = ap (λ k. take k xs) (omega arith)
drop-take [] (suc p) n = ap (λ l. drop (suc p) l) (nothing (suc p + n)) ∙ sym (nothing n)
drop-take (x ∷ xs) (suc p) n = ap (λ k. drop (suc p) (take k (x ∷ xs))) cut ∙ drop-take xs p n
  where
    cut : suc p + n ≡ suc (p + n)
    cut = omega arith

pub length-bytes_at : (buf : List ℕ) (p n : ℕ) → p + n ≤ length buf → length (bytes_at buf p n) ≡ n
length-bytes_at buf p n h = omega (arith, length-take n (drop p buf), length-drop p buf)

module _ (buf bytes : List ℕ) (p : ℕ) (inside : p ≤ length buf) where
  -- What was copied, and what stands before it.
  pub bytes_at-blit : bytes_at (blit buf p bytes) p (length bytes) ≡ bytes
  bytes_at-blit =
      ap (λ l. take (length bytes) l)
        (ap (λ k. drop k (blit buf p bytes)) cut
          ∙ drop-append_add (take p buf) (bytes ++ drop (p + length bytes) buf) 0)
      ∙ take-append_le (length bytes) bytes (drop (p + length bytes) buf) (omega arith)
      ∙ take_all (length bytes) bytes (omega arith)
    where
      cut : p ≡ length (take p buf) + 0
      cut = omega (arith, length-take p buf)

  pub take-blit_before : (k : ℕ) → k ≤ p → take k (blit buf p bytes) ≡ take k buf
  take-blit_before k h =
      take-append_le k (take p buf) (bytes ++ drop (p + length bytes) buf)
        (omega (arith, length-take p buf))
      ∙ take-take k p buf h
