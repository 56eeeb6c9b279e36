-- ===== src/Varint/ZigZag.antt =====
-- Zigzag coding: what it computes, and that decoding undoes it, at every width.
use cassobee.Base.{
  ℕ, suc, ◌-◌, ◌*◌, ◌/◌, ◌%◌, ◌^◌, ◌<◌, ◌≡◌, ◌∙◌, ap, arith, bit_xor, true, false, ltb, ◌==◌,
  if◌then◌else◌, Bool-cases, inl, inr,
}
use cassobee.Base.Bits.{bit_xor-zero, bit_xor-ones, low_bit}
use cassobee.Varint.{encode_zigzag, decode_zigzag, sign_fill, shl_one}
use native.Mathlib.Nat.{pow-suc, one-le-pow}
use native.Mathlib.Nat.{mod-eq_of_lt, mod-eq-sub-mod}

-- What the bit trick computes: 2n for a pattern n that stands for n, and 2(-z) - 1 for one that
-- stands for a negative z = n - 2 ^ w.
abbrev pub zigzag : ℕ → ℕ → ℕ
zigzag k n = if ltb n (2 ^ k) then 2 * n else 2 * (2 ^ suc k - n) - 1

abbrev pub unzigzag : ℕ → ℕ → ℕ
unzigzag k m = if m % 2 == 0 then m / 2 else 2 ^ suc k - 1 - m / 2

module _ (k n : ℕ) (small : n < 2 ^ suc k) where
  double : 2 ^ suc k ≡ 2 ^ k * 2
  double = pow-suc 2 k

  fill : sign_fill (suc k) n ≡ (if ltb n (2 ^ k) then 0 else 2 ^ suc k - 1)
  fill = ap (λ (t : ℕ). if ltb n (2 ^ t) then 0 else 2 ^ suc k - 1) (omega arith)

  shifted : shl_one (suc k) n ≡ (if ltb n (2 ^ k) then n * 2 else n * 2 - 2 ^ suc k)
  shifted = elim (Bool-cases (ltb n (2 ^ k))) [
    | inl low ↦ rw low (mod-eq_of_lt (ground (arith, double)))
    | inr high ↦ rw high (
        ground (
          arith,
          double,
          mod-eq-sub-mod {n = n * 2} {m = 2 ^ suc k},
          mod-eq_of_lt {n = n * 2 - 2 ^ suc k} {m = 2 ^ suc k},
        ))
  ]

  -- At every width of at least one bit, zigzag coding doubles a number of the lower half of the
  -- patterns. It takes one of the upper half, which stands for a negative number, to one less than
  -- the double of the absolute value.
  pub encode_zigzag-zigzag : encode_zigzag (suc k) n ≡ zigzag k n
  unfolding encode_zigzag
  encode_zigzag-zigzag = elim (Bool-cases (ltb n (2 ^ k))) [
    | inl low ↦
        rw (shifted, fill, low)
          (bit_xor-zero (suc k) (n * 2) (ground (arith, double)) ∙ ground arith)
    | inr high ↦
        rw (shifted, fill, high)
          (bit_xor-ones (suc k) (n * 2 - 2 ^ suc k) (ground (arith, double))
            ∙ ground (arith, double))
  ]

  fill_even : (n % 2 == 0) ≡ true → (2 ^ suc k - n % 2) % 2 ^ suc k ≡ 0
  fill_even e = ground (arith, mod-eq-sub-mod {n = 2 ^ suc k} {m = 2 ^ suc k})

  fill_odd : (n % 2 == 0) ≡ false → (2 ^ suc k - n % 2) % 2 ^ suc k ≡ 2 ^ suc k - 1
  fill_odd e =
      ground (arith, one-le-pow (suc k) 2, mod-eq_of_lt {n = 2 ^ suc k - 1} {m = 2 ^ suc k})

  pub decode_zigzag-unzigzag : decode_zigzag (suc k) n ≡ unzigzag k n
  unfolding decode_zigzag
  decode_zigzag-unzigzag = elim (Bool-cases (n % 2 == 0)) [
    | inl even ↦
        rw (low_bit, even)
          (ap (λ (t : ℕ). bit_xor (n / 2) t) (fill_even even)
            ∙ bit_xor-zero (suc k) (n / 2) (omega arith))
    | inr odd ↦
        rw (low_bit, odd)
          (ap (λ (t : ℕ). bit_xor (n / 2) t) (fill_odd odd)
            ∙ bit_xor-ones (suc k) (n / 2) (omega arith))
  ]

  zigzag-lt : zigzag k n < 2 ^ suc k
  zigzag-lt = ground (arith, double)

  unzigzag-lt : unzigzag k n < 2 ^ suc k
  unzigzag-lt = ground (arith, double)

  unzigzag-zigzag : unzigzag k (zigzag k n) ≡ n
  unzigzag-zigzag = ground (arith, double)

  zigzag-unzigzag : zigzag k (unzigzag k n) ≡ n
  zigzag-unzigzag = ground (arith, double)

module _ (k n : ℕ) (small : n < 2 ^ suc k) where
  pub encode_zigzag-lt : encode_zigzag (suc k) n < 2 ^ suc k
  encode_zigzag-lt = rw (encode_zigzag-zigzag k n small) (zigzag-lt k n small)

  -- At every width of at least one bit, zigzag coding and decoding are inverse to one another on
  -- the patterns of that width.
  pub zigzag_inverse :
      (decode_zigzag (suc k) (encode_zigzag (suc k) n) ≡ n)
      × (encode_zigzag (suc k) (decode_zigzag (suc k) n) ≡ n)
  zigzag_inverse = (back, forth)
    where
      back : decode_zigzag (suc k) (encode_zigzag (suc k) n) ≡ n
      back =
          rw (encode_zigzag-zigzag k n small) (
            decode_zigzag-unzigzag k (zigzag k n) (zigzag-lt k n small) ∙ unzigzag-zigzag k n small)

      forth : encode_zigzag (suc k) (decode_zigzag (suc k) n) ≡ n
      forth = rw (decode_zigzag-unzigzag k n small) (
          encode_zigzag-zigzag k (unzigzag k n) (unzigzag-lt k n small) ∙ zigzag-unzigzag k n small)
