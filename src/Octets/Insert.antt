-- ===== src/Octets/Insert.antt =====
-- `insert` and `replace` of source/bee/common/octets.h.
use cassobee.Base.{
  ℕ, ◌+◌, ◌-◌, ◌^◌, ◌≡◌, ◌≤◌, ◌<◌, ◌∙◌, ap, sym, arith, min, max, List, [], ◌∷◌, ◌++◌, length, take,
  drop, none, some, leb, ltb, ◌==◌, ◌>>=◌, add64, sub64, take_all, append_assoc, true, false, word,
}
use mathlib.Core.Path.{ap₂}
use cassobee.Octets.{Memory, Octets, blit, reserve, insert, replace}
use cassobee.Octets.Blocks.{length-blit, take-blit_end, drop-blit_end, take_split}
use cassobee.Octets.Inv.{IsValid, contents, length-contents, Outcome, reserve_lem, reserve_len}
use cassobee.Octets.Edits.{filled, length-filled, take-filled, take-min, drop-min, front, back}

-- The parts of the contents around a position that `std::min` has brought into range.
cut_min :
    (xs src : List ℕ) (pos n : ℕ)
    → n ≡ length xs
    → take (min n pos) xs ++ (src ++ drop (min n pos) xs) ≡ take pos xs ++ (src ++ drop pos xs)
cut_min xs src pos n e =
    ap (λ k. take (min k pos) xs ++ (src ++ drop (min k pos) xs)) e
    ∙ ap₂ (λ a b. a ++ (src ++ b)) (take-min xs pos) (drop-min xs pos)

module _ (m : Memory) {o : Octets} (v : IsValid o) where
  -- `insert` puts the new bytes before position `pos` of a valid buffer, or behind all the others
  -- where `pos` is past the end, and stays inside the block, as long as the two lengths together
  -- are at most 2 ^ 63.
  pub insert_lem :
      (pos : ℕ) (src : List ℕ)
      → o.len + length src ≤ 2 ^ 63
      → Outcome (insert m o pos src) (take pos (contents o) ++ (src ++ drop pos (contents o))) o.cap
  unfolding insert
  insert_lem pos src h =
      let room : ℕ = add64 o.len (length src) in
      let r : Outcome (reserve m o room) (contents o) (max room o.cap) =
        reserve_lem m v room (omega arith) in
      let same : r.after.len ≡ o.len = reserve_len m v room r in
      let p : ℕ = min o.len pos in
      let fits : r.after.len + length src ≤ r.after.cap = omega (arith, same, r.roomy) in
      record {
        after = record (r.after) {
          buf = filled r.valid src p (omega (arith, same)) fits;
          len = add64 r.after.len (length src);
        };
        returns = rw r.returns;
        valid = record {
          block = length-filled r.valid src p (omega (arith, same)) fits;
          within = omega (arith, r.valid.small);
          small = r.valid.small;
        };
        holds =
            ap (λ k. take k (filled r.valid src p (omega (arith, same)) fits))
              (omega (arith, r.valid.small))
            ∙ take-filled r.valid src p (omega (arith, same)) fits
            ∙ ap (λ c. take p c ++ (src ++ drop p c)) r.holds
            ∙ cut_min (contents o) src pos o.len (sym (length-contents v));
        roomy = omega (arith, r.roomy);
      }

module _ {o : Octets} (v : IsValid o) (pos : ℕ) (src : List ℕ)
    (inside : pos + length src ≤ o.len) where
  abbrev overwritten : Octets
  overwritten = record o { buf = blit o.buf pos src; len = max o.len (pos + length src) }

  overwritten-IsValid : IsValid overwritten
  overwritten-IsValid = record {
    block = length-blit o.buf src pos (omega (arith, v.block, v.within)) ∙ v.block;
    within = omega (arith, v.within);
    small = v.small;
  }

  contents-overwritten :
      contents overwritten ≡ take pos (contents o) ++ (src ++ drop (pos + length src) (contents o))
  contents-overwritten =
      ap (λ k. take k (blit o.buf pos src)) (omega arith)
      ∙ take_split (blit o.buf pos src) (pos + length src) (o.len - (pos + length src))
      ∙ ap₂ ◌++◌
          (take-blit_end o.buf src pos (omega (arith, v.block, v.within))
            ∙ ap (λ l. l ++ src) (sym (front v pos (omega arith))))
          (ap (λ l. take (o.len - (pos + length src)) l)
              (drop-blit_end o.buf src pos (omega (arith, v.block, v.within)))
            ∙ sym (back v (pos + length src) inside))
      ∙ append_assoc (take pos (contents o)) src (drop (pos + length src) (contents o))

module _ (m : Memory) {o : Octets} (v : IsValid o) (pos b : ℕ) (src : List ℕ) where
  abbrev count : ℕ
  count = length (b ∷ src)

  -- The tail of `replace`, once the ASSERT has passed.
  passed :
      count ≤ sub64 o.len pos
      → pos + count < word
      → replace m o pos (b ∷ src) ≡ (
          reserve m o (pos + count) >>= λ r.
          some (record r { buf = blit r.buf pos (b ∷ src); len = max r.len (pos + count) }))
  unfolding replace
  passed enough low =
      let nonempty : (count == 0) ≡ false = ground arith in
      let asserted : ltb (sub64 o.len pos) count ≡ false = ground arith in
      let all : min (sub64 o.len pos) count ≡ count = omega arith in
      let whole : take count (b ∷ src) ≡ b ∷ src = take_all count (b ∷ src) (omega arith) in
      let end : add64 pos count ≡ pos + count = omega arith in
      rw (nonempty, asserted, all, end)
        (ap
          (λ (l : List ℕ). reserve m o (pos + count) >>= λ r.
            some (record r { buf = blit r.buf pos l; len = max r.len (pos + count) }))
          whole)

  replace_inside :
      pos + count ≤ o.len
      → Outcome
          (replace m o pos (b ∷ src))
          (take pos (contents o) ++ (b ∷ src ++ drop (pos + count) (contents o)))
          o.cap
  unfolding reserve
  replace_inside h = record {
    after = overwritten v pos (b ∷ src) h;
    returns =
        passed (omega (arith, v.within, v.small)) (omega (arith, v.within, v.small))
        ∙ rw room_there;
    valid = overwritten-IsValid v pos (b ∷ src) h;
    holds = contents-overwritten v pos (b ∷ src) h;
    roomy = omega arith;
  }
    where
      room_there : leb (pos + count) o.cap ≡ true
      room_there = ground (arith, v.within)

  -- Where the buffer holds some of the bytes to be replaced but not all, the ASSERT of `replace` fails.
  pub replace_too_long : pos ≤ o.len → o.len < pos + count → replace m o pos (b ∷ src) ≡ none
  replace_too_long at short =
      let nonempty : (count == 0) ≡ false = ground arith in
      let failed : ltb (sub64 o.len pos) count ≡ true = ground (arith, v.within, v.small) in
      unfold replace in rw (nonempty, failed)

  -- For a position past the end of a valid buffer, as long as the last byte falls below 2 ^ 63,
  -- `replace` with at least one byte returns: the subtraction in its ASSERT wraps. The buffer then
  -- ends behind the bytes that were given.
  pub replace_past_end :
      o.len < pos
      → pos + count ≤ 2 ^ 63
      → (r : Octets) × (replace m o pos (b ∷ src) ≡ some r) × (r.len ≡ pos + count)
  replace_past_end past low =
      let r : Outcome (reserve m o (pos + count)) (contents o) (max (pos + count) o.cap) =
        reserve_lem m v (pos + count) low in
      (
        record (r.after) {
          buf = blit r.after.buf pos (b ∷ src);
          len = max r.after.len (pos + count);
        },
        passed (omega (arith, v.within, v.small)) (omega arith) ∙ rw r.returns,
        omega (arith, reserve_len m v (pos + count) r),
      )

-- `replace` writes at least one byte over as many bytes of a valid buffer as it is given, where
-- the buffer holds them all, and changes no other.
pub replace_within :
    (m : Memory) {o : Octets} (v : IsValid o) (pos : ℕ) (src : List ℕ)
    → 0 < length src
    → pos + length src ≤ o.len
    → Outcome
        (replace m o pos src)
        (take pos (contents o) ++ (src ++ drop (pos + length src) (contents o)))
        o.cap
replace_within m v pos [] some_bytes inside = absurd (omega arith)
replace_within m v pos (b ∷ src) some_bytes inside = replace_inside m v pos b src inside
