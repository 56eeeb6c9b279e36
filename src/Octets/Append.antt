-- ===== src/Octets/Append.antt =====
-- The three forms of `append` of source/bee/common/octets.h.
use cassobee.Base.{
  ℕ, ◌+◌, ◌^◌, ◌≡◌, ◌≤◌, ◌∙◌, ap, refl, sym, false, arith, max, List, [], ◌∷◌, ◌++◌, length, take,
  some, ◌==◌, ◌>>=◌, add64, append-nil,
}
use cassobee.Octets.{Memory, Octets, blit, reserve, append, append_char}
use cassobee.Octets.Blocks.{length-blit, take-blit_end}
use cassobee.Octets.Inv.{IsValid, contents, Outcome, reserve_lem, reserve_len}

module _ {r : Octets} (v : IsValid r) (src : List ℕ) (fits : r.len + length src ≤ r.cap) where
  abbrev extended : Octets
  extended = record r { buf = blit r.buf r.len src; len = add64 r.len (length src) }

  extended-IsValid : IsValid extended
  extended-IsValid = record {
    block = length-blit r.buf src r.len (omega (arith, v.block)) ∙ v.block;
    within = omega (arith, v.small);
    small = v.small;
  }

  contents-extended : contents extended ≡ contents r ++ src
  contents-extended =
      ap (λ k. take k (blit r.buf r.len src)) (omega (arith, v.small))
      ∙ take-blit_end r.buf src r.len (omega (arith, v.block))

module _ (m : Memory) {o : Octets} (v : IsValid o) where
  -- The tail that the three forms of `append` share.
  extend_lem :
      (src : List ℕ)
      → o.len + length src ≤ 2 ^ 63
      → Outcome
          (reserve m o (add64 o.len (length src)) >>= λ r.
            some (record r { buf = blit r.buf r.len src; len = add64 r.len (length src) }))
          (contents o ++ src)
          o.cap
  extend_lem src h =
      let room : ℕ = add64 o.len (length src) in
      let r : Outcome (reserve m o room) (contents o) (max room o.cap) =
        reserve_lem m v room (omega arith) in
      let fits : r.after.len + length src ≤ r.after.cap =
        omega (arith, reserve_len m v room r, r.roomy) in
      record {
        after = extended r.valid src fits;
        returns = rw r.returns;
        valid = extended-IsValid r.valid src fits;
        holds = contents-extended r.valid src fits ∙ ap (λ l. l ++ src) r.holds;
        roomy = omega (arith, r.roomy);
      }

  -- `append` adds the new bytes behind those that a valid buffer holds, stays inside the block and
  -- throws nothing, as long as the two lengths together are at most 2 ^ 63.
  pub append_lem :
      (src : List ℕ)
      → o.len + length src ≤ 2 ^ 63
      → Outcome (append m o src) (contents o ++ src) o.cap
  unfolding append
  append_lem [] h = record {
    after = o;
    returns = refl;
    valid = v;
    holds = sym (append-nil (contents o));
    roomy = omega arith;
  }
  append_lem (b ∷ src) h =
      let r : Outcome _ (contents o ++ b ∷ src) o.cap = extend_lem (b ∷ src) h in
      record {
        after = r.after;
        returns = rw nonempty r.returns;
        valid = r.valid;
        holds = r.holds;
        roomy = r.roomy;
      }
    where
      nonempty : (length (b ∷ src) == 0) ≡ false
      nonempty = ground arith

  pub append_char_lem :
      (ch : ℕ) → o.len + 1 ≤ 2 ^ 63 → Outcome (append_char m o ch) (contents o ++ ch ∷ []) o.cap
  unfolding append_char
  append_char_lem ch h = extend_lem (ch ∷ []) h

  pub append_nothing : append m o [] ≡ some o
  unfolding append
  append_nothing = refl
