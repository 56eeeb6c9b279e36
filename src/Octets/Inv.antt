-- ===== src/Octets/Inv.antt =====
-- The representation invariant of source/bee/common/octets.h: no operation leaves the block. A copy past its
-- end would make the list longer than `cap`.
use cassobee.Base.{
  ℕ, ◌^◌, ◌≡◌, ◌≤◌, ◌∙◌, ap, refl, arith, max, List, length, take, length-take, Option, some, leb,
  Bool-cases, inl, inr,
}
use cassobee.Octets.{Memory, Octets, blit, create, copy, reserve, empty}
use cassobee.Octets.Frob.{rounded, frob_size_lem}
use cassobee.Octets.Blocks.{length-blit, take-blit_end}

pub record IsValid (o : Octets) : Type 0 where
  pub block : length o.buf ≡ o.cap
  pub within : o.len ≤ o.cap
  pub small : o.cap ≤ 2 ^ 63

-- The bytes that the buffer holds.
abbrev pub contents : Octets → List ℕ
contents o = take o.len o.buf

pub length-contents : {o : Octets} → IsValid o → length (contents o) ≡ o.len
length-contents {o} v = omega (arith, length-take o.len o.buf, v.block, v.within)

-- That a call which may throw returns a valid buffer with these bytes, and with room for so many.
pub record Outcome (call : Option Octets) (bytes : List ℕ) (room : ℕ) : Type 0 where
  pub after : Octets
  pub returns : call ≡ some after
  pub valid : IsValid after
  pub holds : contents after ≡ bytes
  pub roomy : room ≤ after.cap

module _ (m : Memory) where
  pub empty-IsValid : IsValid (empty m)
  unfolding empty
  empty-IsValid = omega (arith, m.length-fresh 16)

  module _ (src : List ℕ) (n room : ℕ) (enough : n ≤ length src) (low : max n room ≤ 2 ^ 63) where
    pub create-IsValid : IsValid (create m src n room)
    unfolding create
    create-IsValid = record {
      block =
          length-blit (m.fresh (max n room)) (take n src) 0
            (omega (arith, length-take n src, m.length-fresh (max n room)))
          ∙ m.length-fresh (max n room);
      within = omega arith;
      small = low;
    }

    pub contents-create : contents (create m src n room) ≡ take n src
    unfolding create
    contents-create =
        ap (λ k. take k (blit (m.fresh (max n room)) 0 (take n src)))
          (omega (arith, length-take n src))
        ∙ take-blit_end (m.fresh (max n room)) (take n src) 0 (omega arith)

  module _ {o : Octets} (v : IsValid o) where
    -- A copy has the contents and the capacity of its source.
    pub copy_lem :
        IsValid (copy m o) × (contents (copy m o) ≡ contents o) × ((copy m o).cap ≡ o.cap)
    unfolding copy
    copy_lem = (
      create-IsValid o.buf o.len o.cap (omega (arith, v.block, v.within))
          (omega (arith, v.within, v.small)),
      contents-create o.buf o.len o.cap (omega (arith, v.block, v.within))
          (omega (arith, v.within, v.small)),
      (unfold create in omega (arith, v.within)),
    )

    -- `reserve` of at most 2 ^ 63 returns a valid buffer with the same bytes and the room that is
    -- asked for, also where it moves them into a new block.
    pub reserve_lem :
        (room : ℕ) → room ≤ 2 ^ 63 → Outcome (reserve m o room) (contents o) (max room o.cap)
    unfolding reserve
    reserve_lem room h = elim (Bool-cases (leb room o.cap)) [
      | inl fits ↦ record {
        after = o;
        returns = rw fits;
        valid = v;
        holds = refl;
        roomy = ground arith;
      }
      | inr grow ↦
          let (size, lo, hi, least) = frob_size_lem room h in
          let n : ℕ = rounded room in
          record {
            after = create m o.buf o.len n;
            returns = rw (grow, size);
            valid =
                create-IsValid o.buf o.len n (omega (arith, v.block, v.within))
                  (omega (arith, v.within, v.small));
            holds =
                contents-create o.buf o.len n (omega (arith, v.block, v.within))
                  (omega (arith, v.within, v.small));
            roomy = unfold create in ground arith;
          }
    ]

    -- `_len` does not change.
    pub reserve_len :
        (room : ℕ) (r : Outcome (reserve m o room) (contents o) (max room o.cap))
        → r.after.len ≡ o.len
    reserve_len room r =
        omega (arith, length-contents r.valid, ap (length {A = ℕ}) r.holds, length-contents v)
