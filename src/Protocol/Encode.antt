-- ===== src/Protocol/Encode.antt =====
-- What `protocol::encode` of source/bee/io/protocol.cpp leaves in the stream.
use cassobee.Base.{
  ℕ, ◌+◌, ◌^◌, ◌≡◌, ◌≤◌, ◌∙◌, ap, sym, refl, arith, max, some, List, ◌++◌, length, take, drop,
  add64, sub64, ◌==◌, Bool-cases, ==_iff, inl, inr, false, length-take, take-append_le, take-take,
  drop-append_add,
}
use cassobee.Octets
use cassobee.Octets.{Octets, Memory, blit, bytes_at, move_bytes}
use cassobee.Octets.Blocks.{length-blit, take-blit_end, length-bytes_at}
use cassobee.Octets.Inv.{IsValid, contents, Outcome, reserve_lem, reserve_len}
use cassobee.Octets.Edits.{front, back}
use cassobee.Protocol.{make_place}

-- The buffer with a place of `a` bytes at `p`, where a place of two bytes was.
pub record Placed (m : Memory) (o : Octets) (p n a : ℕ) : Type 0 where
  pub after : Octets
  pub returns : make_place m 2 (p + 2) n a o ≡ some after
  pub valid : IsValid after
  pub length_is : after.len ≡ p + a + n
  pub before : take p (contents after) ≡ take p (contents o)
  pub behind : drop (p + a) (contents after) ≡ drop (p + 2) (contents o)

module _ (m : Memory) {o : Octets} (v : IsValid o) (p n a : ℕ) (len_is : o.len ≡ p + 2 + n)
    (lo : 1 ≤ a) (hi : a ≤ 9) (room : o.len + 9 ≤ 2 ^ 63) where
  place_same : a ≡ 2 → Placed m o p n a
  unfolding make_place
  place_same e = record {
    after = o;
    returns = rw ((==_iff a 2).1 e);
    valid = v;
    length_is = omega arith;
    before = refl;
    behind = ap (λ k. drop (p + k) (contents o)) e;
  }

  place_moved :
      (a == 2) ≡ false
      → Outcome (Octets.reserve m o (p + a + n)) (contents o) (max (p + a + n) o.cap)
      → Placed m o p n a
  unfolding make_place Octets.fast_resize
  place_moved ne r =
      let asked : add64 o.len (sub64 a 2) ≡ p + a + n = omega arith in
      let moved_to : add64 (p + 2) (sub64 a 2) ≡ p + a = omega arith in
      let same : r.after.len ≡ o.len = reserve_len m v (p + a + n) r in
      let body : List ℕ = bytes_at r.after.buf (p + 2) n in
      let body_len : length body ≡ n =
        length-bytes_at r.after.buf (p + 2) n (omega (arith, r.valid.block, r.valid.within)) in
      let whole : take (p + a + n) (blit r.after.buf (p + a) body)
          ≡ take (p + a) r.after.buf ++ body =
        ap (λ k. take (p + a + k) (blit r.after.buf (p + a) body)) (sym body_len)
        ∙ take-blit_end r.after.buf body (p + a) (omega (arith, r.valid.block, r.roomy)) in
      record {
        after = record (r.after) { buf = blit r.after.buf (p + a) body; len = p + a + n };
        returns =
            rw (ne, asked, r.returns, moved_to)
              (ap
                (λ (k : ℕ).
                  some (record (r.after) { buf = blit r.after.buf (p + a) body; len = k }))
                (omega (arith, same)));
        valid = record {
          block =
              length-blit r.after.buf body (p + a) (omega (arith, r.valid.block, r.roomy, body_len))
              ∙ r.valid.block;
          within = omega (arith, r.roomy);
          small = r.valid.small;
        };
        length_is = refl;
        before =
            ap (λ l. take p l) whole
            ∙ take-append_le p (take (p + a) r.after.buf) body
                (omega (arith, length-take (p + a) r.after.buf, r.valid.block, r.roomy))
            ∙ take-take p (p + a) r.after.buf (omega arith)
            ∙ sym (front r.valid p (omega arith))
            ∙ ap (λ l. take p l) r.holds;
        behind =
            ap (λ l. drop (p + a) l) whole
            ∙ ap (λ k. drop k (take (p + a) r.after.buf ++ body))
                (omega (arith, length-take (p + a) r.after.buf, r.valid.block, r.roomy))
            ∙ drop-append_add (take (p + a) r.after.buf) body 0
            ∙ ap (λ k. bytes_at r.after.buf (p + 2) k) (omega (arith, same))
            ∙ sym (back r.valid (p + 2) (omega (arith, same)))
            ∙ ap (λ l. drop (p + 2) l) r.holds;
      }

  pub place_lem : Placed m o p n a
  place_lem = elim (Bool-cases (a == 2)) [
    | inl e ↦ place_same ((==_iff a 2).0 e)
    | inr ne ↦ place_moved ne (reserve_lem m v (p + a + n) (omega arith))
  ]
