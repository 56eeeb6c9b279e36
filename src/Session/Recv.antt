-- ===== src/Session/Recv.antt =====
-- `session::on_recv` of source/bee/io/session.cpp: what moves from `_readbuf` to `_reados`, and where
-- nothing does.
use cassobee.Base.{
  ℕ, zero, suc, ◌-◌, ◌≡◌, ◌≤◌, ◌<◌, ◌∙◌, ap, sym, refl, arith, min, some, ◌>>=◌, List, [], ◌∷◌,
  ◌++◌, length, take, drop, All, sub64, Option, length-take, take-take,
}
use cassobee.Octets.{Memory, Octets, free_space, append, erase}
use cassobee.Octets.Inv.{IsValid, contents, length-contents, Outcome}
use cassobee.Octets.Append.{append_lem, append_nothing}
use cassobee.Octets.Edits.{erase_lem}
use cassobee.Stream.{Stream, unread, try_shrink}
use cassobee.Stream.Transactions.{try_shrink_small}
use cassobee.SessionState.{set_state, recving}
use cassobee.Protocol.{Kind, Protocol, Stubs}
use cassobee.Session.{Session, activate, refill, on_recv, drain, Drained, settle, returned}
use cassobee.Session.Drain.{drain_none}

-- The session after `n` bytes have moved from the front of one buffer to the end of the other.
pub record Refilled (m : Memory) (s : Session) (n : ℕ) : Type 0 where
  pub after : Session
  pub returns : refill m s ≡ some after
  pub reados_valid : IsValid after.reados.content
  pub readbuf_valid : IsValid after.readbuf
  pub reados_holds :
      contents after.reados.content ≡ contents s.reados.content ++ take n (contents s.readbuf)
  pub readbuf_holds : contents after.readbuf ≡ drop n (contents s.readbuf)
  pub pos_kept : after.reados.pos ≡ s.reados.pos

module _ (m : Memory) (s : Session) (v : IsValid s.reados.content) (w : IsValid s.readbuf) where
  abbrev room : ℕ
  room = min s.readbuf.len (free_space s.reados.content)

  room_is : room ≡ min s.readbuf.len (s.reados.content.cap - s.reados.content.len)
  unfolding free_space
  room_is = omega (arith, v.within, v.small)

  -- From a valid `_readbuf` to a valid `_reados` as many bytes move as the block of `_reados` has
  -- room for, and nothing is thrown. The bytes stay in their order and none is lost.
  pub refill_lem : Refilled m s (min s.readbuf.len (s.reados.content.cap - s.reados.content.len))
  unfolding refill
  refill_lem =
      let n : ℕ = min s.readbuf.len (s.reados.content.cap - s.reados.content.len) in
      let front : take n (contents s.readbuf) ≡ take n s.readbuf.buf =
        take-take n s.readbuf.len s.readbuf.buf (omega arith) in
      let r : Outcome (append m s.reados.content (take n s.readbuf.buf)) _ _ =
        append_lem m v (take n s.readbuf.buf)
          (omega (arith, length-take n s.readbuf.buf, v.within, v.small)) in
      let (valid, kept) = erase_lem w 0 n in
      record {
        after = record s {
          reados = record (s.reados) { content = r.after };
          readbuf = erase s.readbuf 0 n;
        };
        returns =
            ap
              (λ (j : ℕ). append m s.reados.content (take j s.readbuf.buf) >>= λ o. some (record s {
                reados = record (s.reados) { content = o };
                readbuf = erase s.readbuf 0 j;
              }))
              room_is
            ∙ ap
                (λ x. x >>= λ o. some (record s {
                  reados = record (s.reados) { content = o };
                  readbuf = erase s.readbuf 0 n;
                }))
                r.returns;
        reados_valid = r.valid;
        readbuf_valid = valid;
        reados_holds = r.holds ∙ ap (λ l. contents s.reados.content ++ l) (sym front);
        readbuf_holds = kept ∙ ap (λ j. drop j (contents s.readbuf)) (omega arith);
        pos_kept = refl;
      }

drop-everything : (n : ℕ) (xs : List ℕ) → length xs ≤ n → drop n xs ≡ []
drop-everything zero [] h = refl
drop-everything zero (x ∷ xs) h = absurd (omega arith)
drop-everything (suc n) [] h = refl
drop-everything (suc n) (x ∷ xs) h = drop-everything n xs (omega arith)

erase_nothing : {b : Octets} → IsValid b → contents (erase b 0 0) ≡ contents b
erase_nothing {b} v = (erase_lem v 0 0).1

-- A session whose `_reados` has no room and no byte that is not read, in a block of at most 2 ^ 20 bytes.
pub record Stalled (s : Session) : Type 0 where
  pub valid : IsValid s.reados.content
  pub full : s.reados.content.len ≡ s.reados.content.cap
  pub all_read : s.reados.pos ≡ s.reados.content.len
  pub small : s.reados.content.cap ≤ 0x100000

module _ {Body : Type 0} (k : Kind Body) (stubs : Stubs Body) (m : Memory) (fuel : ℕ) where
  -- Calls of `on_recv`, each at its time and with what `_readbuf` holds by then: the protocols that run, what is left in
  -- `_readbuf` after each call, and the session.
  unfoldable pub receive_each :
      List (ℕ × Octets) → Session → Option (List (Protocol Body) × List (List ℕ) × Session)
  receive_each [] s = some ([], [], s)
  receive_each ((now, b) ∷ calls) s = on_recv k stubs m fuel now (record s { readbuf = b }) >>= λ r.
      receive_each calls r.1 >>= λ rest.
      some (r.0.ran ++ rest.0, contents r.1.readbuf ∷ rest.1, rest.2)

  abbrev pub contents_of : List (ℕ × Octets) → List (List ℕ)
  contents_of [] = []
  contents_of ((now, b) ∷ calls) = contents b ∷ contents_of calls

  abbrev begun : ℕ → Session → Session
  begun now s = record s { status = set_state recving s.status; last_active = now }

  -- Behind a call: `_reados` is the same.
  abbrev untouched : ℕ → Session → Session
  untouched now s = record (begun now s) { readbuf = erase s.readbuf 0 0 }

  refill-begun :
      (now : ℕ) (s : Session) → Stalled s → refill m (begun now s) ≡ some (untouched now s)
  unfolding refill free_space
  refill-begun now s h =
      ap
        (λ (j : ℕ). append m s.reados.content (take j s.readbuf.buf) >>= λ o.
          some (record (begun now s) {
            reados = record (s.reados) { content = o };
            readbuf = erase s.readbuf 0 j;
          }))
        no_room
      ∙ ap
          (λ x. x >>= λ o. some (record (begun now s) {
            reados = record (s.reados) { content = o };
            readbuf = erase s.readbuf 0 0;
          }))
          (append_nothing m h.valid)
    where
      no_room : min s.readbuf.len (sub64 s.reados.content.cap s.reados.content.len) ≡ 0
      no_room = omega (arith, h.full, h.valid.small)

  on_recv-Stalled :
      (now : ℕ) (s : Session)
      → 0 < fuel
      → Stalled s
      → (d : Drained Body) × (on_recv k stubs m fuel now s ≡ some (d, untouched now s))
        × (d.ran ≡ [])
  unfolding on_recv activate
  on_recv-Stalled now s more h =
      let t : Stream = s.reados in
      let end : unread t ≡ [] =
        drop-everything t.pos (contents t.content)
          (omega (arith, length-contents h.valid, h.all_read)) in
      let kept : try_shrink t ≡ t =
        try_shrink_small t (omega (arith, h.all_read, h.full, h.small)) in
      let status = set_state recving s.status in
      let fuel_is : fuel ≡ suc (fuel - 1) = omega arith in
      (
        record { ran = []; stream = t; status = status; ending = returned },
        ap (λ x. x >>= λ s₂. some (settle k stubs s₂ (drain k stubs fuel s₂.reados s₂.status)))
              (refill-begun now s h)
            ∙ ap (λ (n : ℕ). some (settle k stubs (untouched now s) (drain k stubs n t status)))
                fuel_is
            ∙ ap (λ d. some (settle k stubs (untouched now s) d))
                (drain_none k stubs (fuel - 1) t status h.valid (omega (arith, h.all_read)) end)
            ∙ ap
                (λ (x : Stream). some (
                  record { ran = []; stream = t; status = status; ending = returned },
                  record (untouched now s) { reados = x },
                ))
                kept,
        refl,
      )

  -- A session whose `_reados` is full, with all bytes read and a capacity of at most 2 ^ 20, never receives again: at
  -- whatever times and with whatever valid `_readbuf` on_recv is called, any number of times, it runs nothing, `_readbuf`
  -- keeps its bytes, and `_reados` stays as it is. The fuel of each call is one at least.
  pub receive_each-Stalled :
      (calls : List (ℕ × Octets)) (s : Session)
      → 0 < fuel
      → Stalled s
      → All (λ c. IsValid c.1) calls
      → (s' : Session) × (receive_each calls s ≡ some ([], contents_of calls, s'))
        × (s'.reados ≡ s.reados)
  unfolding receive_each
  receive_each-Stalled [] s more h v = (s, refl, refl)
  receive_each-Stalled ((now, b) ∷ calls) s more h (valid, v) =
      let holding : Session = record s { readbuf = b } in
      let once =
        on_recv-Stalled now holding more
          (record { valid = h.valid; full = h.full; all_read = h.all_read; small = h.small }) in
      let later =
        receive_each-Stalled calls (untouched now holding) more
          (record { valid = h.valid; full = h.full; all_read = h.all_read; small = h.small }) v in
      let kept : contents (erase b 0 0) ≡ contents b = erase_nothing valid in
      (later.0, rw (once.1, later.1, once.2, kept) refl, later.2)
