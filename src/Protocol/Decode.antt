-- ===== src/Protocol/Decode.antt =====
-- `protocol::decode` of source/bee/io/protocol.cpp on a whole frame, on a part of one, and on what is no frame.
use cassobee.Base.{
  ℕ, ◌+◌, ◌-◌, ◌^◌, ◌≡◌, ◌≤◌, ◌<◌, ◌∙◌, ap, sym, refl, arith, none, some, List, [], ◌++◌, length,
  All, word, length-append, leb, true, false,
}
use cassobee.Octets.Inv.{IsValid}
use cassobee.Varint.Write.{write_varint-groups, length-groups}
use cassobee.Varint.{IsByte, write_varint}
use cassobee.Varint.Read.{behind_last}
use cassobee.Stream.{
  Stream, return, size, unread, data_ready, transact, rollback, pop_compactu32, pop_compactu64,
}
use cassobee.Stream.Effects.{>>=-some, >>=-none, unread_after, pos_inside}
use cassobee.Stream.Integers.{pop_compactu32-Pops, pop_compactu64-Pops}
use cassobee.Stream.Transactions.{
  rollback_to, pop_compact-none, pop_compactu32-none, pop_compactu64-none,
}
use cassobee.SessionState.{Status, set_close, by_exception}
use cassobee.Protocol.{
  Kind, Protocol, init_session, Stubs, get_protocol, Attempt, waiting, decode_body, attempt,
  conclude, rolled, decode,
}

-- The stream that is taken to stand inside a frame, `n` bytes behind its begin.
abbrev pub inside : Stream → ℕ → Stream
inside s n = record s { pos = s.pos + n; transpos = s.pos }

pub data_ready-le :
    (n : ℕ) (s : Stream)
    → IsValid s.content
    → s.pos ≤ size s
    → data_ready n s ≡ leb n (size s - s.pos)
unfolding data_ready
data_ready-le n s v at = ap (λ k. leb n k) (omega (arith, v.within, v.small))

-- Without a byte to read nothing is decoded.
pub decode_nothing :
    {Body : Type 0} (k : Kind Body) (stubs : Stubs Body) (ses : Status) (s : Stream)
    → data_ready 1 s ≡ false
    → decode k stubs s ses ≡ (some none, s, ses)
unfolding decode
decode_nothing k stubs ses s nothing = rw nothing refl

module _ {Body : Type 0} (k : Kind Body) (stubs : Stubs Body) (ses : Status) (s : Stream)
    (v : IsValid s.content) (at : s.pos ≤ size s) where
  module _ (id n : ℕ) (rest : List ℕ) (small : id < 2 ^ 32) (low : n < word)
      (e : unread s ≡ write_varint id [] ++ (write_varint n [] ++ rest)) where
    abbrev header : ℕ
    header = length (write_varint id []) + length (write_varint n [])

    -- The two numbers of the header are read, and `decode_body` goes on behind them.
    header_read : attempt k stubs ses s ≡ decode_body k stubs ses id n (inside s header)
    unfolding attempt transact
    header_read =
        let s₀ : Stream = record s { transpos = s.pos } in
        let ids : List ℕ = write_varint id [] in
        let s₁ : Stream = record s₀ { pos = s.pos + length ids } in
        let total : s.pos + length ids + length (write_varint n [] ++ rest) ≡ size s =
          pos_inside s ids (write_varint n [] ++ rest) v at e in
        >>=-some pop_compactu32 _ s₀
          (pop_compactu32-Pops id small s₀ (write_varint n [] ++ rest) v at e)
        ∙ >>=-some pop_compactu64 _ s₁ (
            pop_compactu64-Pops n low s₁ rest v (omega (arith, total))
              (unread_after s ids (write_varint n [] ++ rest) e))
        ∙ ap (λ (p : ℕ). decode_body k stubs ses id n (record s₀ { pos = p })) (omega arith)

    -- How many bytes stand behind the header.
    left : size s - (s.pos + header) ≡ length rest
    left = omega (
      arith,
      pos_inside s (write_varint id []) (write_varint n [] ++ rest) v at e,
      length-append (write_varint n []) rest,
    )

    header_inside : s.pos + header ≤ size s
    header_inside = omega (
      arith,
      pos_inside s (write_varint id []) (write_varint n [] ++ rest) v at e,
      length-append (write_varint n []) rest,
    )

    started : data_ready 1 s ≡ true
    started =
        data_ready-le 1 s v at
        ∙ ground (arith, header_inside, write_varint-groups id [] (omega arith), length-groups 9 id)

    ready : leb n (length rest) ≡ data_ready n (inside s header)
    ready = sym (data_ready-le n (inside s header) v header_inside ∙ ap (λ t. leb n t) left)

    concluded : decode k stubs s ses ≡ conclude ses (decode_body k stubs ses id n (inside s header))
    unfolding decode
    concluded = rw started (ap (conclude ses) header_read)

    taken_back : transact rollback (inside s header) ≡ (some tt, record s { transpos = s.pos })
    taken_back = rollback_to (inside s header) s refl refl at

    -- Where the header of a frame has arrived whole, with a type below 2 ^ 32 and a size below 2 ^
    -- 64, but not all of the body, `decode` gives no protocol. The read position, the bytes and
    -- the session are as before.
    pub decode_waits :
        length rest < n → decode k stubs s ses ≡ (some none, record s { transpos = s.pos }, ses)
    unfolding decode_body
    decode_waits short =
        let late : data_ready n (inside s header) ≡ false = sym ready ∙ ground arith in
        concluded
        ∙ rw late (
            ap (conclude ses) (
              >>=-some (transact rollback) (λ (u : Unit {0}). return {A = Attempt Body} waiting)
                (inside s header) taken_back))

    -- A frame that has arrived whole, with a type below 2 ^ 32 that is not registered, gives no
    -- protocol and stays at the read position. The session is not closed.
    pub decode_unknown :
        n ≤ length rest
        → get_protocol id stubs ≡ none
        → decode k stubs s ses ≡ (some none, record s { transpos = s.pos }, ses)
    unfolding decode_body
    decode_unknown whole absent =
        let here : data_ready n (inside s header) ≡ true = sym ready ∙ ground arith in
        concluded ∙ rw (here, absent) (ap (rolled ses) taken_back)

    module _ (stub : Protocol Body) (there : get_protocol id stubs ≡ some stub)
        (whole : n ≤ length rest) where
      pub decode-some :
          (b : Body) (s' : Stream)
          → k.unpack stub.body (inside s header) ≡ (some b, s')
          → decode k stubs s ses
            ≡ (some (some (record (init_session (some ses) stub) { body = b })), s', ses)
      unfolding decode_body
      decode-some b s' u =
          let here : data_ready n (inside s header) ≡ true = sym ready ∙ ground arith in
          concluded
          ∙ rw (here, there)
              (ap (conclude ses) (>>=-some (k.unpack stub.body) _ (inside s header) u))

      -- Where `unpack` throws on a frame that has arrived whole, having changed neither the bytes
      -- nor the position to roll back to, `decode` gives no protocol, closes the session with an
      -- exception, and leaves the read position at the header.
      pub decode_throws :
          (s' : Stream)
          → k.unpack stub.body (inside s header) ≡ (none, s')
          → s'.content ≡ s.content
          → s'.transpos ≡ s.pos
          → decode k stubs s ses
            ≡ (some none, record s { transpos = s.pos }, set_close by_exception ses)
      unfolding decode_body
      decode_throws s' u ec et =
          let here : data_ready n (inside s header) ≡ true = sym ready ∙ ground arith in
          concluded
          ∙ rw (here, there)
              (ap (conclude ses) (>>=-none (k.unpack stub.body) _ (inside s header) u)
                ∙ ap (rolled (set_close by_exception ses)) (rollback_to s' s ec et at))

  module _ (started : data_ready 1 s ≡ true) where
    given_up :
        (t : Stream)
        → attempt k stubs ses s ≡ (none, t)
        → t.content ≡ s.content
        → t.transpos ≡ s.pos
        → decode k stubs s ses
          ≡ (some none, record s { transpos = s.pos }, set_close by_exception ses)
    unfolding decode
    given_up t e ec et =
        rw started (
          ap (conclude ses) e ∙ ap (rolled (set_close by_exception ses)) (rollback_to t s ec et at))

    -- Where there is a byte to read, but no byte below 128 among the first ten, that is, where the
    -- first number of a header has not arrived whole, `decode` closes the session with an
    -- exception. The read position is as before.
    pub decode_cut_id :
        All IsByte (unread s)
        → behind_last 10 (unread s) ≡ none
        → decode k stubs s ses
          ≡ (some none, record s { transpos = s.pos }, set_close by_exception ses)
    unfolding attempt transact
    decode_cut_id bytes cut =
        let s₀ : Stream = record s { transpos = s.pos } in
        given_up s₀
          (>>=-none pop_compactu32 _ s₀ (pop_compactu32-none s₀ (pop_compact-none s₀ bytes cut)))
          refl refl

    -- Where the first number of a header, below 2 ^ 32, has arrived, and no byte below 128 is
    -- among the ten that follow it, `decode` closes the session with an exception. The read
    -- position is as before.
    pub decode_cut_size :
        (id : ℕ) (rest : List ℕ)
        → id < 2 ^ 32
        → unread s ≡ write_varint id [] ++ rest
        → All IsByte rest
        → behind_last 10 rest ≡ none
        → decode k stubs s ses
          ≡ (some none, record s { transpos = s.pos }, set_close by_exception ses)
    unfolding attempt transact
    decode_cut_size id rest small e bytes cut =
        let s₀ : Stream = record s { transpos = s.pos } in
        let s₁ : Stream = record s₀ { pos = s.pos + length (write_varint id []) } in
        let behind : unread s₁ ≡ rest = unread_after s (write_varint id []) rest e in
        given_up s₁
          (>>=-some pop_compactu32 _ s₀ (pop_compactu32-Pops id small s₀ rest v at e)
            ∙ >>=-none pop_compactu64 _ s₁ (
                pop_compactu64-none s₁
                  (pop_compact-none s₁ (rw behind bytes) (ap (behind_last 10) behind ∙ cut))))
          refl refl
