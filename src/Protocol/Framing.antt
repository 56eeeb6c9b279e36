-- ===== src/Protocol/Framing.antt =====
-- What `protocol::decode` of source/bee/io/protocol.cpp makes of what `protocol::encode` wrote.
use cassobee.Base.{
  ℕ, ◌+◌, ◌/◌, ◌%◌, ◌^◌, ◌≡◌, ◌≤◌, ◌<◌, ◌∙◌, ap, sym, arith, none, some, List, [], ◌∷◌, ◌++◌,
  length, take, drop, take_all, append_assoc, append-nil, length-append, drop-append_add,
}
use mathlib.Core.Path.{ap₂}
use cassobee.Varint.{write_varint, read_varint, get_compact_int_size}
use cassobee.Varint.Write.{groups, write_varint-groups}
use cassobee.Varint.Read.{behind_last, read_varint-behind_last}
use cassobee.Varint.Size.{compact_size}
use cassobee.Octets.{Memory}
use cassobee.Octets.Inv.{IsValid, contents, length-contents}
use cassobee.Stream.{Stream, unread, size}
use cassobee.Stream.Effects.{Pushes, Pops, Wrote, limit, len-Wrote, unread_after, pos_inside}
use cassobee.SessionState.{Status}
use cassobee.Protocol.{Kind, Protocol, init_session, Stubs, get_protocol, encode, decode}
use cassobee.Protocol.Frame.{size_bytes, frame, encode-frame}
use cassobee.Protocol.Decode.{decode-some, inside}

-- Below 2 ^ 14 the size is written whole.
pub size_whole : (n : ℕ) → n < 2 ^ 14 → size_bytes n ≡ write_varint n []
size_whole n small =
    take_all (get_compact_int_size 64 n) (write_varint n [])
      (omega (arith, (compact_size n (omega arith)).1 small))

module _ {Body : Type 0} (k : Kind Body) (stubs : Stubs Body) (ses : Status) (id : ℕ)
    (stub : Protocol Body) (p : Body) (body : List ℕ) where
  module _ (small : id < 2 ^ 32) (there : get_protocol id stubs ≡ some stub)
      (short : length body < 2 ^ 14) (unpacks : Pops (k.unpack stub.body) body p) where
    -- A frame at the read position, of a registered type below 2 ^ 32 and with a body of less than
    -- 2 ^ 14 bytes that `unpack` reads, is decoded to a copy of the stub with the ids of the
    -- session, whatever follows it. The read position moves behind the frame.
    pub decode-frame :
        (s : Stream) (rest : List ℕ)
        → IsValid s.content
        → s.pos ≤ size s
        → unread s ≡ frame id body ++ rest
        → decode k stubs s ses ≡ (
          some (some (record (init_session (some ses) stub) { body = p })),
          record s { pos = s.pos + length (frame id body); transpos = s.pos },
          ses,
        )
    decode-frame s rest v at e =
        let ids : List ℕ = write_varint id [] in
        let ns : List ℕ = write_varint (length body) [] in
        let whole : size_bytes (length body) ≡ ns = size_whole (length body) short in
        let parts : unread s ≡ ids ++ (ns ++ (body ++ rest)) =
          e
          ∙ ap (λ l. (ids ++ (l ++ body)) ++ rest) whole
          ∙ append_assoc ids (ns ++ body) rest
          ∙ ap (λ l. ids ++ l) (append_assoc ns body rest) in
        let h : ℕ = length ids + length ns in
        let front : unread s ≡ (ids ++ ns) ++ (body ++ rest) =
          parts ∙ sym (append_assoc ids ns (body ++ rest)) in
        let behind : unread (inside s h) ≡ body ++ rest =
          ap (λ j. drop (s.pos + j) (contents s.content)) (sym (length-append ids ns))
          ∙ unread_after s (ids ++ ns) (body ++ rest) front in
        let inner : s.pos + h ≤ size s =
          omega (arith, pos_inside s (ids ++ ns) (body ++ rest) v at front, length-append ids ns) in
        decode-some k stubs ses s v at id (length body) (body ++ rest) small (omega arith) parts
          stub there (omega (arith, length-append body rest)) p
          (record (inside s h) { pos = s.pos + h + length body })
          (unpacks (inside s h) rest v inner behind)
        ∙ ap
            (λ (q : ℕ). (
              some (some (record (init_session (some ses) stub) { body = p })),
              record s { pos = q; transpos = s.pos },
              ses,
            ))
            (omega (
              arith,
              length-append ids (size_bytes (length body) ++ body),
              length-append (size_bytes (length body)) body,
              ap (length {A = ℕ}) whole,
            ))

    -- What `encode` appends to a stream that is read up to its end, `decode` takes from it, and
    -- nothing is left to read: for a registered type below 2 ^ 32, a body of less than 2 ^ 14
    -- bytes that `pack` writes and `unpack` reads, and a stream with room for it.
    pub decode-encode :
        (m : Memory) (s : Stream)
        → Pushes (k.pack m p) body
        → k.get_type p ≡ id
        → IsValid s.content
        → s.pos ≡ s.content.len
        → s.content.len + 30 + length body ≤ limit
        → decode k stubs (encode k m p s) ses ≡ (
          some (some (record (init_session (some ses) stub) { body = p })),
          record (encode k m p s) { pos = size (encode k m p s); transpos = s.pos },
          ses,
        )
    decode-encode m s packs named v end room =
        let w : Wrote s (encode k m p s) (frame (k.get_type p) body) =
          encode-frame k m p body packs (omega (arith, named)) s v room in
        let len' : size (encode k m p s) ≡ s.content.len + length (frame id body) =
          rw (sym named) (len-Wrote (frame (k.get_type p) body) v w) in
        let left : unread (encode k m p s) ≡ frame id body ++ [] =
          ap (λ c. drop (encode k m p s).pos c) w.holds
          ∙ ap (λ j. drop j (contents s.content ++ frame (k.get_type p) body))
              (omega (arith, w.pos_kept, end, length-contents v))
          ∙ drop-append_add (contents s.content) (frame (k.get_type p) body) 0
          ∙ ap (λ i. frame i body) named
          ∙ sym (append-nil (frame id body)) in
        decode-frame (encode k m p s) [] w.valid (omega (arith, w.pos_kept, end, len')) left
        ∙ ap
            (λ (x : ℕ × ℕ). (
              some (some (record (init_session (some ses) stub) { body = p })),
              record (encode k m p s) { pos = x.0; transpos = x.1 },
              ses,
            ))
            (ap₂ (λ (a b : ℕ). (a, b)) (omega (arith, w.pos_kept, end, len')) w.pos_kept)

-- The two bytes that are left of a size of three bytes both say that another one follows.
two_groups :
    (n : ℕ) → 2 ^ 14 ≤ n → take 2 (groups 9 n) ≡ (n % 128 + 128) ∷ (n / 128 % 128 + 128) ∷ []
unfolding groups
two_groups n h = ground arith

-- Of the size of a body of 2 ^ 14 bytes or more, but less than 2 ^ 15, `read_varint` fails on the
-- bytes that `encode` writes.
pub size_cut : (n : ℕ) → 2 ^ 14 ≤ n → n < 2 ^ 15 → (read_varint (size_bytes n)).0 ≡ none
unfolding behind_last
size_cut n lo hi =
    let two : get_compact_int_size 64 n ≡ 2 = ((compact_size n (omega arith)).2 lo hi).0 in
    let cut : size_bytes n ≡ (n % 128 + 128) ∷ (n / 128 % 128 + 128) ∷ [] =
      ap (λ j. take j (write_varint n [])) two
      ∙ ap (λ l. take 2 l) (write_varint-groups n [] (omega arith))
      ∙ two_groups n lo in
    rw cut (
      (read_varint-behind_last ((n % 128 + 128) ∷ (n / 128 % 128 + 128) ∷ []) (omega arith)).0
      ∙ ground arith)
