-- ===== src/Stream/RoundTrip.antt =====
-- Whatever source/bee/common/marshal.h writes at the end of a stream, the matching call reads back.
use cassobee.Base.{
  ℕ, ◌+◌, ◌^◌, ◌≡◌, ◌≤◌, ◌<◌, ◌∙◌, ap, sym, refl, arith, Option, some, List, [], ◌++◌, length,
  length-append, append-nil, word, drop, drop-append_add,
}
use mathlib.Core.List.{reverse}
use cassobee.Octets.{Memory}
use cassobee.Octets.Inv.{IsValid, contents, length-contents}
use cassobee.Varint.{write_varint, encode_zigzag16, encode_zigzag32, encode_zigzag64}
use cassobee.Varint.ZigZag.{encode_zigzag-lt}
use cassobee.Varint.Write.{write_varint-groups, length-groups}
use cassobee.Stream.{
  Stream, M, unread, pop_pod, pop_string, pop_container, push_pod, push_string, push_container,
  max_size, Layout, push_compactu16, push_compactu32, push_compactu64, push_compact16,
  push_compact32, push_compact64, pop_compactu16, pop_compactu32, pop_compactu64, pop_compact16,
  pop_compact32, pop_compact64,
}
use cassobee.Stream.Effects.{Pushes, Pops, append_data-Pushes, limit, len-Wrote}
use cassobee.Stream.Integers.{Codec, u16, u32, u64, i16, i32, i64}
use cassobee.Stream.Sequences.{pop_pod-Pops, pop_string-Pops, length-reverse}
use cassobee.Stream.Containers.{
  pop_container-Pops, push_container-Pushes, container_bytes, item_bytes, ItemsFit, Room, Room-word,
}
use cassobee.Stream.Codecs.{push_string-Pushes}

-- `push` throws nothing, and `pop` reads back the value `a` that it wrote. Nothing is left to read.
abbrev pub ReadBack : {A : Type 0} → (A → M (Unit {0})) → M A → A → Stream → Type 0
ReadBack push pop a s =
    (s' : Stream) × (push a s ≡ (some tt, s'))
    × (pop s' ≡ (some a, record s' { pos = s'.content.len }))
    × IsValid s'.content

-- An integer takes ten bytes at most.
ten : (v : ℕ) → v < word → length (write_varint v []) ≤ 10
ten v h = rw (write_varint-groups v [] h) (length-groups 9 v).1

-- At the end of a stream that is read up to there.
module _ (m : Memory) (s : Stream) (v : IsValid s.content) (end : s.pos ≡ s.content.len) where
  read_back :
      {A : Type 0} (push : A → M (Unit {0})) (pop : M A) (a : A) (bytes : List ℕ)
      → Pushes (push a) bytes
      → Pops pop bytes a
      → s.content.len + length bytes ≤ limit
      → ReadBack push pop a s
  read_back push pop a bytes hp hq low =
      let (s', e, w) = hp s v low in
      let len' : s'.content.len ≡ s.content.len + length bytes = len-Wrote bytes v w in
      let left : unread s' ≡ bytes ++ [] =
        ap (λ c. drop s'.pos c) w.holds
        ∙ ap (λ k. drop k (contents s.content ++ bytes))
            (omega (arith, w.pos_kept, end, length-contents v))
        ∙ drop-append_add (contents s.content) bytes 0
        ∙ sym (append-nil bytes) in
      (
        s',
        e,
        hq s' [] w.valid (omega (arith, w.pos_kept, end, len')) left
            ∙ ap (λ (p : ℕ). (some a, record s' { pos = p }))
                (omega (arith, w.pos_kept, end, len')),
        w.valid,
      )

  number :
      (c : Codec ℕ) (n code : ℕ)
      → c.Fits n
      → c.bytes n ≡ write_varint code []
      → code < word
      → s.content.len + 10 ≤ limit
      → ReadBack (c.push m) c.pop n s
  number c n code h e low room =
      read_back (c.push m) c.pop n (c.bytes n) (c.pushes m n h) (c.pops n h)
        (omega (arith, ten code low, ap (length {A = ℕ}) e))

  -- At the end of a stream that is read up to there and has room for ten more bytes, a number of
  -- 16, of 32 and of 64 bits, written as an unsigned or as a signed one, is read back as it was
  -- written, and nothing is left to read.
  pub integers_round_trip :
      (a b c : ℕ)
      → a < 2 ^ 16
      → b < 2 ^ 32
      → c < word
      → s.content.len + 10 ≤ limit
      → ReadBack (push_compactu16 m) pop_compactu16 a s
        × ReadBack (push_compact16 m) pop_compact16 a s
        × ReadBack (push_compactu32 m) pop_compactu32 b s
        × ReadBack (push_compact32 m) pop_compact32 b s
        × ReadBack (push_compactu64 m) pop_compactu64 c s
        × ReadBack (push_compact64 m) pop_compact64 c s
  unfolding encode_zigzag16 encode_zigzag32 encode_zigzag64
  integers_round_trip a b c ha hb hc room = (
    number u16 a a ha refl (omega arith) room,
    number i16 a (encode_zigzag16 a) ha refl (omega (arith, encode_zigzag-lt 15 a ha)) room,
    number u32 b b hb refl (omega arith) room,
    number i32 b (encode_zigzag32 b) hb refl (omega (arith, encode_zigzag-lt 31 b hb)) room,
    number u64 c c hc refl hc room,
    number i64 c (encode_zigzag64 c) hc refl (encode_zigzag-lt 63 c hc) room,
  )

  -- At the end of a stream that is read up to there and has room, a string of at most 2 ^ 63 - 1
  -- bytes is read back byte for byte, and so are the bytes of a floating-point number, which are
  -- stored in network order.
  pub bytes_round_trip :
      (bytes : List ℕ)
      → length bytes ≤ max_size
      → s.content.len + 10 + length bytes ≤ limit
      → ReadBack (push_string m) pop_string bytes s
        × ReadBack (push_pod m) (pop_pod (length bytes)) bytes s
  bytes_round_trip bytes h room = (
    read_back (push_string m) pop_string bytes _ (push_string-Pushes m bytes)
        (pop_string-Pops bytes h)
        (omega (
          arith,
          length-append (write_varint (length bytes) []) bytes,
          ten (length bytes) (omega arith),
        )),
    read_back (push_pod m) (pop_pod (length bytes)) bytes (reverse bytes)
        (unfold push_pod in append_data-Pushes m (reverse bytes)) (pop_pod-Pops bytes)
        (omega (arith, length-reverse bytes)),
  )

  -- At the end of a stream that is read up to there and has room, a container is read back element for element, in the
  -- same order, both where its elements are stored one by one, each of a kind that is read back from its own bytes, and
  -- where they are PODs of a contiguous container, stored as one block of less than 2 ^ 64 bytes. There are less than
  -- 2 ^ 64 elements, and no more than reserve allows, where the container has it.
  pub container_round_trip :
      {A : Type 0} (c : Codec A) (most : Option ℕ) (layout : Layout A) (xs : List A)
      → ItemsFit c layout xs
      → Room c most (length xs)
      → s.content.len + 10 + length (item_bytes c layout xs) ≤ limit
      → ReadBack (push_container m layout (c.push m)) (pop_container most layout c.pop) xs s
  container_round_trip c most layout xs h low room =
      read_back (push_container m layout (c.push m)) (pop_container most layout c.pop) xs
        (container_bytes c layout xs) (push_container-Pushes c m layout xs h)
        (pop_container-Pops c most layout xs h low)
        (omega (
          arith,
          length-append (write_varint (length xs) []) (item_bytes c layout xs),
          ten (length xs) (Room-word c most (length xs) low),
        ))
