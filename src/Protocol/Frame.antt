-- ===== src/Protocol/Frame.antt =====
-- The frame that `protocol::encode` of source/bee/io/protocol.cpp appends, for every size of the body.
use cassobee.Base.{
  ℕ, ◌+◌, ◌≡◌, ◌≤◌, ◌<◌, ◌∙◌, ap, sym, refl, arith, Option, some, List, [], ◌++◌, length, take,
  drop, word, length-take, append_assoc, take-append_le, take_all, drop-append_add,
}
use mathlib.Core.Path.{ap₂, subst}
use cassobee.Varint.{write_varint, get_compact_int_size}
use cassobee.Varint.Write.{write_varint-groups, length-groups}
use cassobee.Varint.Size.{compact_size, compact_size_range, compact_size_2048}
use cassobee.Octets
use cassobee.Octets.{Octets, Memory}
use cassobee.Octets.Inv.{IsValid, contents, length-contents, Outcome}
use cassobee.Octets.Insert.{replace_within}
use cassobee.Stream.{Stream, size, push_compactu32, append_data}
use cassobee.Stream.Effects.{Pushes, Wrote, append_data-Pushes, len-Wrote, limit, >>=-some}
use cassobee.Stream.Integers.{push_compactu32-Pushes}
use cassobee.Protocol.{Kind, fill_size, encode_body, encode}
use cassobee.Protocol.Encode.{Placed, place_lem}

-- The size as it is written: as many bytes of the number as the size table says.
abbrev pub size_bytes : ℕ → List ℕ
size_bytes n = take (get_compact_int_size 64 n) (write_varint n [])

abbrev pub frame : ℕ → List ℕ → List ℕ
frame id body = write_varint id [] ++ (size_bytes (length body) ++ body)

pub length-size_bytes : (n : ℕ) → n < word → length (size_bytes n) ≡ get_compact_int_size 64 n
length-size_bytes n h =
    omega (arith, length-take (get_compact_int_size 64 n) (write_varint n []), compact_size n h)

-- The stream whose place of two bytes at `p` has become the size.
record Filled (m : Memory) (s : Stream) (p n : ℕ) : Type 0 where
  after : Stream
  returns : fill_size m 2 p (p + 2) n s ≡ (some tt, after)
  valid : IsValid after.content
  holds :
      contents after.content
      ≡ take p (contents s.content) ++ (size_bytes n ++ drop (p + 2) (contents s.content))
  pos_kept : after.pos ≡ s.pos
  transpos_kept : after.transpos ≡ s.transpos

module _ (m : Memory) (s : Stream) (p n : ℕ) (low : n < word) (v : IsValid s.content) where
  Filled-from :
      s.content.len ≡ p + 2 + n
      → Placed m s.content p n (get_compact_int_size 64 n)
      → Filled m s p n
  unfolding fill_size
  Filled-from len_is q =
      let hdr : length (size_bytes n) ≡ get_compact_int_size 64 n = length-size_bytes n low in
      let r : Outcome (Octets.replace m q.after p (size_bytes n)) _ q.after.cap =
        replace_within m q.valid p (size_bytes n) (omega (arith, compact_size_range n low))
          (omega (arith, q.length_is)) in
      record {
        after = record s { content = r.after };
        returns = rw (q.returns, r.returns, fill_size);
        valid = r.valid;
        holds =
            r.holds
            ∙ ap₂ (λ a b. a ++ (size_bytes n ++ b)) q.before
                (ap (λ k. drop (p + k) (contents q.after)) hdr ∙ q.behind);
        pos_kept = refl;
        transpos_kept = refl;
      }

  fill_size_lem : s.content.len ≡ p + 2 + n → s.content.len + 9 ≤ limit → Filled m s p n
  fill_size_lem len_is room =
      let (lo, hi) = compact_size_range n low in
      Filled-from len_is (place_lem m v p n (get_compact_int_size 64 n) len_is lo hi room)

-- The four cuts of what the stream holds when the place is filled.
regroup :
    (c ids place body hdr : List ℕ)
    → length place ≡ 2
    → take (length (c ++ ids)) (c ++ ids ++ place ++ body)
        ++ (hdr ++ drop (length (c ++ ids) + 2) (c ++ ids ++ place ++ body))
      ≡ c ++ (ids ++ (hdr ++ body))
regroup c ids place body hdr two =
    ap₂ (λ a b. a ++ (hdr ++ b))
      (ap (λ l. take (length (c ++ ids)) l) (append_assoc (c ++ ids) place body)
        ∙ take-append_le (length (c ++ ids)) (c ++ ids) (place ++ body) (omega arith)
        ∙ take_all (length (c ++ ids)) (c ++ ids) (omega arith))
      (ap (λ l. drop (length (c ++ ids) + 2) l) (append_assoc (c ++ ids) place body)
        ∙ drop-append_add (c ++ ids) (place ++ body) 2
        ∙ ap (λ k. drop k (place ++ body)) {x = 2} (omega (arith, two))
        ∙ drop-append_add place body 0)
    ∙ append_assoc c ids (hdr ++ body)

module _ {Body : Type 0} (k : Kind Body) (m : Memory) (p : Body) (body : List ℕ) where
  abbrev id : ℕ
  id = k.get_type p

  module _ (packs : Pushes (k.pack m p) body) (small : id < word) where
    -- The stream after the three calls that write, with a place of two bytes for the size.
    laid :
        (s : Stream)
        → IsValid s.content
        → s.content.len + 30 + length body ≤ limit
        → (s' : Stream) × ((encode_body k m p s) ≡ (some tt, s')) × Wrote s s' (frame id body)
    unfolding encode_body
    laid s v room =
        let ids : List ℕ = write_varint id [] in
        let place : List ℕ = m.fresh 2 in
        let two : length place ≡ 2 = m.length-fresh 2 in
        let ten : length ids ≤ 10 = rw (write_varint-groups id [] small) (length-groups 9 id).1 in
        let (s₁, e₁, w₁) = push_compactu32-Pushes m id s v (omega (arith, ten)) in
        let l₁ : s₁.content.len ≡ s.content.len + length ids = len-Wrote ids v w₁ in
        let (s₂, e₂, w₂) = append_data-Pushes m place s₁ w₁.valid (omega (arith, ten, l₁, two)) in
        let l₂ : s₂.content.len ≡ s₁.content.len + 2 =
          omega (arith, len-Wrote place w₁.valid w₂, two) in
        let (s₃, e₃, w₃) = packs s₂ w₂.valid (omega (arith, ten, l₁, l₂)) in
        let l₃ : s₃.content.len ≡ s₂.content.len + length body = len-Wrote body w₂.valid w₃ in
        let f : Filled m s₃ (size s₁) (length body) =
          fill_size_lem m s₃ (size s₁) (length body) (omega arith) w₃.valid (omega (arith, l₂, l₃))
            (omega (arith, ten, l₁, l₂, l₃)) in
        let held : contents s₃.content ≡ contents s.content ++ ids ++ place ++ body =
          w₃.holds ∙ ap (λ l. l ++ body) (w₂.holds ∙ ap (λ l. l ++ place) w₁.holds) in
        let start : size s₁ ≡ length (contents s.content ++ ids) =
          sym (length-contents w₁.valid) ∙ ap (length {A = ℕ}) w₁.holds in
        (
          f.after,
          rw compact_size_2048 (
              >>=-some (push_compactu32 m id) _ s e₁
              ∙ >>=-some (append_data m place) _ s₁ e₂
              ∙ >>=-some (k.pack m p) _ s₂ e₃
              ∙ ap₂ (λ prev n. fill_size m 2 (size s₁) prev n s₃) l₂
                  (omega (arith, l₃, w₃.valid.within, w₃.valid.small))
              ∙ f.returns),
          record {
            valid = f.valid;
            holds =
                f.holds
                ∙ ap₂ (λ q c. take q c ++ (size_bytes (length body) ++ drop (q + 2) c)) start held
                ∙ regroup (contents s.content) ids place body (size_bytes (length body)) two;
            pos_kept = f.pos_kept ∙ w₃.pos_kept ∙ w₂.pos_kept ∙ w₁.pos_kept;
            transpos_kept =
                f.transpos_kept ∙ w₃.transpos_kept ∙ w₂.transpos_kept ∙ w₁.transpos_kept;
          },
        )

    -- Where `pack` writes `body`, the type is below 2 ^ 64, and 30 bytes more than the body find
    -- room below 2 ^ 63, `encode` appends the type, the size of the body cut to as many bytes as
    -- `get_compact_int_size` answers, and the body. It changes nothing else in the stream.
    pub encode-frame :
        (s : Stream)
        → IsValid s.content
        → s.content.len + 30 + length body ≤ limit
        → Wrote s (encode k m p s) (frame id body)
    unfolding encode
    encode-frame s v room =
        let (s', e, w) = laid s v room in
        subst (λ (r : Option (Unit {0}) × Stream). Wrote s r.1 (frame id body)) (sym e) w
