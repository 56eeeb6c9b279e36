-- ===== src/Stream/Integers.antt =====
-- The integers of source/bee/common/marshal.h: each is read back from the bytes that it is written as.
use cassobee.Base.{
  ℕ, suc, ◌+◌, ◌^◌, ◌%◌, ◌≤◌, ◌<◌, ◌∙◌, ap, arith, some, List, [], length, length-append, word,
}
use cassobee.Octets.{Memory}
use cassobee.Varint.{
  write_varint, read_varint, encode_zigzag, decode_zigzag, encode_zigzag16, decode_zigzag16,
  encode_zigzag32, decode_zigzag32, encode_zigzag64, decode_zigzag64,
}
use cassobee.Varint.ZigZag.{encode_zigzag-lt, zigzag_inverse}
use cassobee.Varint.Read.{read_varint-write_varint}
use cassobee.Stream.{
  M, ◌>>=◌, return, after_varint, pop_compact, pop_compactu16, pop_compactu32, pop_compactu64,
  pop_compact16, pop_compact32, pop_compact64, push_compact, push_compactu16, push_compactu32,
  push_compactu64, push_compact16, push_compact32, push_compact64,
}
use native.Mathlib.Nat.{mod-eq_of_lt}
use cassobee.Stream.Effects.{Pushes, Pops, append_data-Pushes, map-Pops, pos_inside}

-- A kind of value that a stream stores: the values that fit, their bytes, and the two calls, of which
-- one writes exactly these bytes and the other reads the value back from them.
pub record Codec (A : Type 0) : Type 1 where
  pub Fits : A → Type 0
  pub bytes : A → List ℕ
  pub push : Memory → A → M (Unit {0})
  pub pop : M A
  pub pushes : (m : Memory) (a : A) → Fits a → Pushes (push m a) (bytes a)
  pub pops : (a : A) → Fits a → Pops pop (bytes a) a

-- `pop_compact` reads back every 64-bit value that `push_compact` wrote.
pub pop_compact-Pops : (v : ℕ) → v < word → Pops pop_compact (write_varint v []) v
unfolding pop_compact
pop_compact-Pops v h s rest valid at e =
    ap (λ bs. after_varint s (read_varint bs)) e
    ∙ ap (after_varint s) (read_varint-write_varint v rest h)
    ∙ ap (λ (p : ℕ). (some v, record s { pos = p }))
        (omega (
          arith,
          ap (length {A = ℕ}) e,
          length-append (write_varint v []) rest,
          pos_inside s (write_varint v []) rest valid at e,
          valid.within,
          valid.small,
        ))

pub push_compact-Pushes : (m : Memory) (v : ℕ) → Pushes (push_compact m v) (write_varint v [])
unfolding push_compact
push_compact-Pushes m v = append_data-Pushes m (write_varint v [])

-- Narrowing what was read gives the value back, where it fits the narrower type.
narrow-Pops :
    (w v : ℕ)
    → v < 2 ^ w
    → 2 ^ w ≤ word
    → Pops (do tmp ← pop_compact; return (tmp % 2 ^ w)) (write_varint v []) v
narrow-Pops w v h le s rest valid at e =
    map-Pops pop_compact (λ t. t % 2 ^ w) (write_varint v []) v (pop_compact-Pops v (omega arith)) s
      rest valid at e
    ∙ ap (λ (t : ℕ). (some t, record s { pos = s.pos + length (write_varint v []) }))
        (mod-eq_of_lt h)

module _ (v : ℕ) where
  pub pop_compactu16-Pops : v < 2 ^ 16 → Pops pop_compactu16 (write_varint v []) v
  unfolding pop_compactu16
  pop_compactu16-Pops h = narrow-Pops 16 v h (omega arith)

  pub pop_compactu32-Pops : v < 2 ^ 32 → Pops pop_compactu32 (write_varint v []) v
  unfolding pop_compactu32
  pop_compactu32-Pops h = narrow-Pops 32 v h (omega arith)

  pub pop_compactu64-Pops : v < word → Pops pop_compactu64 (write_varint v []) v
  unfolding pop_compactu64
  pop_compactu64-Pops h = pop_compact-Pops v h

-- A signed value goes through its zigzag code.
signed-Pops :
    (k n : ℕ) (f : M ℕ)
    → n < 2 ^ suc k
    → Pops f (write_varint (encode_zigzag (suc k) n) []) (encode_zigzag (suc k) n)
    → Pops
        (do tmp ← f; return (decode_zigzag (suc k) tmp))
        (write_varint (encode_zigzag (suc k) n) [])
        n
signed-Pops k n f h p s rest valid at e =
    map-Pops f (decode_zigzag (suc k)) _ (encode_zigzag (suc k) n) p s rest valid at e
    ∙ ap
        (λ (t : ℕ).
          (some t, record s { pos = s.pos + length (write_varint (encode_zigzag (suc k) n) []) }))
        (zigzag_inverse k n h).0

module _ (n : ℕ) where
  pub pop_compact16-Pops : n < 2 ^ 16 → Pops pop_compact16 (write_varint (encode_zigzag16 n) []) n
  unfolding pop_compact16 encode_zigzag16 decode_zigzag16
  pop_compact16-Pops h =
      signed-Pops 15 n pop_compactu16 h (pop_compactu16-Pops _ (encode_zigzag-lt 15 n h))

  pub pop_compact32-Pops : n < 2 ^ 32 → Pops pop_compact32 (write_varint (encode_zigzag32 n) []) n
  unfolding pop_compact32 encode_zigzag32 decode_zigzag32
  pop_compact32-Pops h =
      signed-Pops 31 n pop_compactu32 h (pop_compactu32-Pops _ (encode_zigzag-lt 31 n h))

  pub pop_compact64-Pops : n < word → Pops pop_compact64 (write_varint (encode_zigzag64 n) []) n
  unfolding pop_compact64 encode_zigzag64 decode_zigzag64
  pop_compact64-Pops h =
      signed-Pops 63 n pop_compactu64 h (pop_compactu64-Pops _ (encode_zigzag-lt 63 n h))

module _ (m : Memory) (v : ℕ) where
  pub push_compactu16-Pushes : Pushes (push_compactu16 m v) (write_varint v [])
  unfolding push_compactu16
  push_compactu16-Pushes = push_compact-Pushes m v

  pub push_compactu32-Pushes : Pushes (push_compactu32 m v) (write_varint v [])
  unfolding push_compactu32
  push_compactu32-Pushes = push_compact-Pushes m v

  pub push_compactu64-Pushes : Pushes (push_compactu64 m v) (write_varint v [])
  unfolding push_compactu64
  push_compactu64-Pushes = push_compact-Pushes m v

  pub push_compact16-Pushes : Pushes (push_compact16 m v) (write_varint (encode_zigzag16 v) [])
  unfolding push_compact16 push_compactu16
  push_compact16-Pushes = push_compact-Pushes m (encode_zigzag16 v)

  pub push_compact32-Pushes : Pushes (push_compact32 m v) (write_varint (encode_zigzag32 v) [])
  unfolding push_compact32 push_compactu32
  push_compact32-Pushes = push_compact-Pushes m (encode_zigzag32 v)

  pub push_compact64-Pushes : Pushes (push_compact64 m v) (write_varint (encode_zigzag64 v) [])
  unfolding push_compact64 push_compactu64
  push_compact64-Pushes = push_compact-Pushes m (encode_zigzag64 v)

abbrev pub u16 : Codec ℕ
u16 = record {
  Fits = λ v. v < 2 ^ 16;
  bytes = λ v. write_varint v [];
  push = push_compactu16;
  pop = pop_compactu16;
  pushes = λ m v h. push_compactu16-Pushes m v;
  pops = pop_compactu16-Pops;
}

abbrev pub u32 : Codec ℕ
u32 = record {
  Fits = λ v. v < 2 ^ 32;
  bytes = λ v. write_varint v [];
  push = push_compactu32;
  pop = pop_compactu32;
  pushes = λ m v h. push_compactu32-Pushes m v;
  pops = pop_compactu32-Pops;
}

abbrev pub u64 : Codec ℕ
u64 = record {
  Fits = λ v. v < word;
  bytes = λ v. write_varint v [];
  push = push_compactu64;
  pop = pop_compactu64;
  pushes = λ m v h. push_compactu64-Pushes m v;
  pops = pop_compactu64-Pops;
}

abbrev pub i16 : Codec ℕ
i16 = record {
  Fits = λ v. v < 2 ^ 16;
  bytes = λ v. write_varint (encode_zigzag16 v) [];
  push = push_compact16;
  pop = pop_compact16;
  pushes = λ m v h. push_compact16-Pushes m v;
  pops = pop_compact16-Pops;
}

abbrev pub i32 : Codec ℕ
i32 = record {
  Fits = λ v. v < 2 ^ 32;
  bytes = λ v. write_varint (encode_zigzag32 v) [];
  push = push_compact32;
  pop = pop_compact32;
  pushes = λ m v h. push_compact32-Pushes m v;
  pops = pop_compact32-Pops;
}

abbrev pub i64 : Codec ℕ
i64 = record {
  Fits = λ v. v < word;
  bytes = λ v. write_varint (encode_zigzag64 v) [];
  push = push_compact64;
  pop = pop_compact64;
  pushes = λ m v h. push_compact64-Pushes m v;
  pops = pop_compact64-Pops;
}
