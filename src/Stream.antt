-- ===== src/Stream.antt =====
-- source/bee/common/marshal.h: `octetsstream`, the reader and writer over an `octets` buffer, and the
-- forms in which values are stored. A call takes the stream and gives its result, `none` where
-- it throws, beside the stream as the call leaves it, also when it throws.
pub mod Effects
pub mod Integers
pub mod Sequences
pub mod Containers
pub mod Codecs
pub mod RoundTrip
pub mod Transactions
mod Tests
use cassobee.Base.{
  ℕ, zero, suc, ◌+◌, ◌-◌, ◌*◌, ◌%◌, ◌^◌, ltb, leb, ◌==◌, if◌then◌else◌, Option, none, some, Bool,
  true, false, List, [], ◌∷◌, ◌++◌, length, take, drop, add64, sub64,
}
use mathlib.Core.List.{reverse}
use cassobee.Varint.{
  write_varint, read_varint, encode_zigzag16, decode_zigzag16, encode_zigzag32, decode_zigzag32,
  encode_zigzag64, decode_zigzag64,
}
use cassobee.Octets
use cassobee.Octets.{Octets, Memory, bytes_at}

pub record Stream : Type 0 where
  pub content : Octets
  pub pos : ℕ
  pub transpos : ℕ

abbrev pub M : Type 0 → Type 0
M A = Stream → Option A × Stream

-- A call that returns is followed by the next one; one that throws is followed by none.
abbrev pub proceed : {A B : Type 0} → (A → M B) → Option A × Stream → Option B × Stream
proceed k (none, s) = (none, s)
proceed k (some a, s) = k a s

infixl 5 ◌>>=◌ ◌>>◌
abbrev pub ◌>>=◌ : {A B : Type 0} → M A → (A → M B) → M B
◌>>=◌ f k s = proceed k (f s)

abbrev pub ◌>>◌ : {B : Type 0} → M (Unit {0}) → M B → M B
f >> g = f >>= λ _. g

abbrev pub return : {A : Type 0} → A → M A
return a s = (some a, s)

abbrev pub throw : {A : Type 0} → M A
throw s = (none, s)

-- The bytes between the read position and the end.
abbrev pub unread : Stream → List ℕ
unread s = drop s.pos (take s.content.len s.content.buf)

abbrev pub size : Stream → ℕ
size s = s.content.len

pub try_shrink : Stream → Stream
try_shrink s =
    if ltb 0x100000 s.pos
    then record { content = Octets.erase s.content 0 s.pos; pos = 0; transpos = 0 }
    else s

unfoldable pub advance : ℕ → Stream → Stream
advance n s = record s { pos = add64 s.pos n }

unfoldable pub clear : Stream → Stream
unfolding Octets.clear
clear s = record { content = Octets.clear s.content; pos = 0; transpos = 0 }

unfoldable pub data_ready : ℕ → Stream → Bool
data_ready n s = leb n (sub64 (size s) s.pos)

-- `enum Transaction`
pub data Transaction : Type 0 where
  begin rollback commit : Transaction

unfoldable pub transact : Transaction → M (Unit {0})
transact begin s = (some tt, record s { transpos = s.pos })
transact rollback s =
    if ltb (size s) s.transpos then (none, s) else (some tt, record s { pos = s.transpos })
transact commit s = (some tt, try_shrink s)

-- What `pop_compact` does with the pointer and the value that `read_varint` leaves.
abbrev pub after_varint : Stream → Option (List ℕ) × ℕ → Option ℕ × Stream
after_varint s (none, value) = (none, s)
after_varint s (some rest, value) =
    (some value, record s { pos = add64 s.pos (length (unread s) - length rest) })

pub pop_compact : M ℕ
pop_compact s = after_varint s (read_varint (unread s))

pub pop_compactu16 : M ℕ
pop_compactu16 = do tmp ← pop_compact; return (tmp % 2 ^ 16)

pub pop_compactu32 : M ℕ
pop_compactu32 = do tmp ← pop_compact; return (tmp % 2 ^ 32)

pub pop_compactu64 : M ℕ
pop_compactu64 = pop_compact

pub pop_compact16 : M ℕ
pop_compact16 = do tmp ← pop_compactu16; return (decode_zigzag16 tmp)

pub pop_compact32 : M ℕ
pop_compact32 = do tmp ← pop_compactu32; return (decode_zigzag32 tmp)

pub pop_compact64 : M ℕ
pop_compact64 = do tmp ← pop_compactu64; return (decode_zigzag64 tmp)

-- `n` bytes, if `_pos + n`, which may wrap, is not past the end.
pub pop_raw : ℕ → M (List ℕ)
pop_raw n s =
    if ltb (size s) (add64 s.pos n)
    then (none, s)
    else (some (bytes_at s.content.buf s.pos n), record s { pos = add64 s.pos n })

-- A value of one byte, and one of several bytes that is no integer: a floating-point number. The
-- bytes of the latter are stored in network order.
pub pop_byte : M (List ℕ)
pop_byte = pop_raw 1

pub pop_pod : ℕ → M (List ℕ)
pop_pod n = do bytes ← pop_raw n; return (reverse bytes)

-- `reserve` of a container of bytes throws above its `max_size()`.
abbrev pub max_size : ℕ
max_size = 2 ^ 63 - 1

pub reserve_bytes : ℕ → M (Unit {0})
reserve_bytes n = if ltb max_size n then throw else return tt

-- A container of bytes: the number of them, then the bytes.
pub pop_string : M (List ℕ)
pop_string = do n ← pop_compactu64; reserve_bytes n; pop_raw n

-- `n` elements, in order.
pub pop_elements : {A : Type 0} → M A → ℕ → M (List A)
pop_elements element zero = return []
pop_elements element (suc n) = do a ← element; rest ← pop_elements element n; return (a ∷ rest)

-- How the elements of a container are stored: one by one, or, where they are PODs in a contiguous container, as the
-- block that they are in memory. The latter has their sizeof, and the bytes of an element in the host's order.
pub data Layout (A : Type 0) : Type 0 where
  one_by_one : Layout A
  block : ℕ → (A → List ℕ) → (List ℕ → A) → Layout A

-- `reserve`, with the container's `max_size()`; a container may have none.
pub reserve_elements : Option ℕ → ℕ → M (Unit {0})
reserve_elements none n = return tt
reserve_elements (some limit) n = if ltb limit n then throw else return tt

-- `size * sizeof(value_type)`
abbrev pub total_bytes : ℕ → ℕ → ℕ
total_bytes n width = (n * width) % 2 ^ 64

-- `n` elements out of a block. The product does not wrap behind a reserve of a vector or string, which throws above 2 ^ 63 - 1
-- bytes.
abbrev pub cut_elements : {A : Type 0} → (List ℕ → A) → ℕ → ℕ → List ℕ → List A
cut_elements of width zero bytes = []
cut_elements of width (suc n) bytes =
    of (take width bytes) ∷ cut_elements of width n (drop width bytes)

pub pop_items : {A : Type 0} → Layout A → M A → ℕ → M (List A)
pop_items one_by_one element n = pop_elements element n
pop_items (block width to of) element n = do
  bytes ← pop_raw (total_bytes n width)
  return (cut_elements of width n bytes)

-- An empty container.
pub pop_container : {A : Type 0} → Option ℕ → Layout A → M A → M (List A)
pop_container limit layout element = do
  n ← pop_compactu64
  reserve_elements limit n
  pop_items layout element n

pub pop_pair : {A B : Type 0} → M A → M B → M (A × B)
pop_pair first second = do a ← first; b ← second; return (a, b)

-- The elements of a contiguous container, behind one another.
abbrev pub in_memory : {A : Type 0} → (A → List ℕ) → List A → List ℕ
in_memory to [] = []
in_memory to (a ∷ xs) = to a ++ in_memory to xs

module _ (m : Memory) where
  -- `_data.append`
  pub append_data : List ℕ → M (Unit {0})
  append_data bytes s = elim (Octets.append m s.content bytes) [
    | none ↦ (none, s)
    | some o ↦ (some tt, record s { content = o })
  ]

  pub push_compact : ℕ → M (Unit {0})
  push_compact value = append_data (write_varint value [])

  pub push_compactu16 : ℕ → M (Unit {0})
  push_compactu16 value = push_compact value

  pub push_compactu32 : ℕ → M (Unit {0})
  push_compactu32 value = push_compact value

  pub push_compactu64 : ℕ → M (Unit {0})
  push_compactu64 value = push_compact value

  pub push_compact16 : ℕ → M (Unit {0})
  push_compact16 value = push_compactu16 (encode_zigzag16 value)

  pub push_compact32 : ℕ → M (Unit {0})
  push_compact32 value = push_compactu32 (encode_zigzag32 value)

  pub push_compact64 : ℕ → M (Unit {0})
  push_compact64 value = push_compactu64 (encode_zigzag64 value)

  pub push_byte : List ℕ → M (Unit {0})
  push_byte bytes = append_data bytes

  pub push_pod : List ℕ → M (Unit {0})
  push_pod bytes = append_data (reverse bytes)

  pub push_string : List ℕ → M (Unit {0})
  push_string bytes = do push_compactu64 (length bytes); append_data bytes

  pub push_elements : {A : Type 0} → (A → M (Unit {0})) → List A → M (Unit {0})
  push_elements element [] = return tt
  push_elements element (a ∷ rest) = do element a; push_elements element rest

  pub push_items : {A : Type 0} → Layout A → (A → M (Unit {0})) → List A → M (Unit {0})
  push_items one_by_one element xs = push_elements element xs
  push_items (block width to of) element xs =
      append_data (take (total_bytes (length xs) width) (in_memory to xs))

  pub push_container : {A : Type 0} → Layout A → (A → M (Unit {0})) → List A → M (Unit {0})
  push_container layout element xs = do push_compactu64 (length xs); push_items layout element xs

  pub push_pair : {A B : Type 0} → (A → M (Unit {0})) → (B → M (Unit {0})) → A × B → M (Unit {0})
  push_pair first second (a, b) = do first a; second b

  -- `push(const octets&)` and `pop(octets&)`, which appends to what `val` holds.
  pub push_octets : Octets → M (Unit {0})
  push_octets val = do push_compactu64 val.len; append_data (take val.len val.buf)

  take_octets : Octets → ℕ → M Octets
  take_octets val n s =
      if ltb (size s) (add64 s.pos n)
      then (none, s)
      else (elim (Octets.append m val (bytes_at s.content.buf s.pos n)) [
        | none ↦ (none, s)
        | some o ↦ (some o, record s { pos = add64 s.pos n })
      ])

  pub pop_octets : Octets → M Octets
  pop_octets val = do n ← pop_compactu64; take_octets val n
