-- ===== src/Protocol.antt =====
-- source/bee/io/protocol.h and protocol.cpp: the registry of protocols, and the frames
-- `id size body` that carry them. What a protocol class overrides is an interface.
pub mod Registry
pub mod Encode
pub mod Frame
pub mod Decode
pub mod Framing
mod Tests
use cassobee.Base.{
  ℕ, zero, suc, ◌+◌, ◌-◌, ◌≡◌, ◌≤◌, ltb, leb, ◌==◌, if◌then◌else◌, Option, none, some, Bool, true,
  false, not, ◌&&◌, List, [], ◌∷◌, ◌++◌, length, take, drop, add64, sub64,
}
use cassobee.Varint.{write_varint, get_compact_int_size}
use cassobee.Octets
use cassobee.Octets.{Octets, Memory, move_bytes}
use cassobee.Stream.{
  Stream, M, ◌>>=◌, ◌>>◌, return, size, data_ready, transact, begin, rollback, pop_compactu32,
  pop_compactu64, push_compactu32, append_data,
}
use cassobee.SessionState.{Status, set_close, by_exception}

-- The virtual members of `protocol`, over the fields of the derived classes.
pub record Kind (Body : Type 0) : Type 0 where
  pub get_type : Body → ℕ
  pub maxsize : Body → ℕ
  pub pack : Memory → Body → M (Unit {0})
  pub unpack : Body → M Body

pub record Protocol (Body : Type 0) : Type 0 where
  pub sid : ℕ
  pub manager : ℕ
  pub body : Body

-- The session may be null.
unfoldable pub init_session : {Body : Type 0} → Option Status → Protocol Body → Protocol Body
init_session none p = p
init_session (some ses) p = record p { sid = ses.sid; manager = ses.manager }

-- `get_map()`: the stub of each registered type.
abbrev pub Stubs : Type 0 → Type 0
Stubs Body = List (ℕ × Protocol Body)

module _ {Body : Type 0} where
  -- `get_protocol`: a copy of the stub.
  unfoldable pub get_protocol : ℕ → Stubs Body → Option (Protocol Body)
  get_protocol type [] = none
  get_protocol type ((t, stub) ∷ stubs) = if t == type then some stub else get_protocol type stubs

  -- `emplace` beside what `find` gives: it does not replace.
  abbrev pub emplaced : ℕ × Protocol Body → Stubs Body → Option (Protocol Body) → Stubs Body × Bool
  emplaced entry stubs none = (entry ∷ stubs, true)
  emplaced entry stubs (some _) = (stubs, false)

  pub register_protocol : ℕ → Protocol Body → Stubs Body → Stubs Body × Bool
  register_protocol type prot stubs = emplaced (type, prot) stubs (get_protocol type stubs)

-- What the `try` block of `decode` comes to, if it throws nothing.
pub data Attempt (Body : Type 0) : Type 0 where
  decoded : Protocol Body → Attempt Body
  waiting : Attempt Body
  unknown : Attempt Body

-- The last ROLLBACK stands behind the `catch` clauses: what it throws leaves `decode`.
abbrev pub rolled :
    {Body : Type 0}
    → Status
    → Option (Unit {0}) × Stream
    → Option (Option (Protocol Body)) × Stream × Status
rolled ses (none, s) = (none, s, ses)
rolled ses (some _, s) = (some none, s, ses)

-- What follows the `try` block.
abbrev pub conclude :
    {Body : Type 0}
    → Status
    → Option (Attempt Body) × Stream
    → Option (Option (Protocol Body)) × Stream × Status
conclude ses (some (decoded p), s) = (some (some p), s, ses)
conclude ses (some waiting, s) = (some none, s, ses)
conclude ses (some unknown, s) = rolled ses (transact rollback s)
conclude ses (none, s) = rolled (set_close by_exception ses) (transact rollback s)

abbrev pub guess_size : ℕ
guess_size = 2048

-- The bytes behind the place of the size move to where the place for `actual` bytes ends. The
-- place has `guessed` bytes.
pub make_place : Memory → ℕ → ℕ → ℕ → ℕ → Octets → Option Octets
make_place m guessed prev n actual o =
    let diff = sub64 actual guessed in
    if actual == guessed then some o else (elim (Octets.reserve m o (add64 o.len diff)) [
      | none ↦ none
      | some r ↦
          some
            (Octets.fast_resize (record r { buf = move_bytes r.buf (add64 prev diff) prev n }) diff)
    ])

-- The size is written over its place. `replace` is given as many bytes as the size table says.
pub fill_size : Memory → ℕ → ℕ → ℕ → ℕ → M (Unit {0})
fill_size m guessed begin_pos prev n s =
    let actual = get_compact_int_size 64 n in
    elim (make_place m guessed prev n actual s.content) [
      | none ↦ (none, s)
      | some o ↦ (elim (Octets.replace m o begin_pos (take actual (write_varint n []))) [
        | none ↦ (none, record s { content = o })
        | some o' ↦ (some tt, record s { content = o' })
      ])
    ]

-- `os.size()` in a sequence of calls.
abbrev pub size_now : M ℕ
size_now s = (some (size s), s)

module _ {Body : Type 0} (k : Kind Body) where
  pub size_policy : ℕ → ℕ → Stubs Body → Bool
  size_policy type n stubs = elim (get_protocol type stubs) [
    | none ↦ false
    | some stub ↦ leb n (k.maxsize stub.body)
  ]

  -- `manager->check_protocol` is an argument. In a build with ASSERT a refusal aborts instead.
  pub check_policy : (ℕ → Bool) → ℕ → ℕ → Stubs Body → Bool
  check_policy check_protocol type n stubs =
      if size_policy type n stubs then check_protocol type else false

  -- The body of the `try` block of `encode`.
  pub encode_body : Memory → Body → M (Unit {0})
  encode_body m p = do
    push_compactu32 m (k.get_type p)
    let guessed = get_compact_int_size 64 guess_size
    begin_pos ← size_now
    append_data m (m.fresh guessed)
    prev ← size_now
    k.pack m p
    now ← size_now
    fill_size m guessed begin_pos prev (sub64 now prev)

  -- `encode`: what is thrown is caught and logged, and the stream stays as it then is.
  pub encode : Memory → Body → Stream → Stream
  encode m p s = (encode_body m p s).1

  -- The part of the `try` block that follows the header.
  pub decode_body : Stubs Body → Status → ℕ → ℕ → M (Attempt Body)
  decode_body stubs ses id n s =
      if data_ready n s
      then (elim (get_protocol id stubs) [
        | none ↦ (some unknown, s)
        | some stub ↦
            (do
              b ← k.unpack stub.body
              return (decoded (record (init_session (some ses) stub) { body = b })))
              s
      ])
      else (do transact rollback; return waiting) s

  pub attempt : Stubs Body → Status → M (Attempt Body)
  attempt stubs ses = do
    transact begin
    id ← pop_compactu32
    n ← pop_compactu64
    decode_body stubs ses id n

  -- `decode`: the protocol or `nullptr`, the stream and the session afterwards.
  pub decode : Stubs Body → Stream → Status → Option (Option (Protocol Body)) × Stream × Status
  decode stubs s ses =
      if data_ready 1 s then conclude ses (attempt stubs ses s) else (some none, s, ses)
