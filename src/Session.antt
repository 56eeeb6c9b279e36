-- ===== src/Session.antt =====
-- source/bee/io/session.cpp: a connection's buffers, and how what is received becomes protocols that
-- run. The event, the peer's address and the running of a protocol are outside. The times are those
-- that `systemtime::get_time` gives.
pub mod Drain
pub mod Recv
mod Tests
use cassobee.Base.{
  ℕ, zero, suc, ◌-◌, min, ltb, ◌==◌, if◌then◌else◌, Option, none, some, ◌>>=◌, Bool, List, [], ◌∷◌,
  take,
}
use cassobee.Octets
use cassobee.Octets.{Octets, Memory, free_space}
use cassobee.Stream
use cassobee.Stream.{Stream, size, try_shrink}
use cassobee.SessionState.{Status, idle, active, sending, recving, no_reason, set_state}
use cassobee.Protocol.{Kind, Protocol, Stubs, decode}

pub record Session : Type 0 where
  pub status : Status
  pub last_active : ℕ
  pub reados : Stream
  pub readbuf : Octets
  pub write_offset : ℕ
  pub writeos : Stream
  pub writebuf : Octets

pub activate : ℕ → Session → Session
activate now s = record s { last_active = now }

-- The difference is signed: it is not above the timeout where the clock has gone back.
pub is_timeout : ℕ → ℕ → Session → Bool
is_timeout now timeout s = ltb timeout (now - s.last_active)

pub on_send : ℕ → Session → Session
on_send now s = let s' = activate now s in record s' { status = set_state sending s'.status }

-- `clear`, but for the event.
pub clear : Session → Session
clear s = record {
  status = record { sid = 0; manager = 0; state = idle; close_reason = no_reason };
  last_active = 0;
  reados = Stream.clear s.reados;
  readbuf = Octets.clear s.readbuf;
  write_offset = 0;
  writeos = Stream.clear s.writeos;
  writebuf = Octets.clear s.writebuf;
}

-- What is to be sent. Once all of it has gone out, the buffers change places.
pub wbuffer : Session → Octets × Session
wbuffer s =
    if s.writebuf.len == 0
    then (let (b, w) = Octets.swap s.writebuf s.writeos.content in
        (b, record s { writebuf = b; writeos = Stream.clear (record (s.writeos) { content = w }) }))
    else (s.writebuf, s)

pub clear_wbuffer : Session → Session
clear_wbuffer s = record s { writebuf = Octets.clear s.writebuf; write_offset = 0 }

pub is_writeos_empty : Session → Bool
is_writeos_empty s = s.write_offset == size s.writeos

-- The bytes that find room behind those of `_reados` move there from `_readbuf`.
pub refill : Memory → Session → Option Session
refill m s =
    let n = min s.readbuf.len (free_space s.reados.content) in
    Octets.append m s.reados.content (take n s.readbuf.buf) >>= λ o.
    some (record s {
      reados = record (s.reados) { content = o };
      readbuf = Octets.erase s.readbuf 0 n;
    })

-- How the loop of `on_recv` ends: `decode` gives no protocol, or what it throws leaves `on_recv`, or the
-- fuel of the model is used up.
pub data Ending : Type 0 where
  returned threw out_of_fuel : Ending

-- The protocols that run, in their order, and what the loop leaves.
pub record Drained (Body : Type 0) : Type 0 where
  pub ran : List (Protocol Body)
  pub stream : Stream
  pub status : Status
  pub ending : Ending

-- One result of `decode`, with what the loop does next.
abbrev pub taken :
    {Body : Type 0}
    → (Stream → Status → Drained Body)
    → Option (Option (Protocol Body)) × Stream × Status
    → Drained Body
taken more (none, s, ses) = record { ran = []; stream = s; status = ses; ending = threw }
taken more (some none, s, ses) = record { ran = []; stream = s; status = ses; ending = returned }
taken more (some (some p), s, ses) = let rest = more s ses in record rest { ran = p ∷ rest.ran }

module _ {Body : Type 0} (k : Kind Body) (stubs : Stubs Body) where
  -- `while(protocol* prot = protocol::decode(_reados, this))`
  pub drain : ℕ → Stream → Status → Drained Body
  drain zero s ses = record { ran = []; stream = s; status = ses; ending = out_of_fuel }
  drain (suc fuel) s ses = taken (drain fuel) (decode k stubs s ses)

  -- What follows the loop: nothing, if something was thrown.
  abbrev pub left_over : Ending → Stream → Stream
  left_over returned t = try_shrink t
  left_over threw t = t
  left_over out_of_fuel t = t

  abbrev pub settle : Session → Drained Body → Drained Body × Session
  settle s d = (d, record s { reados = left_over d.ending d.stream; status = d.status })

  -- `none` where the allocation fails. The result of the loop stands beside the session.
  pub on_recv : Memory → ℕ → ℕ → Session → Option (Drained Body × Session)
  on_recv m fuel now s =
      let s₁ = activate now s in
      refill m (record s₁ { status = set_state recving s₁.status }) >>= λ s₂.
      some (settle s₂ (drain fuel s₂.reados s₂.status))
