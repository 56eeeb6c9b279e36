-- ===== src/SessionManager.antt =====
-- source/bee/io/session_manager.cpp: the sessions of a client or a server by their ids, and what is sent
-- to one of them. A session stands in the table itself, where the program has a pointer to it: an id
-- is the only way from the manager to a session. Addresses, SSL and the reactor are outside.
pub mod Table
pub mod Send
mod Tests
use cassobee.Base.{
  get_elem?, not, ℕ, zero, suc, ltb, ◌==◌, if◌then◌else◌, Option, none, some, ◌>>=◌, Bool, true,
  false, List, [], ◌∷◌, length, take, add64,
}
use cassobee.Octets
use cassobee.Octets.{Octets, Memory, free_space}
use cassobee.Stream
use cassobee.Stream.{Stream, size}
use cassobee.SessionState.{
  SessionState, closing, idle, active, sending, recving, by_timeout, set_close,
}
use cassobee.Session.{Session, is_timeout}
use cassobee.Protocol.{Kind, encode}

abbrev pub Sessions : Type 0
Sessions = List (ℕ × Session)

pub record Manager : Type 0 where
  pub max_connections : ℕ
  pub forbidden : List Bool
  pub keepalive_timeout : ℕ
  pub next_sessionid : ℕ
  pub sessions : Sessions

-- `_sessions.find`
pub find : ℕ → Sessions → Option Session
find sid [] = none
find sid ((i, ses) ∷ rest) = if i == sid then some ses else find sid rest

-- `_sessions.erase`
pub erase : ℕ → Sessions → Sessions
erase sid [] = []
erase sid ((i, ses) ∷ rest) =
    let others = erase sid rest in if i == sid then others else (i, ses) ∷ others

-- A change of the session that an id points to.
pub update : ℕ → Session → Sessions → Sessions
update sid new [] = []
update sid new ((i, ses) ∷ rest) =
    let others = update sid new rest in if i == sid then (i, new) ∷ others else (i, ses) ∷ others

pub check_connection_count : Manager → Bool
check_connection_count m =
    if m.max_connections == 0 then true else ltb (length m.sessions) m.max_connections

-- The bit of the type in the bitset; `std::out_of_range` for a type that has none.
pub check_protocol : Manager → ℕ → Option Bool
check_protocol m type = get_elem? m.forbidden type >>= λ bit. some (not bit)

pub get_next_sessionid : Manager → ℕ × Manager
get_next_sessionid m =
    let sid = add64 m.next_sessionid 1 in (sid, record m { next_sessionid = sid })

-- `emplace` beside what `find` gives. The Boolean is whether the session was added; it is deleted
-- otherwise.
abbrev pub added : ℕ → Session → Manager → Option Session → Manager × Bool
added sid ses m none = (record m { sessions = (sid, ses) ∷ m.sessions }, true)
added sid ses m (some _) = (m, false)

pub add_session : ℕ → Session → Manager → Manager × Bool
add_session sid ses m = added sid ses m (find sid m.sessions)

pub del_session : ℕ → Manager → Manager
del_session sid m = record m { sessions = erase sid m.sessions }

pub find_session : ℕ → Manager → Option Session
find_session sid m = find sid m.sessions

pub expire : ℕ → ℕ → Session → Session
expire now timeout s =
    if is_timeout now timeout s then record s { status = set_close by_timeout s.status } else s

pub expire_all : ℕ → ℕ → Sessions → Sessions
expire_all now timeout [] = []
expire_all now timeout ((i, ses) ∷ rest) = (i, expire now timeout ses) ∷ expire_all now timeout rest

pub check_timeouts : ℕ → Manager → Manager
check_timeouts now m = record m { sessions = expire_all now m.keepalive_timeout m.sessions }

abbrev pub is_closing : SessionState → Bool
is_closing closing = true
is_closing idle = false
is_closing active = false
is_closing sending = false
is_closing recving = false

pub is_close : Session → Bool
is_close s = is_closing s.status.state

-- The bytes behind those that the session is to send. `none` where the allocation throws.
pub enqueue : Memory → List ℕ → Session → Option Session
enqueue mem bytes s = Octets.append mem s.writeos.content bytes >>= λ o.
    some (record s { writeos = record (s.writeos) { content = o } })

-- What is done with the session that was found.
pub send_to : Memory → ℕ → List ℕ → Manager → Option Session → Option Manager
send_to mem sid bytes m none = some m
send_to mem sid bytes m (some ses) =
    if is_close ses
    then some m
    else if ltb (free_space ses.writeos.content) (length bytes)
    then some m
    else (enqueue mem bytes ses >>= λ s. some (record m { sessions = update sid s m.sessions }))

pub send_octets : Memory → ℕ → Octets → Manager → Option Manager
send_octets mem sid oct m = send_to mem sid (take oct.len oct.buf) m (find_session sid m)

-- `os` is the stream of the thread, cleared. It keeps what `encode` had written where that threw.
pub send_protocol :
    {Body : Type 0} → Kind Body → Memory → ℕ → Body → Stream → Manager → Option Manager
send_protocol k mem sid p os m =
    let os' = encode k mem p (Stream.clear os) in
    send_to mem sid (take (size os') os'.content.buf) m (find_session sid m)
