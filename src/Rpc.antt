-- ===== src/Rpc.antt =====
-- source/bee/io/rpc.h, rpc.cpp: remote calls. The objects stand in a store, from which `delete` takes them; `none` is
-- the use of a null pointer or of an object that is deleted, or an int that overflows. An rpc owns its argument and its result, which
-- are null or a value. The lock on `_rpcs` is held for each search and each entry.
pub mod Wire
pub mod Pending
pub mod Once
pub mod Relay
mod Tests
use cassobee.Base.{
  ℕ, zero, suc, ◌+◌, ◌-◌, ◌*◌, ◌%◌, ◌^◌, ltb, leb, ◌==◌, not, ◌&&◌, ◌>>=◌, if◌then◌else◌, Bool,
  true, false, Option, none, some, List, [], ◌∷◌, add64,
}
use cassobee.Base.Int.{ℤ, pos, negsuc}
use cassobee.LockfreePool.{update}
use cassobee.Octets.{Memory}
use cassobee.Stream
use cassobee.Stream.{M, push_compactu64, pop_compactu64, append_data, pop_byte}

-- The fields of `protocol` that are used here, `get_timeout`, and those of `rpc`.
pub record Rpc (Data : Type 0) : Type 0 where
  pub manager : Option ℕ
  pub sid : ℕ
  pub timeout : ℤ
  pub traceid : ℕ
  pub proxy_traceid : ℕ
  pub is_server : Bool
  pub argument : Option Data
  pub result : Option Data

-- The `pack` and `unpack` of a class of rpcdata.
pub record DataKind (Data : Type 0) : Type 0 where
  pub pack : Memory → Data → M (Unit {0})
  pub unpack : M Data

-- A byte for a bool, and the bool that it stands for.
abbrev pub flag : Bool → List ℕ
flag true = 1 ∷ []
flag false = 0 ∷ []

abbrev pub is_set : List ℕ → Bool
is_set [] = false
is_set (b ∷ bs) = ltb 0 b

module _ {Data : Type 0} where
  -- A null pointer counts as a throw here.
  abbrev pub pack_data : DataKind Data → Memory → Option Data → M (Unit {0})
  pack_data k m none = Stream.throw
  pack_data k m (some d) = k.pack m d

  unfoldable pub pack : DataKind Data → DataKind Data → Memory → Rpc Data → M (Unit {0})
  pack arguments results m r = Stream.◌>>◌ (push_compactu64 m r.traceid) (
      Stream.◌>>◌ (append_data m (flag r.is_server))
        (if r.is_server then pack_data results m r.result else pack_data arguments m r.argument))

  -- `dup` of what a pointer points to.
  abbrev pub dup : Option Data → M Data
  dup none = Stream.throw
  dup (some d) = Stream.return d

  -- The roles are exchanged. The copy of the argument is read over.
  abbrev pub unpack_data : DataKind Data → DataKind Data → Rpc Data → ℕ → Bool → M (Rpc Data)
  unpack_data arguments results r id true = Stream.◌>>=◌ (dup r.argument) (λ copy.
      Stream.◌>>=◌ (arguments.unpack) (λ d. Stream.◌>>=◌ (dup r.result) (λ empty.
        Stream.return
          (record r { traceid = id; is_server = true; argument = some d; result = some empty }))))
  unpack_data arguments results r id false = Stream.◌>>=◌ (dup r.result) (λ copy.
      Stream.◌>>=◌ (results.unpack) (λ d.
        Stream.return
          (record r { traceid = id; is_server = false; argument = none; result = some d })))

  unfoldable pub unpack : DataKind Data → DataKind Data → Rpc Data → M (Rpc Data)
  unpack arguments results r = Stream.◌>>=◌ pop_compactu64 (λ id.
      Stream.◌>>=◌ pop_byte (λ bytes. unpack_data arguments results r id (not (is_set bytes))))

-- What the program sees of a call: `client`, `timeout`, or an rpc that is handed to a session manager.
pub data Event (Data : Type 0) : Type 0 where
  client : ℕ → Option Data → Option Data → Event Data
  timed_out : ℕ → Option Data → Event Data
  sent : ℕ → ℕ → Rpc Data → Event Data

-- `_rpcs` and `next_traceid`, the timers with the trace id that their closure captures and their
-- milliseconds, and the events, the last one first.
pub record World (Data : Type 0) : Type 0 where
  pub objects : ℕ → Option (Rpc Data)
  pub rpcs : List (ℕ × ℕ)
  pub next_traceid : ℕ
  pub timers : List (ℕ × ℕ)
  pub events : List (Event Data)

abbrev pub find : ℕ → List (ℕ × ℕ) → Option ℕ
find id [] = none
find id ((i, p) ∷ rest) = if i == id then some p else find id rest

abbrev pub erase : ℕ → List (ℕ × ℕ) → List (ℕ × ℕ)
erase id [] = []
erase id ((i, p) ∷ rest) = if i == id then rest else (i, p) ∷ erase id rest

-- `emplace` keeps an entry that is there.
abbrev pub emplaced : ℕ → ℕ → List (ℕ × ℕ) → Option ℕ → List (ℕ × ℕ)
emplaced id p rpcs none = (id, p) ∷ rpcs
emplaced id p rpcs (some q) = rpcs

abbrev pub positive : ℤ → ℕ → ℕ
positive (pos zero) d = d
positive (pos (suc n)) d = suc n
positive (negsuc n) d = d

-- The product of an int, given by its bit pattern, and 1000, as a TIMETYPE. A product outside of int is undefined.
abbrev pub milliseconds : ℕ → Option ℕ
milliseconds t =
    let n = 2 ^ 32 - t in
    if ltb t (2 ^ 31)
    then (if ltb (t * 1000) (2 ^ 31) then some (t * 1000) else none)
    else (if leb (n * 1000) (2 ^ 31) then some (2 ^ 64 - n * 1000) else none)

module _ {Data : Type 0} where
  abbrev pub write_object : World Data → ℕ → Rpc Data → World Data
  write_object w p r = record w { objects = update w.objects p (some r) }

  abbrev pub delete : World Data → ℕ → World Data
  delete w p = record w { objects = update w.objects p none }

  abbrev pub happens : World Data → Event Data → World Data
  happens w e = record w { events = e ∷ w.events }

  abbrev pub timed : ℕ → World Data → Option ℕ → Option (World Data)
  timed traceid w none = none
  timed traceid w (some ms) = some (record w { timers = (traceid, ms) ∷ w.timers })

  -- What is given for the seconds becomes an int.
  unfoldable pub set_timeout_timer : ℕ → ℕ → World Data → Option (World Data)
  set_timeout_timer traceid timeout w = timed traceid w (milliseconds (timeout % 2 ^ 32))

  abbrev pub requested : Bool → ℕ → Rpc Data → Rpc Data
  requested true id r = record r { proxy_traceid = r.traceid; traceid = id; is_server = false }
  requested false id r = record r { traceid = id; is_server = false }

  abbrev pub enter : Bool → ℕ → Rpc Data → ℕ → World Data → World Data
  enter is_proxy p r id w = record (write_object w p (requested is_proxy id r)) {
    next_traceid = id;
    rpcs = emplaced id p w.rpcs (find id w.rpcs);
  }

  unfoldable pub set_request : Bool → ℕ → World Data → Option (World Data)
  unfolding set_timeout_timer
  set_request is_proxy p w = do
    r ← w.objects p
    let id = add64 w.next_traceid 1
    set_timeout_timer (positive r.timeout 30) id (enter is_proxy p r id w)

  -- `call` of a type, with the copy of the registered object at a new address, if there is one.
  unfoldable pub call : ℕ → Option (Rpc Data) → Data → World Data → Option (Option ℕ × World Data)
  unfolding set_request
  call p none argument w = some (none, w)
  call p (some stub) argument w = do
    w' ←
        set_request false p
          (write_object w p (record stub { argument = some argument; result = none }))
    some (some p, w')

  abbrev pub cleared_request : Bool → Rpc Data → Rpc Data
  cleared_request true r = record r {
    is_server = true;
    traceid = r.proxy_traceid;
    proxy_traceid = 0;
  }
  cleared_request false r = record r { is_server = true }

  -- Behind the search: the waiting rpc `q` with the result swapped in.
  abbrev pub send_back : World Data → Option ℕ → Rpc Data → World Data
  send_back w none c = w
  send_back w (some manager) c = if ltb 0 c.sid then happens w (sent manager c.sid c) else w

  abbrev pub finish : ℕ → Rpc Data → World Data → World Data
  finish q c w =
      if ltb 0 c.proxy_traceid
      then send_back (write_object w q (cleared_request true c)) c.manager (cleared_request true c)
      else happens w (client q c.argument c.result)

  abbrev pub answer : ℕ → ℕ → Rpc Data → Option (Rpc Data) → World Data → Option (World Data)
  answer p q r none w = none
  answer p q r (some c) w =
      let swapped = record c { result = r.result } in
      some (
        delete
          (finish q swapped
            (write_object (write_object w p (record r { result = c.result })) q swapped))
          q)

  abbrev pub run_found : ℕ → Rpc Data → Option ℕ → World Data → Option (World Data)
  run_found p r none w = some w
  run_found p r (some q) w =
      let taken = record w { rpcs = erase r.traceid w.rpcs } in answer p q r (taken.objects q) taken

  -- `server` is the class's own: whether the rpc is passed on, and what it did to the object.
  abbrev pub served : ℕ → Bool × Rpc Data → World Data → Option (World Data)
  served p (true, r) w = set_request true p (write_object w p r)
  served p (false, r) w = do
    manager ← r.manager
    some (happens (write_object w p r) (sent manager r.sid r))

  abbrev pub run_object :
      (Rpc Data → Bool × Rpc Data) → ℕ → Option (Rpc Data) → World Data → Option (World Data)
  run_object server p none w = none
  run_object server p (some r) w =
      if r.is_server then served p (server r) w else run_found p r (find r.traceid w.rpcs) w

  unfoldable pub run : (Rpc Data → Bool × Rpc Data) → ℕ → World Data → Option (World Data)
  unfolding set_request
  run server p w = run_object server p (w.objects p) w

  -- `session::on_recv` runs what it decoded and deletes it.
  unfoldable pub receive : (Rpc Data → Bool × Rpc Data) → ℕ → World Data → Option (World Data)
  unfolding run
  receive server p w = do w' ← run server p w; some (delete w' p)

  -- The closure of `set_timeout_timer`.
  abbrev pub time_out : ℕ → Option ℕ → World Data → Option (World Data)
  time_out id none w = some w
  time_out id (some q) w = do
    c ← w.objects q
    some (delete (happens (record w { rpcs = erase id w.rpcs }) (timed_out q c.argument)) q)

  unfoldable pub fire : ℕ → World Data → Option (World Data)
  fire id w = time_out id (find id w.rpcs) w
