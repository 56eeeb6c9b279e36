-- ===== src/Rpc/Tests.antt =====
-- io/rpc.cpp with data that are strings.
use cassobee.Base.{ℕ, ◌+◌, ◌*◌, ◌≤◌, ◌≡◌, refl, arith, Bool, true, false, none, some, List, [], ◌∷◌}
use cassobee.Base.Int.{pos}
use cassobee.Octets.Samples.{zeros}
use cassobee.Stream.Effects.{Pushes, Pops}
use cassobee.Stream.Codecs.{string}
use cassobee.Rpc.{
  Rpc, World, pack, unpack, find, write_object, set_request, set_timeout_timer, receive, fire,
}
use cassobee.Rpc.Wire.{kind, received, unpack-pack}
use cassobee.Rpc.Pending.{pending, finished, Inv, Fresh}
use cassobee.Rpc.Once.{calls, Reach, here, next, finished_once}
use cassobee.Rpc.Relay.{next_id, seconds, set_request-fire}

abbrev Text : Type 0
Text = List ℕ

abbrev request : Rpc Text
request = record {
  manager = some 1;
  sid = 4;
  timeout = pos 30;
  traceid = 0;
  proxy_traceid = 0;
  is_server = false;
  argument = some (104 ∷ 105 ∷ []);
  result = none;
}

abbrev registered : Rpc Text
registered = record request { argument = some []; result = some [] }

unpack-pack_example :
    (bytes : List ℕ) × Pushes (pack (kind string) (kind string) zeros request) bytes
    × Pops
        (unpack (kind string) (kind string) registered)
        bytes
        (received string string registered 0 false (104 ∷ 105 ∷ []))
unpack-pack_example =
    unpack-pack string string zeros request registered (104 ∷ 105 ∷ []) (omega arith) refl
      (omega arith) (([], refl), ([], refl))

abbrev idle : World Text
idle = record { objects = λ p. none; rpcs = []; next_traceid = 0; timers = []; events = [] }

idle-Inv : Inv idle
unfolding pending finished
idle-Inv = record { once = λ p. omega arith; live = λ p waits. absurd (omega arith) }

abbrev pass_on : Rpc Text → Bool × Rpc Text
pass_on r = (true, r)

abbrev waiting : World Text
waiting = record (write_object (write_object idle 7 request) 7 (record request { traceid = 1 })) {
  rpcs = (1, 7) ∷ [];
  next_traceid = 1;
  timers = (30, 1000) ∷ [];
}

called : Reach Text pass_on idle waiting
unfolding pending finished set_request set_timeout_timer
called = next here (calls idle waiting 7 request refl refl refl)

finished_once_example :
    ((p : ℕ) → finished p waiting.events + pending p waiting.rpcs ≤ 1)
    × ((id : ℕ) → (w : World Text) × (fire id waiting ≡ some w))
    × ((m : ℕ) (r : Rpc Text)
        → Fresh waiting m
        → r.is_server ≡ false
        → (w : World Text) × (receive pass_on m (write_object waiting m r) ≡ some w))
finished_once_example = finished_once idle-Inv called

abbrev one : World Text
one = write_object idle 7 request

set_request-fire_example :
    (w' : World Text) × (set_request false 7 one ≡ some w')
    × (w'.timers ≡ (seconds request, next_id one * 1000) ∷ one.timers)
    × (find (next_id one) w'.rpcs ≡ some 7)
    × (fire (seconds request) w' ≡ some w')
set_request-fire_example = set_request-fire one 7 (omega arith) request refl refl refl (omega arith)

abbrev relayed_one : Rpc Text
relayed_one = record request { is_server = true; traceid = 3 }

abbrev served_one : World Text
served_one = write_object idle 7 relayed_one

abbrev reply : Rpc Text
reply = record request { traceid = 1; argument = none; result = some (111 ∷ []) }
