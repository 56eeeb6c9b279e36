-- ===== src/Session/Tests.antt =====
-- A session that receives, as examples for source/bee/io/session.cpp.
use cassobee.Base.{ℕ, ◌-◌, ◌≡◌, arith, refl, min, some, List, [], ◌∷◌, length}
use cassobee.Octets.Samples.{zeros, three, three-IsValid}
use cassobee.Octets.Inv.{contents}
use cassobee.Varint.Write.{write_varint-small}
use cassobee.Stream.{Stream, unread, pop_raw, append_data}
use cassobee.Stream.Sequences.{pop_raw-Pops}
use cassobee.SessionState.{Status, active, no_reason}
use cassobee.Protocol.{Kind, Protocol, Stubs, get_protocol}
use cassobee.Protocol.Framing.{size_whole}
use cassobee.Session.{Session, drain, returned}
use cassobee.Session.Drain.{drain-frames, Sent, received, IsKnown}
use cassobee.Session.Recv.{refill_lem, Refilled, Stalled, receive_each, receive_each-Stalled}

abbrev ping : Kind (List ℕ)
ping = record {
  get_type = λ b. 7;
  maxsize = λ b. 1024;
  pack = λ m b. append_data m b;
  unpack = λ b. pop_raw (length b);
}

abbrev stub : Protocol (List ℕ)
stub = record { sid = 0; manager = 0; body = 0 ∷ [] }

abbrev stubs : Stubs (List ℕ)
stubs = (7, stub) ∷ []

abbrev ses : Status
ses = record { sid = 5; manager = 1; state = active; close_reason = no_reason }

abbrev two_frames : Stream
two_frames = record {
  content = record { buf = 7 ∷ 1 ∷ 8 ∷ 7 ∷ 1 ∷ 9 ∷ []; len = 6; cap = 6 };
  pos = 0;
  transpos = 0;
}

abbrev sent : ℕ → Sent (List ℕ)
sent b = record { id = 7; stub = stub; body = b ∷ []; bytes = b ∷ [] }

sent-IsKnown : (b : ℕ) → IsKnown ping stubs (sent b)
sent-IsKnown b = record {
  small = omega arith;
  there = unfold get_protocol in refl;
  short = omega arith;
  unpacks = pop_raw-Pops (b ∷ []);
}

drain-frames_example :
    ((drain ping stubs 3 two_frames ses).ran ≡ received ses (sent 8 ∷ sent 9 ∷ []))
    × ((drain ping stubs 3 two_frames ses).ending ≡ returned)
    × (unread (drain ping stubs 3 two_frames ses).stream ≡ [])
drain-frames_example =
    drain-frames ping stubs (sent 8 ∷ sent 9 ∷ []) 3 two_frames ses
      (sent-IsKnown 8, (sent-IsKnown 9, tt))
      (record { block = refl; within = omega arith; small = omega arith }) (omega arith)
      (rw
        (
          size_whole 1 (omega arith),
          write_varint-small 7 (omega arith),
          write_varint-small 1 (omega arith),
        )
        refl)
      (omega arith)

-- Four bytes, all read, in a block of four, and three bytes that wait.
abbrev full : Session
full = record {
  status = ses;
  last_active = 0;
  reados = record {
    content = record { buf = 1 ∷ 2 ∷ 3 ∷ 4 ∷ []; len = 4; cap = 4 };
    pos = 4;
    transpos = 0;
  };
  readbuf = three;
  write_offset = 0;
  writeos = record { content = three; pos = 0; transpos = 0 };
  writebuf = three;
}

refill_lem_example : Refilled zeros full (min 3 (4 - 4))
refill_lem_example =
    refill_lem zeros full (record { block = refl; within = omega arith; small = omega arith })
      three-IsValid

full-Stalled : Stalled full
full-Stalled = record {
  valid = record { block = refl; within = omega arith; small = omega arith };
  full = refl;
  all_read = refl;
  small = omega arith;
}

receive_each-Stalled_example :
    (s' : Session) × (receive_each ping stubs zeros 9 ((100, three) ∷ (200, three) ∷ []) full
      ≡ some ([], contents three ∷ contents three ∷ [], s'))
    × (s'.reados ≡ full.reados)
receive_each-Stalled_example =
    receive_each-Stalled ping stubs zeros 9 ((100, three) ∷ (200, three) ∷ []) full (omega arith)
      full-Stalled (three-IsValid, (three-IsValid, tt))
