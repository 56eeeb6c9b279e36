-- ===== src/SessionManager/Tests.antt =====
-- A manager with two sessions, as examples for source/bee/io/session_manager.cpp.
use cassobee.Base.{replicate, ℕ, ◌≡◌, arith, refl, some, [], ◌∷◌, ◌++◌, false, ◌==◌, if◌then◌else◌}
use cassobee.Octets.Samples.{zeros, three, three-IsValid}
use cassobee.Octets.Inv.{contents}
use cassobee.SessionState.{active, no_reason}
use cassobee.Session.{Session}
use cassobee.SessionManager.{Manager, find, find_session, send_octets, is_close}
use cassobee.SessionManager.Send.{send_octets_lem}

-- There is room for one more byte to be sent.
abbrev ses : ℕ → Session
ses sid = record {
  status = record { sid = sid; manager = 1; state = active; close_reason = no_reason };
  last_active = 100;
  reados = record { content = three; pos = 0; transpos = 0 };
  readbuf = three;
  write_offset = 0;
  writeos = record { content = three; pos = 0; transpos = 0 };
  writebuf = three;
}

abbrev manager : Manager
manager = record {
  max_connections = 0;
  forbidden = replicate 8 false;
  keepalive_timeout = 30;
  next_sessionid = 2;
  sessions = (2, ses 2) ∷ (1, ses 1) ∷ [];
}

found : find_session 1 manager ≡ some (ses 1)
unfolding find_session find
found = refl

not_closing : is_close (ses 1) ≡ false
unfolding is_close
not_closing = refl

send_octets_lem_example :
    (m' : Manager) × (ses' : Session) × (send_octets zeros 1
        (record { buf = 9 ∷ []; len = 1; cap = 1 })
        manager
      ≡ some m')
    × (contents ses'.writeos.content ≡ contents three ++ (9 ∷ []))
    × (find_session 1 m' ≡ (if 1 == 1 then some ses' else find_session 1 manager))
send_octets_lem_example =
    send_octets_lem zeros manager 1 (ses 1) found three-IsValid
      (record { buf = 9 ∷ []; len = 1; cap = 1 }) 1
      (record { block = refl; within = omega arith; small = omega arith }) not_closing (omega arith)
