-- ===== src/SessionManager/Table.antt =====
-- The table of sessions in source/bee/io/session_manager.cpp: what `find_session` gives after each change.
use cassobee.Base.{
  ℕ, ◌≡◌, ◌∙◌, ap, refl, arith, ◌==◌, ==_iff, if◌then◌else◌, Option, none, some, ◌>>=◌, Bool-cases,
  inl, inr, [], ◌∷◌,
}
use cassobee.Session.{Session}
use cassobee.SessionManager.{
  Manager, Sessions, find, erase, update, added, add_session, del_session, find_session, expire,
  expire_all, check_timeouts,
}

abbrev pub or_new : Option Session → Session → Session
or_new none new = new
or_new (some old) new = old

find-erase :
    (sid other : ℕ) (t : Sessions)
    → find other (erase sid t) ≡ (if other == sid then none else find other t)
unfolding find erase
find-erase sid other [] = ground arith
find-erase sid other ((i, ses) ∷ t) = ground (arith, find-erase sid other t)

-- An id that is deleted is not found any more. Every other id finds what it found before.
pub find_session-del_session :
    (sid other : ℕ) (m : Manager)
    → find_session other (del_session sid m) ≡ (if other == sid then none else find_session other m)
unfolding find_session del_session
find_session-del_session sid other m = find-erase sid other m.sessions

-- An id that is added finds the session that it found before, if there was one, and the new one
-- otherwise. Every other id finds what it found before.
pub find_session-add_session :
    (sid other : ℕ) (ses : Session) (m : Manager)
    → find_session other (add_session sid ses m).0
      ≡ (if other == sid then some (or_new (find_session sid m) ses) else find_session other m)
unfolding find_session add_session find
find_session-add_session sid other ses m = go (find sid m.sessions) refl
  where
    go :
        (r : Option Session)
        → find sid m.sessions ≡ r
        → find other (added sid ses m r).0.sessions
          ≡ (if other == sid then some (or_new r ses) else find other m.sessions)
    go none new = ground arith
    go (some old) there = elim (Bool-cases (other == sid)) [
      | inl same ↦ rw same (ap (λ t. find t m.sessions) ((==_iff other sid).0 same) ∙ there)
      | inr differs ↦ rw differs refl
    ]

find-update :
    (sid other : ℕ) (new : Session) (t : Sessions)
    → find other (update sid new t)
      ≡ (if other == sid then find sid t >>= (λ _. some new) else find other t)
unfolding find update
find-update sid other new [] = ground arith
find-update sid other new ((i, ses) ∷ t) = ground (arith, find-update sid other new t)

pub find-update_found :
    (sid other : ℕ) (new old : Session) (t : Sessions)
    → find sid t ≡ some old
    → find other (update sid new t) ≡ (if other == sid then some new else find other t)
find-update_found sid other new old t there =
    find-update sid other new t
    ∙ ap (λ r. if other == sid then r else find other t) (ap (λ r. r >>= (λ _. some new)) there)

-- `check_timeouts` changes each session as `expire` does, which closes it where it has been still
-- for too long. It adds none and takes none away.
pub find_session-check_timeouts :
    (now sid : ℕ) (m : Manager)
    → find_session sid (check_timeouts now m)
      ≡ (find_session sid m >>= λ ses. some (expire now m.keepalive_timeout ses))
unfolding find_session check_timeouts find expire_all
find_session-check_timeouts now sid m = go m.sessions
  where
    go :
        (t : Sessions)
        → find sid (expire_all now m.keepalive_timeout t)
          ≡ (find sid t >>= λ ses. some (expire now m.keepalive_timeout ses))
    go [] = refl
    go ((i, ses) ∷ t) = ground (arith, go t)
