-- ===== src/SessionState.antt =====
-- source/bee/io/session.h: the states of a session, and the part of it that a decoded protocol and an
-- error change.
use cassobee.Base.{ℕ}

-- `enum SESSION_STATE`
pub data SessionState : Type 0 where
  idle active sending recving closing : SessionState

-- `enum SESSION_CLOSE_REASON`
pub data CloseReason : Type 0 where
  no_reason by_local by_remote by_timeout by_reset by_error by_exception : CloseReason

pub record Status : Type 0 where
  pub sid : ℕ
  pub manager : ℕ
  pub state : SessionState
  pub close_reason : CloseReason

unfoldable pub set_state : SessionState → Status → Status
set_state st s = record s { state = st }

unfoldable pub set_close_reason : CloseReason → Status → Status
set_close_reason r s = record s { close_reason = r }

unfoldable pub set_close : CloseReason → Status → Status
unfolding set_state set_close_reason
set_close r s = set_close_reason r (set_state closing s)
