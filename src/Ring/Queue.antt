-- ===== src/Ring/Queue.antt =====
-- utility/ring_buffer.h: the ring is a queue of bytes.
use cassobee.Base.{ℕ, ◌+◌, ◌%◌, ◌≤◌, ◌≡◌, List}
use cassobee.Ring.{Ring}
use cassobee.Ring.Bytewise.{Fits}
use cassobee.Ring.Window.{window}

-- The bytes that the ring holds, the oldest first.
unfoldable pub queue : Ring → List ℕ
queue r = window r.cells r.capacity r.read_cursor r.size

-- The write cursor stands behind the held bytes.
pub record IsValid (r : Ring) : Type 0 where
  pub fits : Fits r
  pub within : r.size ≤ r.capacity
  pub behind : r.write_cursor ≡ (r.read_cursor + r.size) % r.capacity
