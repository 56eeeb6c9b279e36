-- ===== src/Locks.antt =====
-- source/bee/thread/lock.h: spinlock, atomic_spinlock and ticket_spinlock, one atomic access of one thread at a time.
pub mod Exclusion
pub mod Tickets
mod Tests
use cassobee.Base.{
  ℕ, suc, ◌+◌, ◌%◌, ◌^◌, ◌==◌, if◌then◌else◌, Bool, true, false, List, [], ◌∷◌, ◌++◌,
}

-- The two locks that are one flag: after a failed exchange a spinlock reads the flag until it is clear.
pub data Kind : Type 0 where
  spinlock : Kind
  atomic_spinlock : Kind

-- Where a thread is: before the exchange of `lock`, in the inner loop, before that of `try_lock`, and between a
-- lock and its `unlock`.
pub data Spinner : Type 0 where
  outside : Spinner
  locking : Spinner
  pausing : Spinner
  trying : Spinner
  inside : Spinner

abbrev pub again : Kind → Spinner
again spinlock = pausing
again atomic_spinlock = locking

-- A thread's next access, and the flag after it.
unfoldable pub spin : Kind → Bool → Spinner → Bool × Spinner
spin kind flag outside = (flag, outside)
spin kind flag locking = (true, if flag then again kind else inside)
spin kind flag pausing = (flag, if flag then pausing else locking)
spin kind flag trying = (true, if flag then outside else inside)
spin kind flag inside = (false, outside)

pub record Spinners : Type 0 where
  pub flag : Bool
  pub threads : List Spinner

pub data Step (kind : Kind) : Spinners → Spinners → Type 0 where
  lock :
      (flag : Bool) (before after : List Spinner)
      → Step kind
          (record { flag = flag; threads = before ++ (outside ∷ after) })
          (record { flag = flag; threads = before ++ (locking ∷ after) })
  try_lock :
      (flag : Bool) (before after : List Spinner)
      → Step kind
          (record { flag = flag; threads = before ++ (outside ∷ after) })
          (record { flag = flag; threads = before ++ (trying ∷ after) })
  access :
      (flag : Bool) (before after : List Spinner) (t : Spinner)
      → Step kind
          (record { flag = flag; threads = before ++ (t ∷ after) })
          (record {
            flag = (spin kind flag t).0;
            threads = before ++ ((spin kind flag t).1 ∷ after);
          })

pub data Reach (kind : Kind) (start : Spinners) : Spinners → Type 0 where
  here : Reach kind start start
  next : {t u : Spinners} → Reach kind start t → Step kind t u → Reach kind start u

-- ticket_spinlock, whose two counters are unsigned.
pub record TicketSpinlock : Type 0 where
  pub serving : ℕ
  pub next_ticket : ℕ

abbrev pub add32 : ℕ → ℕ → ℕ
add32 a b = (a + b) % 2 ^ 32

-- `lock` up to its loop: the ticket.
unfoldable pub take_ticket : TicketSpinlock → ℕ × TicketSpinlock
take_ticket l = (l.next_ticket, record l { next_ticket = add32 l.next_ticket 1 })

-- The test of the loop: whether `lock` returns now.
unfoldable pub is_served : ℕ → TicketSpinlock → Bool
is_served ticket l = l.serving == ticket

unfoldable pub unlock : TicketSpinlock → TicketSpinlock
unlock l = record l { serving = add32 l.serving 1 }

-- Its two loads, with no access of another thread in between.
unfoldable pub try_ticket : TicketSpinlock → Bool
try_ticket l = l.serving == l.next_ticket
