-- ===== src/Locks/Tests.antt =====
-- thread/lock.h with two threads.
use cassobee.Base.{ℕ, ◌≤◌, ◌≡◌, ◌↔◌, refl, true, false, [], ◌∷◌, arith}
use cassobee.Locks.{
  spinlock, outside, locking, trying, inside, spin, Spinners, lock, try_lock, access, Reach, here,
  next, TicketSpinlock, take_ticket, is_served,
}
use cassobee.Locks.Exclusion.{holders, Flagged, holders_exclusive}
use cassobee.Locks.Tickets.{draw, release, accesses, take_ticket-accesses}

abbrev free : Spinners
free = record { flag = false; threads = outside ∷ outside ∷ [] }

free-Flagged : Flagged free
unfolding holders
free-Flagged = refl

-- The second thread has the lock, and the first one tries it.
abbrev taken : Spinners
taken = record { flag = true; threads = trying ∷ inside ∷ [] }

free-Reach : Reach spinlock free taken
unfolding spin
free-Reach =
    next (next (next here (lock false (outside ∷ []) [])) (access false (outside ∷ []) [] locking))
      (try_lock true [] (inside ∷ []))

holders_exclusive_example : Flagged taken × (holders taken.threads ≤ 1)
holders_exclusive_example = holders_exclusive spinlock free-Flagged free-Reach

-- A free lock whose counters are about to wrap, and a thread behind two others.
abbrev unused : TicketSpinlock
unused = record { serving = 4294967295; next_ticket = 4294967295 }

take_ticket-accesses_example :
    (is_served (take_ticket (accesses (draw ∷ draw ∷ release ∷ []) unused)).0 (
        accesses
          (draw ∷ release ∷ [])
          (take_ticket (accesses (draw ∷ draw ∷ release ∷ []) unused)).1)
      ≡ true)
    ↔ (◌≡◌ {A = ℕ} 2 2)
take_ticket-accesses_example =
    take_ticket-accesses unused (draw ∷ draw ∷ release ∷ []) (draw ∷ release ∷ []) (omega arith)
      refl (omega arith) (omega arith)
