-- ===== src/Locks/Tickets.antt =====
-- thread/lock.h: the order of a ticket_spinlock, and its try_lock.
use cassobee.Base.{ℕ, suc, ◌+◌, ◌%◌, ◌^◌, ◌<◌, ◌≡◌, ◌↔◌, ◌∙◌, arith, true, List, [], ◌∷◌}
use cassobee.Locks.{TicketSpinlock, take_ticket, is_served, unlock, try_ticket}

-- What any thread does to the two counters: it draws a ticket, or it unlocks.
pub data Access : Type 0 where
  draw : Access
  release : Access

abbrev pub access : Access → TicketSpinlock → TicketSpinlock
access draw l = (take_ticket l).1
access release l = unlock l

unfoldable pub accesses : List Access → TicketSpinlock → TicketSpinlock
accesses [] l = l
accesses (a ∷ rest) l = accesses rest (access a l)

abbrev pub draws : List Access → ℕ
draws [] = 0
draws (draw ∷ rest) = suc (draws rest)
draws (release ∷ rest) = draws rest

abbrev pub releases : List Access → ℕ
releases [] = 0
releases (draw ∷ rest) = releases rest
releases (release ∷ rest) = suc (releases rest)

-- The counters count the draws and the unlocks.
accesses-counters :
    (moves : List Access) (l : TicketSpinlock)
    → l.serving < 2 ^ 32
    → l.next_ticket < 2 ^ 32
    → ((accesses moves l).serving ≡ (l.serving + releases moves) % 2 ^ 32)
      × ((accesses moves l).next_ticket ≡ (l.next_ticket + draws moves) % 2 ^ 32)
unfolding accesses take_ticket unlock
accesses-counters [] l b c = (omega arith, omega arith)
accesses-counters (draw ∷ rest) l b c =
    let h = accesses-counters rest (take_ticket l).1 b (omega arith) in (h.0, h.1 ∙ omega arith)
accesses-counters (release ∷ rest) l b c =
    let h = accesses-counters rest (unlock l) (omega arith) c in (h.0 ∙ omega arith, h.1)

-- On a lock that is free, with both counters at the same number, a thread that draws its ticket behind any draws and
-- unlocks is served, behind any further ones, exactly if as many unlocks have been done as there were draws before its
-- own: tickets are served in the order in which they are drawn. There are fewer than 2 ^ 32 of these draws and of the
-- unlocks.
pub take_ticket-accesses :
    (l : TicketSpinlock) (before after : List Access)
    → l.serving < 2 ^ 32
    → l.next_ticket ≡ l.serving
    → draws before < 2 ^ 32
    → releases before + releases after < 2 ^ 32
    → (is_served
          (take_ticket (accesses before l)).0
          (accesses after (take_ticket (accesses before l)).1)
        ≡ true)
      ↔ (releases before + releases after ≡ draws before)
unfolding take_ticket is_served
take_ticket-accesses l before after b same few less =
    let h = accesses-counters before l b (omega arith) in
    let k =
      accesses-counters after (take_ticket (accesses before l)).1 (omega arith) (omega arith) in
    (λ served. ground (arith, h, k), λ even. ground (arith, h, k))

-- A try_lock that succeeds draws no ticket, so the next lock returns at once, beside it.
pub try_ticket-take_ticket :
    (l : TicketSpinlock)
    → try_ticket l ≡ true
    → is_served (take_ticket l).0 (take_ticket l).1 ≡ true
unfolding try_ticket take_ticket is_served
try_ticket-take_ticket l h = h
