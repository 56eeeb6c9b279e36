-- ===== src/Rpc/Relay.antt =====
-- io/rpc.cpp: what becomes of an rpc that is passed on, and of the timer of a call.
use cassobee.Base.{
  ℕ, ◌*◌, ◌%◌, ◌^◌, ◌<◌, ◌≡◌, ◌≢◌, refl, ap, arith, Bool, false, Option, none, some, List, ◌∷◌,
  add64,
}
use cassobee.Rpc.{
  Rpc, World, find, timed, milliseconds, emplaced, positive, enter, set_request, set_timeout_timer,
  fire, time_out,
}

-- The trace id of the next call, and the seconds that it may take.
abbrev pub next_id : {Data : Type 0} → World Data → ℕ
next_id w = add64 w.next_traceid 1

abbrev pub seconds : {Data : Type 0} → Rpc Data → ℕ
seconds r = positive r.timeout 30

find-emplaced :
    (id p : ℕ) (rpcs : List (ℕ × ℕ))
    → find id rpcs ≡ none
    → find id (emplaced id p rpcs (find id rpcs)) ≡ some p
find-emplaced id p rpcs e = rw e (ground arith)

find-emplaced_other :
    (id other p : ℕ) (rpcs : List (ℕ × ℕ)) (found : Option ℕ)
    → id ≢ other
    → find other rpcs ≡ none
    → find other (emplaced id p rpcs found) ≡ none
find-emplaced_other id other p rpcs none ne e = ground arith
find-emplaced_other id other p rpcs (some q) ne e = e

abbrev pub timer_of : {Data : Type 0} → ℕ → ℕ → World Data → World Data
timer_of look ms w = record w { timers = (look, ms) ∷ w.timers }

module _ {Data : Type 0} (w : World Data) (p : ℕ) (small : next_id w < 2147484) where
  -- A trace id below 2147484 is an int, and so is its product with 1000.
  set_timeout_timer-small :
      (look : ℕ) (u : World Data)
      → set_timeout_timer look (next_id w) u ≡ some (timer_of look (next_id w * 1000) u)
  unfolding set_timeout_timer
  set_timeout_timer-small look u = ap (timed look u) (kept (next_id w) small)
    where
      kept : (n : ℕ) → n < 2147484 → milliseconds (n % 2 ^ 32) ≡ some (n * 1000)
      kept n b = ground arith

  set_request-timer :
      (is_proxy : Bool) (u : World Data) (r : Rpc Data)
      → u.next_traceid ≡ w.next_traceid
      → u.objects p ≡ some r
      → set_request is_proxy p u
        ≡ some (timer_of (seconds r) (next_id w * 1000) (enter is_proxy p r (next_id w) u))
  unfolding set_request
  set_request-timer is_proxy u r same here =
      rw (here, same) (set_timeout_timer-small (seconds r) (enter is_proxy p r (next_id w) u))

  -- set_request of a call, whose trace id is not in use, sets a timer that looks for the number of seconds in place of the
  -- trace id, after as many seconds as the trace id says. If the trace id is another number, and no call has that number
  -- as its trace id, the timer finds nothing and the call stays. The trace id is below 2147484, where the milliseconds
  -- are an int.
  pub set_request-fire :
      (r : Rpc Data)
      → w.objects p ≡ some r
      → find (next_id w) w.rpcs ≡ none
      → find (seconds r) w.rpcs ≡ none
      → next_id w ≢ seconds r
      → (w' : World Data) × (set_request false p w ≡ some w')
        × (w'.timers ≡ (seconds r, next_id w * 1000) ∷ w.timers)
        × (find (next_id w) w'.rpcs ≡ some p)
        × (fire (seconds r) w' ≡ some w')
  unfolding fire
  set_request-fire r here unused none_there apart =
      let w' : World Data =
        timer_of (seconds r) (next_id w * 1000) (enter false p r (next_id w) w) in
      (
        w',
        set_request-timer false w r refl here,
        refl,
        find-emplaced (next_id w) p w.rpcs unused,
        ap (λ f. time_out (seconds r) f w')
            (find-emplaced_other (next_id w) (seconds r) p w.rpcs (find (next_id w) w.rpcs) apart
              none_there),
      )
