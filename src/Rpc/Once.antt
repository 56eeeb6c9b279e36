-- ===== src/Rpc/Once.antt =====
-- io/rpc.cpp: a call is answered or times out, once. For a program that calls and relays no rpc.
use cassobee.Base.{ℕ, ◌+◌, ◌≤◌, ◌≡◌, Bool, false, some}
use cassobee.Rpc.{Rpc, World, write_object, set_request, receive, fire}
use cassobee.Rpc.Pending.{
  pending, finished, Inv, Fresh, receive-Good, call-Inv, fire-Good, Good-Inv,
}

-- A program that calls, receives answers and lets timers expire, in any order. The numbers of objects are not used
-- again.
pub data Step (Data : Type 0) (server : Rpc Data → Bool × Rpc Data)
    : World Data → World Data → Type 0 where
  calls :
      (w w' : World Data) (p : ℕ) (r : Rpc Data)
      → Fresh w p
      → r.proxy_traceid ≡ 0
      → set_request false p (write_object w p r) ≡ some w'
      → Step Data server w w'
  receives :
      (w w' : World Data) (p : ℕ) (r : Rpc Data)
      → Fresh w p
      → r.is_server ≡ false
      → receive server p (write_object w p r) ≡ some w'
      → Step Data server w w'
  expires : (w w' : World Data) (id : ℕ) → fire id w ≡ some w' → Step Data server w w'

pub data Reach (Data : Type 0) (server : Rpc Data → Bool × Rpc Data) (start : World Data)
    : World Data → Type 0 where
  here : Reach Data server start start
  next :
      {t u : World Data}
      → Reach Data server start t
      → Step Data server t u
      → Reach Data server start u

module _ {Data : Type 0} {server : Rpc Data → Bool × Rpc Data} where
  Step-Inv : {t u : World Data} → Step Data server t u → Inv t → Inv u
  Step-Inv (calls w w' p r free fresh_proxy e) h = call-Inv w h p r free fresh_proxy e
  Step-Inv (receives w w' p r free client_side e) h =
      Good-Inv (receive-Good w h p r free server client_side) e
  Step-Inv (expires w w' id e) h = Good-Inv (fire-Good w h id) e

  Reach-Inv : {t u : World Data} → Inv t → Reach Data server t u → Inv u
  Reach-Inv h here = h
  Reach-Inv h (next r step) = Step-Inv step (Reach-Inv h r)

  -- Whatever a program without relays does from a state where the invariant holds, an object is answered or timed out once
  -- at most, and not while it still waits; and neither the receipt of an answer nor a timer comes upon an object that is
  -- deleted.
  pub finished_once :
      {t u : World Data}
      → Inv t
      → Reach Data server t u
      → ((p : ℕ) → finished p u.events + pending p u.rpcs ≤ 1)
        × ((id : ℕ) → (w : World Data) × (fire id u ≡ some w))
        × ((m : ℕ) (r : Rpc Data)
            → Fresh u m
            → r.is_server ≡ false
            → (w : World Data) × (receive server m (write_object u m r) ≡ some w))
  finished_once {u = u} h reach =
      let inv = Reach-Inv h reach in
      (
        inv.once,
        λ id. let g = fire-Good u inv id in (g.after, g.returns),
        λ m r free client_side.
            let g = receive-Good u inv m r free server client_side in (g.after, g.returns),
      )
