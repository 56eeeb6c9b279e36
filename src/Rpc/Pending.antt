-- ===== src/Rpc/Pending.antt =====
-- io/rpc.cpp: a call is answered or times out, once. For a program that calls and relays no rpc.
use cassobee.Base.{
  Bool-cases, ◌⊎◌, inl, inr, ℕ, ◌+◌, ◌≤◌, ◌≡◌, ◌≢◌, refl, ap, sym, ◌∙◌, arith, ◌==◌, ◌%◌, ◌^◌,
  if◌then◌else◌, Bool, true, false, Option, none, some, ◌>>=◌, List, [], ◌∷◌, add64,
}
use mathlib.Core.Path.{subst}
use cassobee.LockfreePool.{update}
use cassobee.Rpc.{
  Rpc, Event, client, timed_out, sent, World, find, erase, emplaced, write_object, delete, happens,
  enter, set_request, set_timeout_timer, timed, milliseconds, positive, run, run_found, run_object,
  served, answer, receive, fire, time_out,
}

-- How often an object waits in `_rpcs`.
unfoldable pub pending : ℕ → List (ℕ × ℕ) → ℕ
pending p [] = 0
pending p ((i, q) ∷ rest) = (if q == p then 1 else 0) + pending p rest

-- How often an object was answered or timed out.
unfoldable pub finished : {Data : Type 0} → ℕ → List (Event Data) → ℕ
finished p [] = 0
finished p (client q a r ∷ es) = (if q == p then 1 else 0) + finished p es
finished p (timed_out q a ∷ es) = (if q == p then 1 else 0) + finished p es
finished p (sent m s r ∷ es) = finished p es

pending-erase :
    (id q p : ℕ) (rpcs : List (ℕ × ℕ))
    → find id rpcs ≡ some q
    → pending p (erase id rpcs) + (if q == p then 1 else 0) ≡ pending p rpcs
unfolding pending
pending-erase id q p [] e = absurd (ground arith)
pending-erase id q p ((i, o) ∷ rest) e = ground (arith, pending-erase id q p rest)

pending-emplaced :
    (id p q : ℕ) (rpcs : List (ℕ × ℕ)) (found : Option ℕ)
    → pending p (emplaced id q rpcs found) ≤ (if q == p then 1 else 0) + pending p rpcs
unfolding pending
pending-emplaced id p q rpcs none = omega arith
pending-emplaced id p q rpcs (some o) = omega arith

module _ {Data : Type 0} where
  abbrev pub Live : Option (Rpc Data) → Type 0
  Live none = ⊥
  Live (some r) = r.proxy_traceid ≡ 0

  some_injective : {a b : World Data} → some a ≡ some b → a ≡ b
  some_injective e = cc

  -- An object waits or is finished, once at most, and one that waits is not deleted.
  pub record Inv (w : World Data) : Type 0 where
    pub once : (p : ℕ) → finished p w.events + pending p w.rpcs ≤ 1
    pub live : (p : ℕ) → 1 ≤ pending p w.rpcs → Live (w.objects p)

  -- The call is no fault, and the invariant holds behind it.
  pub record Good (out : Option (World Data)) : Type 0 where
    pub after : World Data
    pub returns : out ≡ some after
    pub inv : Inv after

  pub Live-other :
      (w : World Data) (q p : ℕ) (o : Option (Rpc Data))
      → q ≢ p
      → Live (w.objects p)
      → Live (update w.objects q o p)
  Live-other w q p o ne l = subst Live (ground arith) l

  time_out-Good :
      (w : World Data)
      → Inv w
      → (id : ℕ) (found : Option ℕ) → find id w.rpcs ≡ found
      → Good (time_out id found w)
  unfolding finished
  time_out-Good w h id none e = record { after = w; returns = refl; inv = h }
  time_out-Good w h id (some q) e =
      expired (w.objects q) refl (h.live q (ground (arith, pending-erase id q q w.rpcs e)))
    where
      expired : (o : Option (Rpc Data)) → w.objects q ≡ o → Live o → Good (time_out id (some q) w)
      expired none oe l = absurd l
      expired (some c) oe l = record {
        after = delete (happens (record w { rpcs = erase id w.rpcs }) (timed_out q c.argument)) q;
        returns = rw oe;
        inv = record {
          once = λ p. omega (arith, h.once p, pending-erase id q p w.rpcs e);
          live = λ p waits.
              Live-other w q p none
                (λ same. ground (arith, h.once p, pending-erase id q p w.rpcs e))
                (h.live p (omega (arith, waits, pending-erase id q p w.rpcs e)));
        };
      }

  -- A message object that is neither waiting nor finished.
  abbrev pub Fresh : World Data → ℕ → Type 0
  Fresh w p = finished p w.events + pending p w.rpcs ≡ 0

  module _ (w : World Data) (h : Inv w) (m : ℕ) (r : Rpc Data) (free : Fresh w m) where
    abbrev pub arrived : World Data
    arrived = write_object w m r

    -- The object of an entry is not the message.
    apart : (id q : ℕ) → find id w.rpcs ≡ some q → m ≢ q
    apart id q e same = ground (arith, pending-erase id q q w.rpcs e)

    ended : ℕ → Rpc Data → World Data
    ended q c =
        delete
          (delete
            (happens
              (write_object
                (write_object (record arrived { rpcs = erase r.traceid w.rpcs }) m
                  (record r { result = c.result }))
                q (record c { result = r.result }))
              (client q c.argument r.result))
            q)
          m

    ended-Inv : (q : ℕ) (c : Rpc Data) → find r.traceid w.rpcs ≡ some q → Inv (ended q c)
    unfolding ended finished
    ended-Inv q c e = record {
      once = λ p. omega (arith, h.once p, pending-erase r.traceid q p w.rpcs e);
      live = λ p waits.
          subst Live
            (untouched p (λ same. ground (arith, pending-erase r.traceid q p w.rpcs e))
              (λ same. ground (arith, h.once p, pending-erase r.traceid q p w.rpcs e)))
            (h.live p (omega (arith, waits, pending-erase r.traceid q p w.rpcs e)));
    }
      where
        untouched : (p : ℕ) → m ≢ p → q ≢ p → w.objects p ≡ (ended q c).objects p
        untouched p ne nf = ground arith

    answered :
        (q : ℕ) (o : Option (Rpc Data))
        → find r.traceid w.rpcs ≡ some q
        → arrived.objects q ≡ o
        → Live o
        → Good (
            answer m q r (arrived.objects q) (record arrived { rpcs = erase r.traceid w.rpcs })
            >>= λ w'. some (delete w' m))
    unfolding ended
    answered q none e oe l = absurd l
    answered q (some c) e oe l = record {
      after = ended q c;
      returns =
          ap
            (λ o. answer m q r o (record arrived { rpcs = erase r.traceid w.rpcs }) >>= λ w'.
              some (delete w' m))
            oe
          ∙ rw l;
      inv = ended-Inv q c e;
    }

    replied :
        (found : Option ℕ)
        → find r.traceid w.rpcs ≡ found
        → Good (run_found m r found arrived >>= λ w'. some (delete w' m))
    replied none e = record {
      after = delete arrived m;
      returns = refl;
      inv = record { once = h.once; live = λ p waits. subst Live (ground arith) (h.live p waits) };
    }
    replied (some q) e = answered q (arrived.objects q) e refl (
        Live-other w m q (some r) (apart r.traceid q e)
          (h.live q (ground (arith, pending-erase r.traceid q q w.rpcs e))))

    pub receive-Good :
        (server : Rpc Data → Bool × Rpc Data)
        → r.is_server ≡ false
        → Good (receive server m arrived)
    unfolding receive run
    receive-Good server client_side =
        subst Good (ap (λ o. run_object server m o arrived >>= λ w'. some (delete w' m)) (sym here))
          (subst Good
            (ap
              (λ b.
                (if b
                  then served m (server r) arrived
                  else run_found m r (find r.traceid w.rpcs) arrived)
                >>= λ w'. some (delete w' m))
              (sym client_side))
            (replied (find r.traceid w.rpcs) refl))
      where
        here : arrived.objects m ≡ some r
        here = ground arith

    pub call-Inv :
        {w' : World Data} → r.proxy_traceid ≡ 0 → set_request false m arrived ≡ some w' → Inv w'
    unfolding set_request set_timeout_timer pending
    call-Inv none_kept e =
        timed-Inv (positive r.timeout 30) (milliseconds (add64 w.next_traceid 1 % 2 ^ 32)) (
          ap
            (λ o. o >>= λ c.
              timed (positive c.timeout 30) (enter false m c (add64 w.next_traceid 1) arrived)
                (milliseconds (add64 w.next_traceid 1 % 2 ^ 32)))
            (sym here)
          ∙ e)
      where
        here : arrived.objects m ≡ some r
        here = ground arith

        entered :
            (p : ℕ)
            → pending p
                (emplaced (add64 w.next_traceid 1) m w.rpcs (find (add64 w.next_traceid 1) w.rpcs))
              ≤ (if m == p then 1 else 0) + pending p w.rpcs
        entered p =
            pending-emplaced (add64 w.next_traceid 1) p m w.rpcs
              (find (add64 w.next_traceid 1) w.rpcs)

        entered_live :
            (p : ℕ)
            → 1
              ≤ pending p (
                  emplaced (add64 w.next_traceid 1) m w.rpcs (find (add64 w.next_traceid 1) w.rpcs))
            → ((m == p) ≡ true) ⊎ ((m == p) ≡ false)
            → Live ((enter false m r (add64 w.next_traceid 1) arrived).objects p)
        entered_live p waits (inl same) = rw same none_kept
        entered_live p waits (inr other) = rw other (h.live p (ground (arith, entered p)))

        entered-Inv : Inv (enter false m r (add64 w.next_traceid 1) arrived)
        entered-Inv = record {
          once = λ p. ground (arith, h.once p, entered p);
          live = λ p waits. entered_live p waits (Bool-cases (m == p));
        }

        timed-Inv :
            {w' : World Data} (look : ℕ) (ms : Option ℕ)
            → timed look (enter false m r (add64 w.next_traceid 1) arrived) ms ≡ some w'
            → Inv w'
        timed-Inv look none e = absurd (ground arith)
        timed-Inv look (some t) e =
            subst Inv (some_injective e)
              (record { once = entered-Inv.once; live = entered-Inv.live })

  pub Good-Inv : {out : Option (World Data)} {w' : World Data} → Good out → out ≡ some w' → Inv w'
  Good-Inv g e = subst Inv (some_injective (sym g.returns ∙ e)) g.inv

  pub fire-Good : (w : World Data) → Inv w → (id : ℕ) → Good (fire id w)
  unfolding fire
  fire-Good w h id = time_out-Good w h id (find id w.rpcs) refl
