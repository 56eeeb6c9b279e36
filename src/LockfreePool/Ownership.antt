-- ===== src/LockfreePool/Ownership.antt =====
-- common/objectpool.h: a node is never handed out twice.
use cassobee.Base.{
  ℕ, suc, ◌+◌, ◌≤◌, ◌<◌, ◌^◌, ◌≡◌, ap, sym, ◌∙◌, arith, ltb, if◌then◌else◌, Bool, true, false, List,
  [], ◌∷◌, ◌++◌, All, All-append, All-split, All-zip,
}
use mathlib.Core.Path.{subst}
use cassobee.LockfreePool.{
  LockfreePool, advance, hand, Thread, State, Step, enter_alloc, enter_free, access, Reach, here,
  onward, idle, alloc_entered, free_entered,
}
use cassobee.LockfreePool.Chain.{Linked, occ, occ-append, freeing, all_freeing, all_freeing-append}
use cassobee.LockfreePool.Inv.{Known, Inv, advance-Known}
use cassobee.LockfreePool.Access.{Outcome, access-Outcome}

bit_small : (b : Bool) → (if b then 1 else 0) ≤ 1
bit_small true = omega arith
bit_small false = omega arith

-- One of many threads gives back no more than all.
each_freeing :
    (bound : ℕ → ℕ) (ts : List Thread)
    → ((i : ℕ) → all_freeing i ts ≤ bound i)
    → All (λ t. (i : ℕ) → freeing i t ≤ bound i) ts
unfolding all_freeing
each_freeing bound [] h = tt
each_freeing bound (t ∷ ts) h =
    (λ i. omega (arith, h i), each_freeing bound ts (λ i. omega (arith, h i)))

module _ (fails : Bool) (p : LockfreePool) (before after : List Thread) (t : Thread) (held : List ℕ)
    (n : ℕ) (h : Inv n (record { pool = p; threads = before ++ (t ∷ after); held = held }))
    (b : n + 1 < 2 ^ 64) where
  others : ℕ → ℕ
  others i = all_freeing i before + all_freeing i after

  one_place :
      (i : ℕ)
      → occ i h.chain + occ i held + (freeing i t + others i) ≡ (if ltb i p.cap then 1 else 0)
  unfolding all_freeing others
  one_place i = omega (arith, h.placed i, all_freeing-append i before (t ∷ after))

  known : All (λ u. Known p u) before × All (λ u. Known p u) (t ∷ after)
  known = All-split (λ u. Known p u) before (t ∷ after) h.known

  outcome : Outcome p t h.chain held (advance fails p t)
  outcome =
      access-Outcome fails p t h.chain held h.linked (λ i. omega (arith, one_place i)) known.1.0
        (omega (arith, h.swapped, b))

  still-Known :
      (us : List Thread)
      → ((i : ℕ) → all_freeing i us ≤ others i)
      → All (λ u. Known p u) us
      → All (λ u. Known (advance fails p t).0 u) us
  still-Known us few k =
      All-zip (λ u. Known p u) (λ u. (i : ℕ) → freeing i u ≤ others i)
        (λ u. Known (advance fails p t).0 u)
        (λ u known_before alone.
          advance-Known fails p t u h.chain h.linked
            (λ i. omega (arith, one_place i, alone i, bit_small (ltb i p.cap)))
            (omega (arith, h.swapped, b)) known_before)
        us k (each_freeing others us few)

  access-Inv : Inv (n + 1) (record {
    pool = (advance fails p t).0;
    threads = before ++ ((advance fails p t).1 ∷ after);
    held = hand (advance fails p t).2 held;
  })
  unfolding all_freeing others
  access-Inv = record {
    chain = outcome.chain';
    linked = outcome.linked;
    placed = λ i.
        omega (
          arith,
          one_place i,
          outcome.moves i,
          all_freeing-append i before ((advance fails p t).1 ∷ after),
        )
        ∙ ap (λ m. if ltb i m then 1 else 0) (sym outcome.same_cap);
    swapped = omega (arith, outcome.swapped, h.swapped);
    known =
        All-append (λ u. Known (advance fails p t).0 u) before ((advance fails p t).1 ∷ after)
          (still-Known before (λ i. omega arith) known.0)
          (outcome.knows, still-Known after (λ i. omega arith) known.1.1);
  }

Step-Inv : (n : ℕ) {t u : State} → n + 1 < 2 ^ 64 → Step t u → Inv n t → Inv (n + 1) u
unfolding all_freeing occ
Step-Inv n b (access fails p before after t held) h = access-Inv fails p before after t held n h b
Step-Inv n b (enter_alloc p before after held) h = record {
  chain = h.chain;
  linked = h.linked;
  placed = λ i. omega (
    arith,
    h.placed i,
    all_freeing-append i before (idle ∷ after),
    all_freeing-append i before (alloc_entered ∷ after),
  );
  swapped = omega (arith, h.swapped);
  known = All-append (λ u. Known p u) before (alloc_entered ∷ after) known.0 (tt, known.1.1);
}
  where
    known : All (λ u. Known p u) before × All (λ u. Known p u) (idle ∷ after)
    known = All-split (λ u. Known p u) before (idle ∷ after) h.known
Step-Inv n b (enter_free p before after i newer older) h = record {
  chain = h.chain;
  linked = h.linked;
  placed = λ j. omega (
    arith,
    h.placed j,
    all_freeing-append j before (idle ∷ after),
    all_freeing-append j before (free_entered i ∷ after),
    occ-append j newer (i ∷ older),
    occ-append j newer older,
  );
  swapped = omega (arith, h.swapped);
  known = All-append (λ u. Known p u) before (free_entered i ∷ after) known.0 (tt, known.1.1);
}
  where
    known : All (λ u. Known p u) before × All (λ u. Known p u) (idle ∷ after)
    known = All-split (λ u. Known p u) before (idle ∷ after) h.known

one_more : (n : ℕ) {u : State} → Inv (n + 1) u → Inv (suc n) u
one_more n {u = u} h = subst (λ k. Inv k u) count h
  where
    count : n + 1 ≡ suc n
    count = omega arith

-- Of fewer than 2 ^ 64 steps of any threads, none breaks the invariant.
pub Reach-Inv : {start u : State} (n : ℕ) → n < 2 ^ 64 → Inv 0 start → Reach start n u → Inv n u
Reach-Inv n b h here = h
Reach-Inv (suc m) b h (onward r step) =
    one_more m (Step-Inv m (omega arith) step (Reach-Inv m (omega arith) h r))

-- After fewer than 2 ^ 64 steps from such a state, a node below the capacity stands exactly once among the free
-- nodes, the nodes that are handed out and those that threads are giving back; no other node stands there.
pub nodes_once :
    {start u : State} (n : ℕ)
    → n < 2 ^ 64
    → Inv 0 start
    → Reach start n u
    → (chain : List ℕ) × Linked (u.pool).next (u.pool).head chain
      × ((i : ℕ)
          → occ i chain + occ i u.held + all_freeing i u.threads
            ≡ (if ltb i (u.pool).cap then 1 else 0))
nodes_once n b h r = let inv = Reach-Inv n b h r in (inv.chain, inv.linked, inv.placed)
