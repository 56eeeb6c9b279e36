-- ===== src/LockfreePool/Alone.antt =====
-- common/objectpool.h: what a call does when no other thread comes in between.
use cassobee.Base.{
  Bool-cases, inl, inr, ℕ, ◌≡◌, refl, ap, sym, ◌∙◌, arith, ltb, true, false, Option, none, some,
}
use cassobee.LockfreePool.{
  LockfreePool, advance, Thread, idle, alloc_entered, alloc_loaded, alloc_swapping, free_entered,
  free_loaded, alloc, free, take_node, same_node, swaps, update,
}

-- A thread's accesses, of which none fails, from one place in a call to its end.
pub data Alone : LockfreePool → Thread → Option ℕ → LockfreePool → Type 0 where
  done :
      {p q : LockfreePool} {t : Thread} {result : Option ℕ}
      → advance false p t ≡ (q, idle, result)
      → Alone p t result q
  more :
      {p q r : LockfreePool} {t u : Thread} {result : Option ℕ}
      → advance false p t ≡ (q, u, none)
      → Alone q u result r
      → Alone p t result r

same_node_refl : (a : Option ℕ) → same_node a a ≡ true
same_node_refl none = refl
same_node_refl (some i) = ground arith

swaps_refl : (p : LockfreePool) → swaps false p p.head p.counter ≡ true
swaps_refl p = rw (same_node_refl p.head) (ground arith)

alloc_from :
    (p : LockfreePool) (h : Option ℕ)
    → p.head ≡ h
    → Alone p (alloc_loaded h p.counter) (take_node p h).0 (take_node p h).1
unfolding advance
alloc_from p none e = done refl
alloc_from p (some i) e = more refl (done {t = alloc_swapping i p.counter (p.next i)} (rw now))
  where
    now : swaps false p (some i) p.counter ≡ true
    now = ap (λ h. swaps false p h p.counter) (sym e) ∙ swaps_refl p

free_from : (i : ℕ) (p : LockfreePool) → Alone p (free_entered i) none (free i p)
unfolding advance free
free_from i p = elim (Bool-cases (ltb i p.cap)) [
  | inl inside ↦ rw inside (
      more {q = p} {t = free_entered i} {u = free_loaded i p.head p.counter} (rw inside)
        (more refl (done (rw (swaps_refl (record p { next = update p.next i p.head }))))))
  | inr outside ↦ rw outside (done {t = free_entered i} (rw outside))
]

-- With no access of another thread in between, `alloc` and `free` end with what the calls by themselves give.
pub alloc-Alone :
    (p : LockfreePool)
    → Alone p alloc_entered (alloc p).0 (alloc p).1
      × ((i : ℕ) → Alone p (free_entered i) none (free i p))
unfolding advance alloc
alloc-Alone p = (more refl (alloc_from p p.head refl), λ i. free_from i p)
