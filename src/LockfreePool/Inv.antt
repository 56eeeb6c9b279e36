-- ===== src/LockfreePool/Inv.antt =====
-- common/objectpool.h: what holds between any two accesses.
use cassobee.Base.{
  Bool-cases, ℕ, ◌+◌, ◌≤◌, ◌<◌, ◌^◌, ◌≡◌, ◌≢◌, ◌⊎◌, inl, inr, arith, ◌==◌, ltb, if◌then◌else◌, Bool,
  true, Option, none, some, List, [], ◌∷◌, All,
}
use cassobee.LockfreePool.{
  LockfreePool, update, swaps, set_head, advance, Thread, State, idle, alloc_entered, alloc_loaded,
  alloc_swapping, free_entered, free_loaded, free_swapping,
}
use cassobee.LockfreePool.Chain.{Linked, occ, freeing, all_freeing}

-- What a thread knows of the pool. What `alloc` has read of the head's `next` still holds, or the head
-- is another node, or the head has been swapped since.
abbrev pub Known : LockfreePool → Thread → Type 0
Known p idle = Unit {0}
Known p alloc_entered = Unit {0}
Known p (alloc_loaded old c) = c ≤ p.counter
Known p (alloc_swapping i c n) =
    (c ≤ p.counter) × ((c < p.counter) ⊎ ((p.head ≢ some i) ⊎ (p.next i ≡ n)))
Known p (free_entered i) = Unit {0}
Known p (free_loaded i old c) = Unit {0}
Known p (free_swapping i old c) = p.next i ≡ old

-- Every node stands at one place: in the free list, in the caller's hands, or with a thread that gives it back.
abbrev pub Placed : LockfreePool → List ℕ → List ℕ → (ℕ → ℕ) → Type 0
Placed p chain held busy =
    (i : ℕ) → occ i chain + occ i held + busy i ≡ (if ltb i p.cap then 1 else 0)

-- `steps` bounds the swaps of the head.
pub record Inv (steps : ℕ) (st : State) : Type 0 where
  pub chain : List ℕ
  pub linked : Linked st.pool.next st.pool.head chain
  pub placed : Placed st.pool chain st.held (λ i. all_freeing i st.threads)
  pub swapped : st.pool.counter ≤ steps
  pub known : All (λ t. Known st.pool t) st.threads

pub head_occ :
    (next : ℕ → Option ℕ) (head : Option ℕ) (chain : List ℕ) (j : ℕ)
    → Linked next head chain
    → head ≡ some j
    → 1 ≤ occ j chain
unfolding occ
head_occ next head [] j l e = absurd (ground arith)
head_occ next head (i ∷ is) j l e = ground arith

swap_Known :
    (p : LockfreePool) (n : Option ℕ) (ready : ℕ → Bool) (u : Thread)
    → p.counter + 1 < 2 ^ 64
    → Known p u
    → Known (record (set_head p n) { initialized = ready }) u
swap_Known p n ready idle b k = tt
swap_Known p n ready alloc_entered b k = tt
swap_Known p n ready (alloc_loaded old c) b k = omega arith
swap_Known p n ready (alloc_swapping i c m) b k = (omega arith, inl (omega arith))
swap_Known p n ready (free_entered i) b k = tt
swap_Known p n ready (free_loaded i old c) b k = tt
swap_Known p n ready (free_swapping i old c) b k = k

-- A node that is given back is not the head, so no thread has read its `next` to swap the head.
write_Known :
    (p : LockfreePool) (i : ℕ) (old : Option ℕ) (u : Thread) (chain : List ℕ)
    → Linked p.next p.head chain
    → occ i chain ≡ 0
    → freeing i u ≡ 0
    → Known p u
    → Known (record p { next = update p.next i old }) u
write_Known p i old idle chain l o h k = tt
write_Known p i old alloc_entered chain l o h k = tt
write_Known p i old (alloc_loaded was c) chain l o h k = k
write_Known p i old (alloc_swapping j c n) chain l o h (m, inl less) = (m, inl less)
write_Known p i old (alloc_swapping j c n) chain l o h (m, inr (inl ne)) = (m, inr (inl ne))
write_Known p i old (alloc_swapping j c n) chain l o h (m, inr (inr e)) =
    elim (Bool-cases (i == j)) [
      | inl same ↦ (m, inr (inl (λ at. ground (arith, head_occ p.next p.head chain j l at))))
      | inr apart ↦ (m, inr (inr (ground arith)))
    ]
write_Known p i old (free_entered j) chain l o h k = tt
write_Known p i old (free_loaded j was c) chain l o h k = tt
write_Known p i old (free_swapping j was c) chain l o h k = ground arith

-- The accesses of a thread keep what another thread knows, if the two give back no node both.
pub advance-Known :
    (fails : Bool) (p : LockfreePool) (t u : Thread) (chain : List ℕ)
    → Linked p.next p.head chain
    → ((i : ℕ) → occ i chain + freeing i t + freeing i u ≤ 1)
    → p.counter + 1 < 2 ^ 64
    → Known p u
    → Known (advance fails p t).0 u
unfolding advance
advance-Known fails p idle u chain l once b k = k
advance-Known fails p alloc_entered u chain l once b k = k
advance-Known fails p (alloc_loaded none c) u chain l once b k = k
advance-Known fails p (alloc_loaded (some i) c) u chain l once b k = k
advance-Known fails p (alloc_swapping i c n) u chain l once b k =
    elim (Bool-cases (swaps fails p (some i) c)) [
      | inl yes_swap ↦ rw yes_swap (swap_Known p n (update p.initialized i true) u b k)
      | inr no_swap ↦ rw no_swap k
    ]
advance-Known fails p (free_entered i) u chain l once b k = elim (Bool-cases (ltb i p.cap)) [
  | inl inside ↦ rw inside k
  | inr outside ↦ rw outside k
]
advance-Known fails p (free_loaded i old c) u chain l once b k =
    write_Known p i old u chain l (ground (arith, once i)) (ground (arith, once i)) k
advance-Known fails p (free_swapping i old c) u chain l once b k =
    elim (Bool-cases (swaps fails p old c)) [
      | inl yes_swap ↦ rw yes_swap (swap_Known p (some i) p.initialized u b k)
      | inr no_swap ↦ rw no_swap k
    ]
