-- ===== src/LockfreePool/Access.antt =====
-- common/objectpool.h: what one access does to the places of the nodes.
use cassobee.Base.{
  Bool-cases, ℕ, ◌+◌, ◌≤◌, ◌<◌, ◌^◌, ◌≡◌, inl, inr, refl, sym, ◌∙◌, arith, ltb, if◌then◌else◌, Bool,
  true, false, Option, none, some, List, [], ◌∷◌,
}
use mathlib.Core.Path.{subst}
use cassobee.LockfreePool.{
  LockfreePool, update, swaps, same_node, set_head, advance, hand, Thread, idle, alloc_entered,
  alloc_loaded, alloc_swapping, free_entered, free_loaded, free_swapping,
}
use cassobee.LockfreePool.Chain.{Linked, Linked-update, occ, freeing}
use cassobee.LockfreePool.Inv.{Known}

-- What a thread's access does to the free list and to the places of the nodes.
pub record Outcome (p : LockfreePool) (t : Thread) (chain held : List ℕ)
    (out : LockfreePool × Thread × Option ℕ) : Type 0 where
  pub chain' : List ℕ
  pub linked : Linked (out.0).next (out.0).head chain'
  pub moves :
      (i : ℕ)
      → occ i chain' + freeing i out.1 + occ i (hand out.2 held)
        ≡ occ i chain + freeing i t + occ i held
  pub same_cap : (out.0).cap ≡ p.cap
  pub knows : Known out.0 out.1
  pub swapped : (out.0).counter ≤ p.counter + 1

same :
    (p : LockfreePool) (t u : Thread) (chain held : List ℕ)
    → Linked p.next p.head chain
    → ((i : ℕ) → freeing i u ≡ freeing i t)
    → Known p u
    → Outcome p t chain held (p, u, none)
same p t u chain held l f k = record {
  chain' = chain;
  linked = l;
  moves = λ i. omega (arith, f i);
  same_cap = refl;
  knows = k;
  swapped = omega arith;
}

same_node_sound : (a b : Option ℕ) → same_node a b ≡ true → a ≡ b
same_node_sound none none h = refl
same_node_sound none (some j) h = absurd (ground arith)
same_node_sound (some i) none h = absurd (ground arith)
same_node_sound (some i) (some j) h = ground arith

swaps_sound :
    (fails : Bool) (p : LockfreePool) (target : Option ℕ) (c : ℕ)
    → swaps fails p target c ≡ true
    → (p.head ≡ target) × (p.counter ≡ c)
swaps_sound true p target c h = absurd (ground arith)
swaps_sound false p target c h = elim (Bool-cases (same_node p.head target)) [
  | inl e ↦ (same_node_sound p.head target e, ground arith)
  | inr unlike ↦ absurd (ground arith)
]

-- The head with its counter is what `alloc` has read, so the node behind it is too.
alloc_swap :
    (p : LockfreePool) (i c : ℕ) (n : Option ℕ) (chain held : List ℕ)
    → Linked p.next p.head chain
    → Known p (alloc_swapping i c n)
    → (p.head ≡ some i) × (p.counter ≡ c)
    → p.counter + 1 < 2 ^ 64
    → Outcome p
        (alloc_swapping i c n)
        chain
        held
        (record (set_head p n) { initialized = update p.initialized i true }, idle, some i)
unfolding occ
alloc_swap p i c n [] held l k s b = absurd (ground arith)
alloc_swap p i c n (j ∷ js) held l k s b = record {
  chain' = js;
  linked = subst (λ q. Linked p.next q js) behind l.1;
  moves = λ x. ground arith;
  same_cap = refl;
  knows = tt;
  swapped = omega arith;
}
  where
    behind : p.next j ≡ n
    behind = ground arith

free_swap :
    (p : LockfreePool) (i c : ℕ) (old : Option ℕ) (chain held : List ℕ)
    → Linked p.next p.head chain
    → Known p (free_swapping i old c)
    → (p.head ≡ old) × (p.counter ≡ c)
    → p.counter + 1 < 2 ^ 64
    → Outcome p (free_swapping i old c) chain held (set_head p (some i), idle, none)
unfolding occ
free_swap p i c old chain held l k s b = record {
  chain' = i ∷ chain;
  linked = (refl, subst (λ q. Linked p.next q chain) (s.0 ∙ sym k) l);
  moves = λ x. omega arith;
  same_cap = refl;
  knows = tt;
  swapped = omega arith;
}

pub access-Outcome :
    (fails : Bool) (p : LockfreePool) (t : Thread) (chain held : List ℕ)
    → Linked p.next p.head chain
    → ((i : ℕ) → occ i chain + freeing i t ≤ (if ltb i p.cap then 1 else 0))
    → Known p t
    → p.counter + 1 < 2 ^ 64
    → Outcome p t chain held (advance fails p t)
unfolding advance
access-Outcome fails p idle chain held l o k b = same p idle idle chain held l (λ i. refl) tt
access-Outcome fails p alloc_entered chain held l o k b =
    same p alloc_entered (alloc_loaded p.head p.counter) chain held l (λ i. refl) (omega arith)
access-Outcome fails p (alloc_loaded none c) chain held l o k b =
    same p (alloc_loaded none c) idle chain held l (λ i. refl) tt
access-Outcome fails p (alloc_loaded (some i) c) chain held l o k b =
    same p (alloc_loaded (some i) c) (alloc_swapping i c (p.next i)) chain held l (λ j. refl)
      (k, inr (inr refl))
access-Outcome fails p (alloc_swapping i c n) chain held l o k b =
    elim (Bool-cases (swaps fails p (some i) c)) [
      | inl done ↦
          rw done (alloc_swap p i c n chain held l k (swaps_sound fails p (some i) c done) b)
      | inr again ↦ rw again (
          same p (alloc_swapping i c n) (alloc_loaded p.head p.counter) chain held l (λ j. refl)
            (omega arith))
    ]
access-Outcome fails p (free_entered i) chain held l o k b = elim (Bool-cases (ltb i p.cap)) [
  | inl inside ↦
      rw inside
        (same p (free_entered i) (free_loaded i p.head p.counter) chain held l (λ j. refl) tt)
  | inr outside ↦ absurd (ground (arith, o i))
]
access-Outcome fails p (free_loaded i old c) chain held l o k b = record {
  chain' = chain;
  linked = Linked-update p.next p.head chain i old (ground (arith, o i)) l;
  moves = λ j. refl;
  same_cap = refl;
  knows = ground arith;
  swapped = omega arith;
}
access-Outcome fails p (free_swapping i old c) chain held l o k b =
    elim (Bool-cases (swaps fails p old c)) [
      | inl done ↦ rw done (free_swap p i c old chain held l k (swaps_sound fails p old c done) b)
      | inr again ↦ rw again (
          same p (free_swapping i old c) (free_loaded i p.head p.counter) chain held l (λ j. refl)
            tt)
    ]
