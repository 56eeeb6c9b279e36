-- ===== src/LockfreePool/Chain.antt =====
-- common/objectpool.h: the list of the free nodes, and how often a node stands in a list.
use cassobee.Base.{
  ℕ, ◌+◌, ◌≡◌, sym, arith, ◌==◌, if◌then◌else◌, Option, none, some, List, [], ◌∷◌, ◌++◌,
}
use mathlib.Core.Path.{subst}
use cassobee.LockfreePool.{
  update, Thread, idle, alloc_entered, alloc_loaded, alloc_swapping, free_entered, free_loaded,
  free_swapping,
}

-- The nodes of a list that starts at `head`.
abbrev pub Linked : (ℕ → Option ℕ) → Option ℕ → List ℕ → Type 0
Linked next head [] = head ≡ none
Linked next head (i ∷ is) = (head ≡ some i) × Linked next (next i) is

unfoldable pub occ : ℕ → List ℕ → ℕ
occ i [] = 0
occ i (j ∷ js) = (if j == i then 1 else 0) + occ i js

pub occ-append : (i : ℕ) (xs ys : List ℕ) → occ i (xs ++ ys) ≡ occ i xs + occ i ys
unfolding occ
occ-append i [] ys = omega arith
occ-append i (x ∷ xs) ys = omega (arith, occ-append i xs ys)

-- A write to a node that is not in the list.
pub Linked-update :
    (next : ℕ → Option ℕ) (head : Option ℕ) (is : List ℕ) (j : ℕ) (v : Option ℕ)
    → occ j is ≡ 0
    → Linked next head is
    → Linked (update next j v) head is
unfolding occ
Linked-update next head [] j v h l = l
Linked-update next head (i ∷ is) j v h (e, l) = (
  e,
  subst (λ q. Linked (update next j v) q is) (sym same)
      (Linked-update next (next i) is j v (ground arith) l),
)
  where
    same : update next j v i ≡ next i
    same = ground arith

-- 1 for a node that a thread is giving back.
abbrev pub freeing : ℕ → Thread → ℕ
freeing i idle = 0
freeing i alloc_entered = 0
freeing i (alloc_loaded old c) = 0
freeing i (alloc_swapping j c n) = 0
freeing i (free_entered j) = if j == i then 1 else 0
freeing i (free_loaded j old c) = if j == i then 1 else 0
freeing i (free_swapping j old c) = if j == i then 1 else 0

unfoldable pub all_freeing : ℕ → List Thread → ℕ
all_freeing i [] = 0
all_freeing i (t ∷ ts) = freeing i t + all_freeing i ts

pub all_freeing-append :
    (i : ℕ) (xs ys : List Thread) → all_freeing i (xs ++ ys) ≡ all_freeing i xs + all_freeing i ys
unfolding all_freeing
all_freeing-append i [] ys = omega arith
all_freeing-append i (x ∷ xs) ys = omega (arith, all_freeing-append i xs ys)
