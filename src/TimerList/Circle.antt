-- ===== src/TimerList/Circle.antt =====
-- common/timewheel.h: the circular lists of timers that are well formed.
use cassobee.Base.{
  ℕ, suc, ◌≤◌, ◌≡◌, ◌≢◌, ◌∙◌, arith, ◌==◌, if◌then◌else◌, Option, none, some, List, [], ◌∷◌, ◌++◌,
  length,
}
use cassobee.LockfreePool.Chain.{occ}
use cassobee.TimerList.{TimerNode, Nodes, TimerList, set_prev, set_next}

-- `_next` leads from one node to the other, and `_prev` back.
abbrev pub Link : Nodes → ℕ → ℕ → Type 0
Link nodes a b = ((nodes a).next ≡ some b) × ((nodes b).prev ≡ some a)

-- From `a` over these nodes to `b`.
abbrev pub Chained : Nodes → ℕ → List ℕ → ℕ → Type 0
Chained nodes a [] b = Link nodes a b
Chained nodes a (x ∷ xs) b = Link nodes a x × Chained nodes x xs b

-- No node stands twice.
abbrev pub Distinct : List ℕ → Type 0
Distinct items = (i : ℕ) → occ i items ≤ 1

-- The list holds these nodes, in this order.
abbrev pub IsCircle : Nodes → TimerList → List ℕ → Type 0
IsCircle nodes l [] = (l.head ≡ none) × (l.count ≡ 0)
IsCircle nodes l (t ∷ ts) = (l.head ≡ some t) × (l.count ≡ suc (length ts)) × Chained nodes t ts t

-- The last of `a` and the nodes behind it.
abbrev pub last : ℕ → List ℕ → ℕ
last a [] = a
last a (x ∷ xs) = last x xs

pub occ-last : (a : ℕ) (xs : List ℕ) → 1 ≤ occ (last a xs) (a ∷ xs)
unfolding occ
occ-last a [] = ground arith
occ-last a (x ∷ xs) = omega (arith, occ-last x xs)

pub Chained-last :
    (nodes : Nodes) (a b : ℕ) (xs : List ℕ) → Chained nodes a xs b → Link nodes (last a xs) b
Chained-last nodes a b [] h = h
Chained-last nodes a b (x ∷ xs) h = Chained-last nodes x b xs h.1

-- The links within a chain depend on the `_next` of all but the last node and on the `_prev` of all but the first.
pub Chained-frame :
    (nodes nodes' : Nodes) (a b x : ℕ) (xs : List ℕ)
    → Distinct (a ∷ xs)
    → ((c : ℕ) → 1 ≤ occ c (a ∷ xs) → c ≢ last a xs → (nodes' c).next ≡ (nodes c).next)
    → ((c : ℕ) → 1 ≤ occ c xs → (nodes' c).prev ≡ (nodes c).prev)
    → Link nodes' (last a xs) x
    → Link nodes' x b
    → Chained nodes a xs b
    → Chained nodes' a (xs ++ (x ∷ [])) b
unfolding occ
Chained-frame nodes nodes' a b x [] d n p l m h = (l, m)
Chained-frame nodes nodes' a b x (y ∷ ys) d n p l m h = (
  (n a (ground arith) first ∙ h.0.0, p y (ground arith) ∙ h.0.1),
  Chained-frame nodes nodes' y b x ys (λ i. omega (arith, d i)) (λ c i e. n c (omega (arith, i)) e)
      (λ c i. p c (omega (arith, i))) l m h.1,
)
  where
    first : a ≢ last y ys
    first e = ground (arith, d a, d (last y ys), occ-last y ys)

-- The fields of the timer that are not the list's.
abbrev pub payload : TimerNode → TimerNode
payload t = record t { prev = none; next = none }

module _ (nodes : Nodes) (t : ℕ) (p : Option ℕ) (i : ℕ) where
  pub next-set_prev : (set_prev nodes t p i).next ≡ (nodes i).next
  unfolding set_prev
  next-set_prev = ground arith

  pub prev-set_next : (set_next nodes t p i).prev ≡ (nodes i).prev
  unfolding set_next
  prev-set_next = ground arith

  pub prev-set_prev : (set_prev nodes t p i).prev ≡ (if t == i then p else (nodes i).prev)
  unfolding set_prev
  prev-set_prev = ground arith

  pub next-set_next : (set_next nodes t p i).next ≡ (if t == i then p else (nodes i).next)
  unfolding set_next
  next-set_next = ground arith

  pub set_prev_other : t ≢ i → set_prev nodes t p i ≡ nodes i
  unfolding set_prev
  set_prev_other h = ground arith

  pub set_next_other : t ≢ i → set_next nodes t p i ≡ nodes i
  unfolding set_next
  set_next_other h = ground arith

  pub payload-set_prev : payload (set_prev nodes t p i) ≡ payload (nodes i)
  unfolding set_prev
  payload-set_prev = ground arith

  pub payload-set_next : payload (set_next nodes t p i) ≡ payload (nodes i)
  unfolding set_next
  payload-set_next = ground arith

-- What an operation of a list gives: a well-formed list, with no change to other nodes than those of the list.
pub record Relinked (nodes : Nodes) (touched items : List ℕ) (out : Option (Nodes × TimerList))
    : Type 0 where
  pub nodes' : Nodes
  pub list : TimerList
  pub returns : out ≡ some (nodes', list)
  pub circle : IsCircle nodes' list items
  pub others : (i : ℕ) → occ i touched ≡ 0 → nodes' i ≡ nodes i
  pub same_payload : (i : ℕ) → payload (nodes' i) ≡ payload (nodes i)

-- A chain of other nodes, with the last one linked to another end.
pub Chained-retarget :
    (nodes nodes' : Nodes) (a b b' : ℕ) (xs : List ℕ)
    → Distinct (a ∷ xs)
    → ((c : ℕ) → 1 ≤ occ c (a ∷ xs) → c ≢ last a xs → (nodes' c).next ≡ (nodes c).next)
    → ((c : ℕ) → 1 ≤ occ c xs → (nodes' c).prev ≡ (nodes c).prev)
    → Link nodes' (last a xs) b'
    → Chained nodes a xs b
    → Chained nodes' a xs b'
unfolding occ
Chained-retarget nodes nodes' a b b' [] d n p l h = l
Chained-retarget nodes nodes' a b b' (y ∷ ys) d n p l h = (
  (n a (ground arith) first ∙ h.0.0, p y (ground arith) ∙ h.0.1),
  Chained-retarget nodes nodes' y b b' ys (λ i. omega (arith, d i))
      (λ c i e. n c (omega (arith, i)) e) (λ c i. p c (omega (arith, i))) l h.1,
)
  where
    first : a ≢ last y ys
    first e = ground (arith, d a, d (last y ys), occ-last y ys)

pub Chained-append :
    (nodes : Nodes) (a b c : ℕ) (xs ys : List ℕ)
    → Chained nodes a xs b
    → Chained nodes b ys c
    → Chained nodes a (xs ++ (b ∷ ys)) c
Chained-append nodes a b c [] ys h k = (h, k)
Chained-append nodes a b c (x ∷ xs) ys h k = (h.0, Chained-append nodes x b c xs ys h.1 k)

pub Chained-split :
    (nodes : Nodes) (a b c : ℕ) (xs ys : List ℕ)
    → Chained nodes a (xs ++ (b ∷ ys)) c
    → Chained nodes a xs b × Chained nodes b ys c
Chained-split nodes a b c [] ys h = (h.0, h.1)
Chained-split nodes a b c (x ∷ xs) ys h =
    ((h.0, (Chained-split nodes x b c xs ys h.1).0), (Chained-split nodes x b c xs ys h.1).1)

pub Chained-first :
    (nodes : Nodes) (a b y : ℕ) (ys : List ℕ) → Chained nodes a (y ∷ ys) b → Link nodes a y
Chained-first nodes a b y ys h = h.0
