-- ===== src/TimeWheel/Lists.antt =====
-- common/timewheel.cpp: the lists of the wheel, and `readd_timer`.
use cassobee.Base.{
  ℕ, ◌≤◌, ◌≡◌, ◌∙◌, arith, if◌then◌else◌, Bool, false, Option, none, some, List, [], ◌∷◌,
}
use cassobee.LockfreePool.{same_node}
use cassobee.LockfreePool.Chain.{occ}
use cassobee.TimerList.{Nodes, TimerList}
use cassobee.TimerList.Circle.{Chained, IsCircle}
use cassobee.TimeWheel.{TimeWheel}

-- The hanging list, or that of a near slot.
abbrev pub list_at : TimeWheel → Option ℕ → TimerList
list_at w none = w.hanging
list_at w (some slot) = w.near slot

abbrev pub stands : Option (Option ℕ) → Option ℕ → Bool
stands none p = false
stands (some q) p = same_node q p

-- What the lists of the wheel hold: each a circle of its nodes, and each node once in the one list where it stands.
pub record Holds (w : TimeWheel) (items : Option ℕ → List ℕ) (at : ℕ → Option (Option ℕ))
    : Type 0 where
  pub circles : (p : Option ℕ) → IsCircle w.nodes (list_at w p) (items p)
  pub once : (i : ℕ) (p : Option ℕ) → occ i (items p) ≡ (if stands (at i) p then 1 else 0)

-- A circle depends on the links of its nodes only.
Chained-same :
    (nodes nodes' : Nodes) (a b : ℕ) (xs : List ℕ)
    → ((c : ℕ) → 1 ≤ occ c (a ∷ xs) → (nodes' c).next ≡ (nodes c).next)
    → ((c : ℕ) → 1 ≤ occ c (b ∷ xs) → (nodes' c).prev ≡ (nodes c).prev)
    → Chained nodes a xs b
    → Chained nodes' a xs b
unfolding occ
Chained-same nodes nodes' a b [] n p h = (n a (ground arith) ∙ h.0, p b (ground arith) ∙ h.1)
Chained-same nodes nodes' a b (x ∷ xs) n p h = (
  (n a (ground arith) ∙ h.0.0, p x (ground arith) ∙ h.0.1),
  Chained-same nodes nodes' x b xs (λ c i. n c (omega (arith, i))) (λ c i. p c (omega (arith, i)))
      h.1,
)

pub IsCircle-same :
    (nodes nodes' : Nodes) (l : TimerList) (xs : List ℕ)
    → ((c : ℕ)
        → 1 ≤ occ c xs
        → ((nodes' c).next ≡ (nodes c).next) × ((nodes' c).prev ≡ (nodes c).prev))
    → IsCircle nodes l xs
    → IsCircle nodes' l xs
IsCircle-same nodes nodes' l [] f h = h
IsCircle-same nodes nodes' l (t ∷ ts) f (h, n, c) =
    (h, n, Chained-same nodes nodes' t t ts (λ c i. (f c i).0) (λ c i. (f c i).1) c)
