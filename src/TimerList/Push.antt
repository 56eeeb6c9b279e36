-- ===== src/TimerList/Push.antt =====
-- common/timewheel.h: `push_back` adds a timer at the end.
use cassobee.Base.{
  ℕ, suc, ◌+◌, ◌<◌, ◌^◌, ◌≡◌, ◌≢◌, refl, ap, ◌∙◌, arith, ◌==◌, if◌then◌else◌, some, List, [], ◌∷◌,
  ◌++◌, length, length-append,
}
use cassobee.LockfreePool.Chain.{occ}
use cassobee.TimerList.{Nodes, TimerList, push_back, link_last, set_next, set_prev}
use cassobee.TimerList.Circle.{
  Link, Chained, Distinct, IsCircle, last, occ-last, Chained-last, Chained-frame, payload,
  next-set_prev, prev-set_next, prev-set_prev, next-set_next, set_prev_other, set_next_other,
  payload-set_prev, payload-set_next, Relinked,
}

module _ (nodes : Nodes) (t x : ℕ) (ts : List ℕ) (d : Distinct (t ∷ ts))
    (fresh : occ x (t ∷ ts) ≡ 0) (c : Chained nodes t ts t) where
  end : ℕ
  end = last t ts

  linked : Nodes
  linked = set_next (set_prev nodes x (some end)) x (some t)

  after : Nodes
  after = set_prev (set_next linked end (some x)) t (some x)

  end-Link : Link nodes end t
  unfolding end
  end-Link = Chained-last nodes t t ts c

  apart : (t ≢ x) × (end ≢ x)
  unfolding end occ
  apart = (λ e. ground arith, λ e. ground (arith, occ-last t ts))

  same_end : (set_next (set_prev nodes x (some end)) x (some t) t).prev ≡ some end
  same_end =
      prev-set_next (set_prev nodes x (some end)) x (some t) t
      ∙ ground (arith, prev-set_prev nodes x (some end) t, apart, end-Link.1)

  link_last-after : link_last x t nodes ≡ some after
  unfolding end linked after
  link_last-after = rw (end-Link.1, same_end)

  after_next :
      (i : ℕ)
      → (after i).next ≡ (if end == i then some x else (if x == i then some t else (nodes i).next))
  unfolding linked after
  after_next i =
      next-set_prev (set_next linked end (some x)) t (some x) i
      ∙ next-set_next linked end (some x) i
      ∙ ap (λ n. if end == i then some x else n)
          (next-set_next (set_prev nodes x (some end)) x (some t) i
            ∙ ap (λ n. if x == i then some t else n) (next-set_prev nodes x (some end) i))

  after_prev :
      (i : ℕ)
      → (after i).prev ≡ (if t == i then some x else (if x == i then some end else (nodes i).prev))
  unfolding linked after
  after_prev i =
      prev-set_prev (set_next linked end (some x)) t (some x) i
      ∙ ap (λ n. if t == i then some x else n)
          (prev-set_next linked end (some x) i
            ∙ prev-set_next (set_prev nodes x (some end)) x (some t) i
            ∙ prev-set_prev nodes x (some end) i)

  after_others : (i : ℕ) → t ≢ i → x ≢ i → end ≢ i → after i ≡ nodes i
  unfolding linked after
  after_others i p q r =
      set_prev_other (set_next linked end (some x)) t (some x) i p
      ∙ set_next_other linked end (some x) i r
      ∙ set_next_other (set_prev nodes x (some end)) x (some t) i q
      ∙ set_prev_other nodes x (some end) i q

  after_payload : (i : ℕ) → payload (after i) ≡ payload (nodes i)
  unfolding linked after
  after_payload i =
      payload-set_prev (set_next linked end (some x)) t (some x) i
      ∙ payload-set_next linked end (some x) i
      ∙ payload-set_next (set_prev nodes x (some end)) x (some t) i
      ∙ payload-set_prev nodes x (some end) i

  after-Chained : Chained after t (ts ++ (x ∷ [])) t
  unfolding end occ
  after-Chained =
      Chained-frame nodes after t t x ts d (λ i among other. ground (arith, after_next i, fresh))
        (λ i among. ground (arith, after_prev i, d i, fresh))
        (ground (arith, after_next (last t ts)), ground (arith, after_prev x, apart.0))
        (ground (arith, after_next x, apart.1), ground (arith, after_prev t)) c

  after-Relinked :
      (l : TimerList)
      → l.head ≡ some t
      → l.count ≡ suc (length ts)
      → suc (length ts) + 1 < 2 ^ 64
      → Relinked nodes (x ∷ t ∷ ts) (t ∷ (ts ++ (x ∷ []))) (push_back x nodes l)
  unfolding push_back occ end
  after-Relinked l h n b = record {
    nodes' = after;
    list = record { head = some t; count = suc (length ts) + 1 };
    returns =
        rw (h, link_last-after)
          (ap (λ k. some (after, record { head = some t; count = k })) (omega (arith, n)));
    circle = (refl, omega (arith, length-append ts (x ∷ [])), after-Chained);
    others = λ i free.
        after_others i (λ e. ground arith) (λ e. ground arith) (λ e. ground (arith, occ-last t ts));
    same_payload = after_payload;
  }

empty_push :
    (nodes : Nodes) (l : TimerList) (x : ℕ)
    → IsCircle nodes l []
    → Relinked nodes (x ∷ []) (x ∷ []) (push_back x nodes l)
unfolding push_back occ
empty_push nodes l x h = record {
  nodes' = alone;
  list = record { head = some x; count = 1 };
  returns =
      rw h.0 (ap (λ k. some (alone, record { head = some x; count = k })) (omega (arith, h.1)));
  circle = (
    refl,
    refl,
    (
      ground (arith, next-set_next (set_prev nodes x (some x)) x (some x) x),
      ground (
        arith,
        prev-set_next (set_prev nodes x (some x)) x (some x) x,
        prev-set_prev nodes x (some x) x,
      ),
    ),
  );
  others = λ i free.
      set_next_other (set_prev nodes x (some x)) x (some x) i (λ e. ground arith)
      ∙ set_prev_other nodes x (some x) i (λ e. ground arith);
  same_payload = λ i.
      payload-set_next (set_prev nodes x (some x)) x (some x) i
      ∙ payload-set_prev nodes x (some x) i;
}
  where
    alone : Nodes
    alone = set_next (set_prev nodes x (some x)) x (some x)

-- push_back of a node that is not in a well-formed list returns, with the node at the end of the list, which is well
-- formed again; nodes outside the list keep their links, and all keep their other fields.
pub push_back-Relinked :
    (nodes : Nodes) (l : TimerList) (items : List ℕ) (x : ℕ)
    → IsCircle nodes l items
    → Distinct items
    → occ x items ≡ 0
    → length items + 1 < 2 ^ 64
    → Relinked nodes (x ∷ items) (items ++ (x ∷ [])) (push_back x nodes l)
push_back-Relinked nodes l [] x h d fresh b = empty_push nodes l x h
push_back-Relinked nodes l (t ∷ ts) x h d fresh b =
    after-Relinked nodes t x ts d fresh h.2 l h.0 h.1 b
