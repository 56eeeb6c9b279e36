-- ===== src/TimerList/Pop.antt =====
-- common/timewheel.h: `pop` takes a timer out.
use cassobee.Base.{
  ℕ, suc, ◌<◌, ◌^◌, ◌≡◌, ◌≢◌, refl, ap, ◌∙◌, arith, ◌==◌, ◌&&◌, if◌then◌else◌, false, some, List,
  [], ◌∷◌, ◌++◌, length,
}
use cassobee.LockfreePool.Chain.{occ}
use cassobee.TimerList.{Nodes, TimerList, empty_list, pop, same_pointer}
use cassobee.TimerList.Circle.{
  Link, Chained, Distinct, IsCircle, last, occ-last, Chained-last, Chained-retarget, Relinked,
}
use cassobee.TimerList.Unlink.{
  removed, unlink-removed, removed_next, removed_prev, removed_others, payload-removed, pop-unlink,
}
use cassobee.TimerList.Later.{pop_later}

-- The first node of several.
pop_first :
    (nodes : Nodes) (l : TimerList) (x y : ℕ) (ys : List ℕ)
    → IsCircle nodes l (x ∷ y ∷ ys)
    → Distinct (x ∷ y ∷ ys)
    → length (x ∷ y ∷ ys) < 2 ^ 64
    → Relinked nodes (x ∷ y ∷ ys) (y ∷ ys) (pop x nodes l)
unfolding occ
pop_first nodes l x y ys (h, n, c) d b = record {
  nodes' = removed nodes a x y;
  list = record { head = some y; count = suc (length ys) };
  returns =
      pop-unlink nodes l x x h head_only
      ∙ unlink-removed nodes a x y l y before behind p q
          (ap (λ o. if same_pointer o x then some y else o) h ∙ head_moves)
      ∙ ap (λ k. some (removed nodes a x y, record { head = some y; count = k }))
          (omega (arith, n, b));
  circle = (refl, refl, closed);
  others = λ i free.
      removed_others nodes a x y i (λ e. ground (arith, occ-last y ys)) (λ e. ground arith)
        (λ e. ground arith);
  same_payload = payload-removed nodes a x y;
}
  where
    head_moves : (if same_pointer (some x) x then some y else some x) ≡ some y
    head_moves = ground arith

    head_only : (x == x && l.count == 1) ≡ false
    head_only = ground (arith, n)

    a : ℕ
    a = last y ys

    before : Link nodes a x
    before = Chained-last nodes y x ys c.1

    behind : Link nodes x y
    behind = c.0

    p : a ≢ x
    p e = ground (arith, occ-last y ys, d x)

    q : y ≢ x
    q e = ground (arith, d x)

    closed : Chained (removed nodes a x y) y ys y
    closed =
        Chained-retarget nodes (removed nodes a x y) y x y ys (λ i. omega (arith, d i))
          (λ i among other. ground (arith, removed_next nodes a x y i, d i))
          (λ i among. ground (arith, removed_prev nodes a x y i, d i))
          (
            ground (arith, removed_next nodes a x y a, p),
            ground (arith, removed_prev nodes a x y y, q),
          )
          c.1

pop_only :
    (nodes : Nodes) (l : TimerList) (x : ℕ)
    → IsCircle nodes l (x ∷ [])
    → Relinked nodes (x ∷ []) [] (pop x nodes l)
unfolding pop
pop_only nodes l x (h, n, c) = record {
  nodes' = nodes;
  list = empty_list;
  returns = rw (h, n) (ground arith);
  circle = (refl, refl);
  others = λ i free. refl;
  same_payload = λ i. refl;
}

-- pop of a node of a well-formed list returns, with the other nodes left in their order and the list well formed;
-- nodes outside the list keep their links, and all keep their other fields.
pub pop-Relinked :
    (nodes : Nodes) (l : TimerList) (before : List ℕ) (x : ℕ) (after : List ℕ)
    → IsCircle nodes l (before ++ (x ∷ after))
    → Distinct (before ++ (x ∷ after))
    → length (before ++ (x ∷ after)) < 2 ^ 64
    → Relinked nodes (before ++ (x ∷ after)) (before ++ after) (pop x nodes l)
pop-Relinked nodes l [] x [] h d b = pop_only nodes l x h
pop-Relinked nodes l [] x (y ∷ ys) h d b = pop_first nodes l x y ys h d b
pop-Relinked nodes l (t ∷ ys) x zs h d b = pop_later nodes l t x ys zs h d b
