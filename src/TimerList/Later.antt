-- ===== src/TimerList/Later.antt =====
-- common/timewheel.h: `pop` of a timer behind the first one.
use cassobee.Base.{
  ℕ, suc, ◌+◌, ◌≤◌, ◌<◌, ◌^◌, ◌≡◌, ◌≢◌, refl, sym, arith, ◌==◌, if◌then◌else◌, some, List, [], ◌∷◌,
  ◌++◌, append-nil, length, length-append,
}
use mathlib.Core.Path.{subst}
use cassobee.LockfreePool.Chain.{occ, occ-append}
use cassobee.TimerList.{Nodes, TimerList, pop}
use cassobee.TimerList.Circle.{
  Link, Chained, Distinct, IsCircle, last, occ-last, Chained-last, Chained-retarget, Chained-append,
  Chained-split, Relinked,
}
use cassobee.TimerList.Unlink.{
  removed, removed_next, removed_prev, removed_others, payload-removed, pop-removed,
}

-- A node `x` between two runs of others.
module _ (nodes : Nodes) (t x : ℕ) (ys zs : List ℕ) (d : Distinct (t ∷ (ys ++ (x ∷ zs)))) where
  pub once :
      (i : ℕ) → (if t == i then 1 else 0) + occ i ys + (if x == i then 1 else 0) + occ i zs ≤ 1
  unfolding occ
  once i = omega (arith, d i, occ-append i ys (x ∷ zs))

  pub first_apart : t ≢ x
  first_apart e = ground (arith, once x)

  pub last_apart : last t ys ≢ x
  unfolding occ
  last_apart e = ground (arith, once x, occ-last t ys)

  pub outside :
      (i : ℕ)
      → occ i (t ∷ (ys ++ (x ∷ zs))) ≡ 0
      → (last t ys ≢ i) × (x ≢ i) × (t ≢ i) × (occ i zs ≡ 0)
  unfolding occ
  outside i free = (
    λ e. ground (arith, occ-append i ys (x ∷ zs), occ-last t ys),
    λ e. ground (arith, occ-append i ys (x ∷ zs)),
    λ e. ground arith,
    omega (arith, occ-append i ys (x ∷ zs)),
  )

  -- The nodes before `x` are linked to the one behind it.
  pub retargeted :
      (b : ℕ)
      → b ≢ x
      → occ b ys ≡ 0
      → Chained nodes t ys x
      → Chained (removed nodes (last t ys) x b) t ys b
  unfolding occ
  retargeted b q free c =
      Chained-retarget nodes (removed nodes (last t ys) x b) t x b ys (λ i. omega (arith, once i))
        (λ i among other. ground (arith, removed_next nodes (last t ys) x b i, once i))
        (λ i among. ground (arith, removed_prev nodes (last t ys) x b i, once i))
        (
          ground (arith, removed_next nodes (last t ys) x b (last t ys), last_apart),
          ground (arith, removed_prev nodes (last t ys) x b b, q),
        )
        c

pub pop_later :
    (nodes : Nodes) (l : TimerList) (t x : ℕ) (ys zs : List ℕ)
    → IsCircle nodes l (t ∷ (ys ++ (x ∷ zs)))
    → Distinct (t ∷ (ys ++ (x ∷ zs)))
    → length (t ∷ (ys ++ (x ∷ zs))) < 2 ^ 64
    → Relinked nodes (t ∷ (ys ++ (x ∷ zs))) (t ∷ (ys ++ zs)) (pop x nodes l)
unfolding occ
pop_later nodes l t x ys [] (h, n, c) d b = record {
  nodes' = removed nodes (last t ys) x t;
  list = record { head = some t; count = suc (length ys) };
  returns =
      pop-removed nodes l t (last t ys) x t (suc (length ys)) h
        (omega (arith, n, length-append ys (x ∷ []))) (omega (arith, b, length-append ys (x ∷ [])))
        (first_apart nodes t x ys [] d) (Chained-last nodes t x ys parts.0) parts.1
        (last_apart nodes t x ys [] d) (first_apart nodes t x ys [] d);
  circle = (
    refl,
    omega (arith, length-append ys []),
    subst (λ k. Chained (removed nodes (last t ys) x t) t k t) (sym (append-nil ys))
        (retargeted nodes t x ys [] d t (first_apart nodes t x ys [] d)
          (ground (arith, once nodes t x ys [] d t)) parts.0),
  );
  others = λ i free.
      let out = outside nodes t x ys [] d i free in
      removed_others nodes (last t ys) x t i out.0 out.1 out.2;
  same_payload = payload-removed nodes (last t ys) x t;
}
  where
    parts : Chained nodes t ys x × Chained nodes x [] t
    parts = Chained-split nodes t x t ys [] c
pop_later nodes l t x ys (z ∷ zs) (h, n, c) d b = record {
  nodes' = removed nodes a x z;
  list = record { head = some t; count = suc (length (ys ++ (z ∷ zs))) };
  returns =
      pop-removed nodes l t a x z (suc (length (ys ++ (z ∷ zs)))) h
        (omega (arith, n, length-append ys (x ∷ z ∷ zs), length-append ys (z ∷ zs)))
        (omega (arith, b, length-append ys (x ∷ z ∷ zs), length-append ys (z ∷ zs)))
        (first_apart nodes t x ys (z ∷ zs) d) (Chained-last nodes t x ys parts.0) parts.1.0
        (last_apart nodes t x ys (z ∷ zs) d) z_apart;
  circle = (
    refl,
    refl,
    Chained-append (removed nodes a x z) t z t ys zs
        (retargeted nodes t x ys (z ∷ zs) d z z_apart
          (ground (arith, once nodes t x ys (z ∷ zs) d z)) parts.0)
        right,
  );
  others = λ i free.
      let out = outside nodes t x ys (z ∷ zs) d i free in
      removed_others nodes a x z i out.0 out.1 (λ e. ground (arith, out.3));
  same_payload = payload-removed nodes a x z;
}
  where
    a : ℕ
    a = last t ys

    parts : Chained nodes t ys x × Chained nodes x (z ∷ zs) t
    parts = Chained-split nodes t x t ys (z ∷ zs) c

    z_apart : z ≢ x
    z_apart e = ground (arith, once nodes t x ys (z ∷ zs) d x)

    a_apart : (i : ℕ) → 1 ≤ occ i (z ∷ zs) → a ≢ i
    a_apart i among e = ground (arith, once nodes t x ys (z ∷ zs) d i, occ-last t ys)

    close : Link nodes (last z zs) t
    close = Chained-last nodes z t zs parts.1.1

    right : Chained (removed nodes a x z) z zs t
    right =
        Chained-retarget nodes (removed nodes a x z) z t t zs
          (λ i. omega (arith, once nodes t x ys (z ∷ zs) d i))
          (λ i among other.
            ground
              (arith, removed_next nodes a x z i, once nodes t x ys (z ∷ zs) d i, a_apart i among))
          (λ i among. ground (arith, removed_prev nodes a x z i, once nodes t x ys (z ∷ zs) d i))
          (
            ground (
              arith,
              removed_next nodes a x z (last z zs),
              once nodes t x ys (z ∷ zs) d (last z zs),
              occ-last z zs,
              a_apart (last z zs) (occ-last z zs),
              close.0,
            ),
            ground (arith, removed_prev nodes a x z t, once nodes t x ys (z ∷ zs) d t, close.1),
          )
          parts.1.1
