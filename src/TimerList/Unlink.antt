-- ===== src/TimerList/Unlink.antt =====
-- common/timewheel.h: the writes of `pop`.
use cassobee.Base.{
  ℕ, suc, ◌<◌, ◌^◌, ◌≡◌, ◌≢◌, ap, ◌∙◌, arith, ◌==◌, ◌&&◌, if◌then◌else◌, false, Option, none, some,
  ◌>>=◌, sub64,
}
use cassobee.TimerList.{Nodes, TimerList, empty_list, pop, unlink, same_pointer, set_next, set_prev}
use cassobee.TimerList.Circle.{
  Link, payload, next-set_prev, prev-set_next, prev-set_prev, next-set_next, set_prev_other,
  set_next_other, payload-set_prev, payload-set_next,
}

-- The node `x` between `a` and `b`.
module _ (nodes : Nodes) (a x b : ℕ) where
  back : Nodes
  back = set_prev nodes b (some a)

  around : Nodes
  around = set_next back a (some b)

  pub removed : Nodes
  removed = set_next (set_prev around x none) x none

  pub unlink-removed :
      (l : TimerList) (head : ℕ)
      → Link nodes a x
      → Link nodes x b
      → a ≢ x
      → b ≢ x
      → (if same_pointer l.head x then some b else l.head) ≡ some head
      → unlink x nodes l ≡ some (removed, record { head = some head; count = sub64 l.count 1 })
  unfolding back around removed
  unlink-removed l head before behind p q h =
      rw (behind.0, before.1, back_prev, back_next, around_next, h)
    where
      back_prev : (set_prev nodes b (some a) x).prev ≡ some a
      back_prev = ground (arith, prev-set_prev nodes b (some a) x, before.1)

      back_next : (set_prev nodes b (some a) x).next ≡ some b
      back_next = next-set_prev nodes b (some a) x ∙ behind.0

      around_next : (set_next (set_prev nodes b (some a)) a (some b) x).next ≡ some b
      around_next =
          ground (arith, next-set_next (set_prev nodes b (some a)) a (some b) x, back_next)

  pub removed_next :
      (i : ℕ)
      → (removed i).next ≡ (if x == i then none else (if a == i then some b else (nodes i).next))
  unfolding back around removed
  removed_next i =
      next-set_next (set_prev around x none) x none i
      ∙ ap (λ n. if x == i then none else n)
          (next-set_prev around x none i
            ∙ next-set_next back a (some b) i
            ∙ ap (λ n. if a == i then some b else n) (next-set_prev nodes b (some a) i))

  pub removed_prev :
      (i : ℕ)
      → (removed i).prev ≡ (if x == i then none else (if b == i then some a else (nodes i).prev))
  unfolding back around removed
  removed_prev i =
      prev-set_next (set_prev around x none) x none i
      ∙ prev-set_prev around x none i
      ∙ ap (λ n. if x == i then none else n)
          (prev-set_next back a (some b) i ∙ prev-set_prev nodes b (some a) i)

  pub removed_others : (i : ℕ) → a ≢ i → x ≢ i → b ≢ i → removed i ≡ nodes i
  unfolding back around removed
  removed_others i u v w =
      set_next_other (set_prev around x none) x none i v
      ∙ set_prev_other around x none i v
      ∙ set_next_other back a (some b) i u
      ∙ set_prev_other nodes b (some a) i w

  pub payload-removed : (i : ℕ) → payload (removed i) ≡ payload (nodes i)
  unfolding back around removed
  payload-removed i =
      payload-set_next (set_prev around x none) x none i
      ∙ payload-set_prev around x none i
      ∙ payload-set_next back a (some b) i
      ∙ payload-set_prev nodes b (some a) i

pub pop-unlink :
    (nodes : Nodes) (l : TimerList) (x h : ℕ)
    → l.head ≡ some h
    → (h == x && l.count == 1) ≡ false
    → pop x nodes l ≡ unlink x nodes l
unfolding pop
pop-unlink nodes l x h e f =
    ap
      (λ (q : Option ℕ). q >>= λ head.
        if head == x && l.count == 1 then some (nodes, empty_list) else unlink x nodes l)
      e
    ∙ ap (λ c. if c then some (nodes, empty_list) else unlink x nodes l) f

-- A node behind the first one stays behind it: the head stands.
pub pop-removed :
    (nodes : Nodes) (l : TimerList) (t a x b m : ℕ)
    → l.head ≡ some t
    → l.count ≡ suc m
    → suc m < 2 ^ 64
    → t ≢ x
    → Link nodes a x
    → Link nodes x b
    → a ≢ x
    → b ≢ x
    → pop x nodes l ≡ some (removed nodes a x b, record { head = some t; count = m })
pop-removed nodes l t a x b m h n s apart before behind p q =
    pop-unlink nodes l x t h (ground arith)
    ∙ unlink-removed nodes a x b l t before behind p q
        (ap (λ o. if same_pointer o x then some b else o) h ∙ stays)
    ∙ ap (λ k. some (removed nodes a x b, record { head = some t; count = k }))
        (omega (arith, n, s))
  where
    stays : (if same_pointer (some t) x then some b else some t) ≡ some t
    stays = ground arith
