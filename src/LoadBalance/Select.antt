-- ===== src/LoadBalance/Select.antt =====
-- What the strategies of source/bee/utility/load_balance.h choose.
use cassobee.Base.{
  ℕ, zero, suc, ◌+◌, ◌%◌, ◌≡◌, ◌≤◌, ◌<◌, ◌∙◌, ap, refl, arith, ltb, if◌then◌else◌, some, Bool-cases,
  inl, inr, List, [], ◌∷◌, length, get_elem?, add64, All, word,
}
use cassobee.LoadBalance.{round_robin, least_connections, Balancer, select, min_element, get_next}

module _ {T : Type 0} where
  -- The balancer after so many choices.
  pub after_choices : ℕ → Balancer T → Balancer T
  after_choices zero b = b
  after_choices (suc n) b = (get_next 0 (after_choices n b)).1

  turn :
      (xs : List T) (index : ℕ)
      → 0 < length xs
      → select 0 (round_robin index) xs
        ≡ (get_elem? xs (index % length xs), round_robin (add64 index 1))
  unfolding select
  turn [] index h = absurd (omega arith)
  turn (x ∷ xs) index h = refl

  module _ (b : Balancer T) (start : ℕ) (robin : b.strategy ≡ round_robin start)
      (some_there : 0 < length b.resources) where
    turned :
        (n : ℕ)
        → start + n < word
        → after_choices n b ≡ record b { strategy = round_robin (start + n) }
    unfolding after_choices get_next
    turned zero low = ap (λ st. record b { strategy = st }) (robin ∙ ap round_robin (omega arith))
    turned (suc n) low =
        ap (λ c. (get_next 0 c).1) (turned n (omega arith))
        ∙ ap (λ p. record b { strategy = p.1 }) (turn b.resources (start + n) some_there)
        ∙ ap (λ i. record b { strategy = round_robin i }) (omega arith)

    -- For at least one resource and a number of choices that does not wrap at 2 ^ 64, the choice
    -- after n others is the resource n places behind the first choice, around the end of the list.
    -- The list stays as it is.
    pub round_robin_turns :
        (n : ℕ)
        → start + n < word
        → ((get_next 0 (after_choices n b)).0
            ≡ get_elem? b.resources ((start + n) % length b.resources))
          × (after_choices n b ≡ record b { strategy = round_robin (start + n) })
    unfolding get_next
    round_robin_turns n low = (
      ap (λ c. (get_next 0 c).0) (turned n low)
          ∙ ap (λ p. p.0) (turn b.resources (start + n) some_there),
      turned n low,
    )

  less :
      (counter : T → ℕ) (best x : T)
      → (counter (if ltb (counter x) (counter best) then x else best) ≤ counter best)
        × (counter (if ltb (counter x) (counter best) then x else best) ≤ counter x)
  less counter best x = elim (Bool-cases (ltb (counter x) (counter best))) [
    | inl low ↦ rw low (ground arith, ground arith)
    | inr high ↦ rw high (ground arith, ground arith)
  ]

  min_element-le :
      (counter : T → ℕ) (best : T) (xs : List T)
      → (counter (min_element counter best xs) ≤ counter best)
        × All (λ x. counter (min_element counter best xs) ≤ counter x) xs
  unfolding min_element
  min_element-le counter best [] = (omega arith, tt)
  min_element-le counter best (x ∷ xs) =
      let next : T = if ltb (counter x) (counter best) then x else best in
      let (le, all) = min_element-le counter next xs in
      let (one, two) = less counter best x in
      (omega (arith, le, one), (omega (arith, le, two), all))

  -- Of at least one resource, the least connected is chosen: none of the resources has fewer
  -- connections than the choice.
  pub least_connections_choice :
      (counter : T → ℕ) (drawn : ℕ) (x : T) (xs : List T)
      → (best : T) × ((select drawn (least_connections counter) (x ∷ xs)).0 ≡ some best)
        × All (λ y. counter best ≤ counter y) (x ∷ xs)
  unfolding select
  least_connections_choice counter drawn x xs =
      (min_element counter x xs, refl, min_element-le counter x xs)
