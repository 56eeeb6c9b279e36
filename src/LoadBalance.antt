-- ===== src/LoadBalance.antt =====
-- source/bee/utility/load_balance.h: the strategies that choose one of some resources, and the balancer
-- that keeps the resources. `none` is the exception for an empty list. What the random number generator
-- draws and the counter of the connections are arguments.
pub mod Select
pub mod Resources
mod Tests
use cassobee.Base.{
  ℕ, zero, suc, ◌%◌, ltb, if◌then◌else◌, Option, none, some, Bool, true, false, List, [], ◌∷◌, ◌++◌,
  length, get_elem?, add64,
}

-- The three strategies, each with its state.
pub data Strategy (T : Type 0) : Type 0 where
  round_robin : ℕ → Strategy T
  random : Strategy T
  least_connections : (T → ℕ) → Strategy T

pub record Balancer (T : Type 0) : Type 0 where
  pub resources : List T
  pub strategy : Strategy T

module _ {T : Type 0} where
  -- `std::min_element`: the first of the least ones. `best` is the least so far.
  pub min_element : (T → ℕ) → T → List T → T
  min_element counter best [] = best
  min_element counter best (x ∷ xs) =
      min_element counter (if ltb (counter x) (counter best) then x else best) xs

  -- `drawn` is the number from 0 to `length resources - 1` that the generator draws.
  pub select : ℕ → Strategy T → List T → Option T × Strategy T
  select drawn strategy [] = (none, strategy)
  select drawn (round_robin index) (x ∷ xs) =
      (get_elem? (x ∷ xs) (index % length (x ∷ xs)), round_robin (add64 index 1))
  select drawn random (x ∷ xs) = (get_elem? (x ∷ xs) drawn, random)
  select drawn (least_connections counter) (x ∷ xs) =
      (some (min_element counter x xs), least_connections counter)

  pub update : Strategy T → Strategy T
  update (round_robin index) = round_robin 0
  update random = random
  update (least_connections counter) = least_connections counter

  pub notify_strategy_update : Balancer T → Balancer T
  notify_strategy_update b = record b { strategy = update b.strategy }

  pub add_resource : T → Balancer T → Balancer T
  add_resource r b = notify_strategy_update (record b { resources = b.resources ++ (r ∷ []) })

  pub add_resources : List T → Balancer T → Balancer T
  add_resources rs b = notify_strategy_update (record b { resources = b.resources ++ rs })

  -- `std::find` and `erase`, with the equality of the resources: the list without the first one that is
  -- equal, if there is one.
  pub without : (T → T → Bool) → T → List T → Option (List T)
  without eq r [] = none
  without eq r (x ∷ xs) =
      let later = without eq r xs in
      if eq x r then some xs else (elim later [ none ↦ none | some ys ↦ some (x ∷ ys) ])

  abbrev pub removed : Balancer T → Option (List T) → Bool × Balancer T
  removed b none = (false, b)
  removed b (some rest) = (true, notify_strategy_update (record b { resources = rest }))

  pub del_resource : (T → T → Bool) → T → Balancer T → Bool × Balancer T
  del_resource eq r b = removed b (without eq r b.resources)

  pub get_next : ℕ → Balancer T → Option T × Balancer T
  get_next drawn b =
      let (chosen, strategy) = select drawn b.strategy b.resources in
      (chosen, record b { strategy = strategy })

  pub set_strategy : Strategy T → Balancer T → Balancer T
  set_strategy new b = notify_strategy_update (record b { strategy = new })
