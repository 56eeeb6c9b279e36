-- ===== src/LoadBalance/Resources.antt =====
-- The list of resources of the balancer in source/bee/utility/load_balance.h.
use cassobee.Base.{◌≡◌, ◌∙◌, ap, refl, none, some, Bool, true, false, List, [], ◌∷◌, ◌++◌}
use cassobee.LoadBalance.{Balancer, without, removed, del_resource, notify_strategy_update, update}

module _ {T : Type 0} (eq : T → T → Bool) (r : T) where
  -- That none of the resources is equal to `r`.
  abbrev pub Absent : List T → Type 0
  Absent [] = Unit {0}
  Absent (x ∷ xs) = (eq x r ≡ false) × Absent xs

  without-found :
      (before after : List T) (x : T)
      → Absent before
      → eq x r ≡ true
      → without eq r (before ++ x ∷ after) ≡ some (before ++ after)
  unfolding without
  without-found [] after x none_before found = rw found refl
  without-found (y ∷ before) after x (differs, absent) found =
      let later : without eq r (before ++ x ∷ after) ≡ some (before ++ after) =
        without-found before after x absent found in
      rw (differs, later) refl

  without-Absent : (xs : List T) → Absent xs → without eq r xs ≡ none
  unfolding without
  without-Absent [] absent = refl
  without-Absent (x ∷ xs) (differs, absent) = rw (differs, without-Absent xs absent) refl

  -- `del_resource` removes the first resource that is equal to the given one. The others keep
  -- their order, and the strategy is told.
  pub del_resource_first :
      (before after : List T) (x : T) (b : Balancer T)
      → b.resources ≡ before ++ x ∷ after
      → Absent before
      → eq x r ≡ true
      → del_resource eq r b
        ≡ (true, record { resources = before ++ after; strategy = update b.strategy })
  unfolding del_resource notify_strategy_update
  del_resource_first before after x b held absent found =
      ap (removed b) (ap (without eq r) held ∙ without-found before after x absent found)

  -- Where no resource is equal to the given one nothing changes.
  pub del_resource-Absent : (b : Balancer T) → Absent b.resources → del_resource eq r b ≡ (false, b)
  unfolding del_resource
  del_resource-Absent b absent = ap (removed b) (without-Absent b.resources absent)
