-- ===== src/LoadBalance/Tests.antt =====
-- Three resources, as examples for source/bee/utility/load_balance.h.
use cassobee.Base.{ℕ, [], ◌∷◌}
use cassobee.LoadBalance.{Balancer, round_robin}

abbrev three : Balancer ℕ
three = record { resources = 30 ∷ 10 ∷ 20 ∷ []; strategy = round_robin 0 }
