-- ===== src/Shaper/Tests.antt =====
-- A bucket of 2000 bytes in a second, as an example for source/bee/io/traffic_shaper.h.
use cassobee.Base.{◌+◌, ◌-◌, ◌*◌, ◌/◌, ◌≡◌, ◌≤◌, arith, refl, false, List, [], ◌∷◌}
use cassobee.Shaper.{Shaper, acquire, fill}
use cassobee.Shaper.Rate.{run, run-le, Call}

abbrev calls : List Call
calls = (0, 1500) ∷ (100, 800) ∷ (200, 800) ∷ []

abbrev bucket : Shaper
bucket = record { capacity = 2000; tokens = 2000; last_fill = 0 }

-- Below 1000 bytes in a second nothing is ever added.
never_filled :
    acquire 1000000 1 (record { capacity = 999; tokens = 0; last_fill = 0 })
    ≡ (false, record { capacity = 999; tokens = 0; last_fill = 1000000 })
unfolding acquire fill
never_filled = refl

run-le_example :
    (run calls bucket).0 + (run calls bucket).1.tokens
    ≤ 2000 + ((run calls bucket).1.last_fill - 0) * (2000 / 1000)
run-le_example = run-le calls bucket (omega arith)
