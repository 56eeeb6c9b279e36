-- ===== src/TimeWheel/Timing.antt =====
-- common/timewheel.cpp: where remove_timer looks for a timer.
use cassobee.Base.{ℕ, ◌+◌, ◌%◌, ◌^◌, ◌≤◌, ◌<◌, ◌≡◌, ◌↔◌, ◌⊎◌, arith}
use cassobee.TimeWheel.{place, remove_place}

-- For a timer that is due within the next 4096 ticks, remove_timer looks into the slot in which readd_timer put it
-- exactly if it is due now or the tick is a multiple of 4096.
pub remove_place-place :
    (nexttime now : ℕ)
    → now ≤ nexttime
    → nexttime < now + 4096
    → nexttime < 2 ^ 63
    → (remove_place nexttime now ≡ place nexttime now) ↔ ((nexttime ≡ now) ⊎ (now % 4096 ≡ 0))
unfolding place remove_place
remove_place-place nexttime now h k b = (λ e. ground arith, λ c. ground arith)
