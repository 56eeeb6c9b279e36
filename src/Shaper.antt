-- ===== src/Shaper.antt =====
-- source/bee/io/traffic_shaper.h: a token bucket. The times are the milliseconds that the clock gives;
-- the lock is held for the whole of `acquire`. All arithmetic is that of `size_t`.
pub mod Rate
mod Tests
use cassobee.Base.{
  ℕ, ◌-◌, ◌*◌, ◌/◌, ◌%◌, min, leb, if◌then◌else◌, Bool, true, false, word, add64, sub64,
}

pub record Shaper : Type 0 where
  pub capacity : ℕ
  pub tokens : ℕ
  pub last_fill : ℕ

pub start : ℕ → ℕ → Shaper
start rate_bps now = record { capacity = rate_bps; tokens = rate_bps; last_fill = now }

-- The tokens after what the time since the last call adds.
pub fill : ℕ → Shaper → Shaper
fill now s =
    let elapsed = sub64 now s.last_fill in
    let new_tokens = elapsed * (s.capacity / 1000) % word in
    record s { tokens = min s.capacity (add64 s.tokens new_tokens); last_fill = now }

pub acquire : ℕ → ℕ → Shaper → Bool × Shaper
acquire now bytes s =
    let f = fill now s in
    if leb bytes f.tokens then (true, record f { tokens = sub64 f.tokens bytes }) else (false, f)
