-- ===== src/Tick.antt =====
-- epic-tick/src/epic_tick.c: the 1 ms timebase.
mod Closest
pub mod Timebase
pub mod Overflow
mod Steps
mod Count
mod Delay
mod Start
mod Uptime
mod Stuck
mod Tests
use pic8_hal.Common.{
  ℕ, zero, suc, ◌+◌, ◌-◌, ◌*◌, ◌/◌, ◌^◌, ◌||◌, ltb, leb, ◌==◌, if◌then◌else◌, u8, u32,
}

-- `epic_tick_elapsed_since(t0)` at the count `now`: unsigned subtraction, which wraps.
abbrev pub elapsed : ℕ → ℕ → ℕ
elapsed now t0 = u32 (now + 2 ^ 32 - t0)

-- The best configuration of Timer2 so far: its error in instruction cycles, PR2, the ratio of the
-- prescaler and the code of the postscaler.
pub record Best : Type 0 where
  pub err : ℕ
  pub pr2 : ℕ
  pub pre : ℕ
  pub post : ℕ

unfoldable pub error_of : ℕ → ℕ → ℕ
error_of target cand = if leb target cand then cand - target else target - cand

-- The body of the loops of `compute_period`, where the period is `nn`.
unfoldable pub try_period : ℕ → ℕ → ℕ → ℕ → Best → Best
try_period target p q nn best =
    let err = error_of target (p * q * nn) in
    if ltb nn 1 || ltb 256 nn
    then best
    else if ltb err best.err
    then record { err = err; pr2 = u8 (nn - 1); pre = p; post = q - 1 }
    else best

-- The loop over the floor and the ceiling.
unfoldable pub try_both : ℕ → ℕ → ℕ → Best → Best
try_both target p q best =
    try_period target p q (target / (p * q) + 1) (try_period target p q (target / (p * q)) best)

-- The first `n` rounds of the loop over the postscaler.
unfoldable pub try_post : ℕ → ℕ → ℕ → Best → Best
try_post target p zero best = best
try_post target p (suc n) best = try_both target p (suc n) (try_post target p n best)

unfoldable pub compute_period : ℕ → Best
compute_period fosc_hz =
    let cycles = fosc_hz / 4000 in
    let target = if cycles == 0 then 1 else cycles in
    try_post target 1 16 (
      try_post target 4 16
        (try_post target 16 16 (record { err = 2 ^ 32 - 1; pr2 = 255; pre = 1; post = 0 })))
