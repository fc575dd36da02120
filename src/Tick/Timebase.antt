-- ===== src/Tick/Timebase.antt =====
-- epic-tick/src/epic_tick.c on the registers and the simulated Timer2 of pic16f87xa-hal. The state of
-- the program is `g_tick_ms`.
use pic8_hal.Common.{ℕ, zero, suc, ◌+◌, true, Option, none, some, ltb, ◌==◌, if◌then◌else◌, u32}
use pic8_hal.Pic16.{Sfr}
use pic8_hal.Pic16.Irq
use pic8_hal.Pic16.Timer2
use pic8_hal.Pic16.Dispatch.{Handlers, dispatch_all_irqs}
use pic8_hal.Pic16.Sim.{Machine, step}
use pic8_hal.Tick.{Best, compute_period, elapsed}

-- `epic_tick_on_overflow`
abbrev pub on_overflow : ℕ → ℕ
on_overflow tick_ms = u32 (tick_ms + 1)

-- The code of a ratio of the prescaler, from `pre_enum` and `pre_ratio`.
abbrev pub pre_code : ℕ → ℕ
pre_code ratio = if ratio == 16 then 2 else if ratio == 4 then 1 else 0

abbrev pub handle_of : Best → Timer2.Handle
handle_of best = record {
  prescaler = pre_code best.pre;
  postscaler = best.post;
  period = best.pr2;
  has_callback = true;
}

-- `epic_tick_init`: the registers and the count.
unfoldable pub init : ℕ → Sfr → Sfr × ℕ
init fosc_hz s =
    let h = handle_of (compute_period fosc_hz) in
    (Irq.restore (Timer2.start (Timer2.init s h) h) 1, 0)

-- `epic_tick_get`: the value, and the registers.
unfoldable pub get : Sfr × ℕ → ℕ × Sfr
get (s, tick_ms) = let (prev, s') = Irq.disable s in (tick_ms, Irq.restore s' prev)

-- A program whose other handlers are `h`.
abbrev pub with_tick : Handlers ℕ → Handlers ℕ
with_tick h = record h { timer2 = Timer2.irq_handler on_overflow }

module _ (h : Handlers ℕ) where
  -- `epic_harness_tick`
  unfoldable pub harness_tick : Machine ℕ → Machine ℕ
  harness_tick m = step (dispatch_all_irqs (with_tick h)) m

  -- `epic_tick_get` on a machine.
  abbrev pub get_on : Machine ℕ → ℕ × Machine ℕ
  get_on m = let (tick_ms, s) = get (m.sfr, m.prog) in (tick_ms, record m { sfr = s })

  -- The loop of `epic_tick_delay_ms`, with fuel for its rounds; `none` is that it still waits.
  unfoldable pub wait_since : ℕ → ℕ → ℕ → Machine ℕ → Option (Machine ℕ)
  wait_since zero t0 ms m = none
  wait_since (suc fuel) t0 ms m =
      let (now, m') = get_on m in
      let rest = wait_since fuel t0 ms (harness_tick m') in
      if ltb (elapsed now t0) ms then rest else some m'

  -- `epic_tick_delay_ms`
  unfoldable pub delay_ms : ℕ → ℕ → Machine ℕ → Option (Machine ℕ)
  delay_ms fuel ms m = let (t0, m') = get_on m in wait_since fuel t0 ms m'
