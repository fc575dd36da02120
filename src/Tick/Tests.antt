-- ===== src/Tick/Tests.antt =====
-- Timer2 at 20 MHz, and at 16.384 MHz, where the search chooses 255 for PR2.
use pic8_hal.Common.{ℕ, ◌+◌, ◌-◌, ◌*◌, ◌/◌, ◌^◌, ◌≤◌, ◌<◌, ◌≡◌, refl, inl, inr, none, arith, u32}
use pic8_hal.Tick.{error_of, try_period, try_both, try_post, compute_period}
use pic8_hal.Tick.Closest.{compute_period-closest}
use pic8_hal.Pic16.{Sfr}
use pic8_hal.Pic16.Dispatch.{Handlers, dispatch_all_irqs}
use pic8_hal.Pic16.Sim.{steps}
use pic8_hal.Tick.Timebase.{with_tick, get_on, delay_ms}
use pic8_hal.Tick.Overflow.{OthersInert}
use pic8_hal.Tick.Uptime.{booted, cycles_of, get-steps}
use pic8_hal.Tick.Stuck.{delay_ms-none}

-- 5000 cycles: no configuration is off.
compute_period-20_mhz : (compute_period 20000000).err ≡ 0
unfolding compute_period try_post try_both try_period error_of
compute_period-20_mhz = refl

compute_period-closest_example :
    let best = compute_period 20000000 in
    (best.err ≤ error_of 5000 (4 * 5 * 250))
    × (best.err < 2 ^ 32 - 1
        → best.err ≡ error_of 5000 (best.pre * (best.post + 1) * (best.pr2 + 1)))
compute_period-closest_example =
    compute_period-closest 20000000 4 5 250 (inr (inl refl)) (omega arith) (omega arith)
      (omega arith) (omega arith) (omega arith)

-- No other driver has an interrupt.
abbrev idle : Handlers ℕ
idle = record {
  timer0 = λ x. x;
  rb = λ x. x;
  timer1 = λ x. x;
  timer2 = λ x. x;
  ccp1 = λ x. x;
  ssp = λ x. x;
  usart_rx = λ x. x;
  usart_tx = λ x. x;
  adc = λ x. x;
  psp = λ x. x;
  ccp2 = λ x. x;
  eeprom = λ x. x;
  comp = λ x. x;
}

idle-OthersInert : OthersInert idle
idle-OthersInert = record {
  timer0_lem = λ x. refl;
  rb_lem = λ x. refl;
  timer1_lem = λ x. refl;
  ccp1_lem = λ x. refl;
  ssp_lem = λ x. refl;
  usart_rx_lem = λ x. refl;
  usart_tx_lem = λ x. refl;
  adc_lem = λ x. refl;
  psp_lem = λ x. refl;
  ccp2_lem = λ x. refl;
  eeprom_lem = λ x. refl;
  comp_lem = λ x. refl;
}

-- The registers before `epic_tick_init`.
abbrev blank : Sfr
blank a = 0

compute_period-pr2_20_mhz : (compute_period 20000000).pr2 ≡ 249
unfolding compute_period try_post try_both try_period error_of
compute_period-pr2_20_mhz = refl

compute_period-pr2_16_mhz : (compute_period 16384000).pr2 ≡ 255
unfolding compute_period try_post try_both try_period error_of
compute_period-pr2_16_mhz = refl

get-steps_example :
    (get_on idle (steps (dispatch_all_irqs (with_tick idle)) 15000 (booted 20000000 blank))).0
    ≡ u32 (15000 / cycles_of (compute_period 20000000))
get-steps_example =
    get-steps idle idle-OthersInert 20000000 blank refl (omega (arith, compute_period-pr2_20_mhz))
      15000

delay_ms-none_example : delay_ms idle 100000 1 (booted 16384000 blank) ≡ none
delay_ms-none_example =
    delay_ms-none idle idle-OthersInert 16384000 blank 100000 1 compute_period-pr2_16_mhz
      (omega arith)
