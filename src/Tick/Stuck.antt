-- ===== src/Tick/Stuck.antt =====
-- epic_tick.c on the simulator where PR2 is 255: TMR2 wraps to zero before it is above PR2, so no period
-- ends.
use mathlib.Core.Path.{subst}
use pic8_hal.Common.{
  ℕ, zero, suc, ◌+◌, ◌/◌, ◌<◌, bit_and, ◌≡◌, refl, sym, ap, ◌∙◌, Bool, true, false, not, none,
  arith, ltb, if◌then◌else◌, lt→ltb, get_or, u8, u16,
}
use pic8_hal.Pic16.{Sfr, bit_test}
use pic8_hal.Pic16.Dispatch.{Handlers}
use pic8_hal.Pic16.Sim.{Machine, t2_rates}
use pic8_hal.Tick.{elapsed, compute_period}
use pic8_hal.Tick.Timebase.{get_on, harness_tick, wait_since, delay_ms}
use pic8_hal.Tick.Overflow.{OthersInert}
use pic8_hal.Tick.Steps.{Clock, clock, tick_timer2, advance, step-advance}
use pic8_hal.Tick.Delay.{get_on-clock, get_on-value}
use pic8_hal.Tick.Start.{init-base}
use pic8_hal.Tick.Uptime.{booted}

-- PR2 is 255, the flag is clear, and the count is `tick_ms`.
record Stands (tick_ms : ℕ) (c : Clock) : Type 0 where
  pub pr2_lem : c.at.pr2 ≡ 255
  pub clear : c.at.flag ≡ false
  pub count_lem : c.at.tick_ms ≡ tick_ms

pick-Stands :
    (t : ℕ) (b : Bool) (c d : Clock) → Stands t c → Stands t d → Stands t (if b then c else d)
pick-Stands t true c d hc hd = hc
pick-Stands t false c d hc hd = hd

tick_timer2-Stands : (t ratio : ℕ) (c : Clock) → Stands t c → Stands t (tick_timer2 ratio c)
tick_timer2-Stands t ratio c stands =
    let inside : ltb c.at.pr2 (u8 (c.at.tmr2 + 1)) ≡ false = ground (arith, stands.pr2_lem) in
    rw inside
      (record { pr2_lem = stands.pr2_lem; clear = stands.clear; count_lem = stands.count_lem })

advance-Stands : (t : ℕ) (c : Clock) → Stands t c → Stands t (advance c)
advance-Stands t c stands =
    let count = u16 (c.prescaler + 1) in
    let slow = ltb count (get_or t2_rates (bit_and c.at.t2con 3) 0) in
    let waiting : Clock = record c { prescaler = count } in
    let reset : Clock = record c { prescaler = 0 } in
    let reset_lem : Stands t reset = record {
      pr2_lem = stands.pr2_lem;
      clear = stands.clear;
      count_lem = stands.count_lem;
    } in
    let ratio = u8 (bit_and (c.at.t2con / 8) 15 + 1) in
    pick-Stands t (not (bit_test c.at.t2con 4)) c
      (if slow then waiting else tick_timer2 ratio reset) stands
      (pick-Stands t slow waiting (tick_timer2 ratio reset)
        (record { pr2_lem = stands.pr2_lem; clear = stands.clear; count_lem = stands.count_lem })
        (tick_timer2-Stands t ratio reset reset_lem))

module _ (h : Handlers ℕ) (inert : OthersInert h) where
  wait_since-Stands :
      (fuel t ms : ℕ) (m : Machine ℕ)
      → 0 < ms
      → Stands t (clock m)
      → wait_since h fuel t ms m ≡ none
  unfolding wait_since harness_tick
  wait_since-Stands zero t ms m some_ms stands = refl
  wait_since-Stands (suc fuel) t ms m some_ms stands =
      let m' = (get_on h m).1 in
      let read : Stands t (clock m') = subst (Stands t) (sym (get_on-clock h inert m)) stands in
      let next : Stands t (clock (harness_tick h m')) =
        subst (Stands t) (sym (step-advance h inert m' read.clear))
          (advance-Stands t (clock m') read) in
      let now : (get_on h m).0 ≡ t = get_on-value h inert m ∙ stands.count_lem in
      let since : elapsed (get_on h m).0 t ≡ 0 = ap (λ v. elapsed v t) now ∙ omega arith in
      let test : ltb (elapsed (get_on h m).0 t) ms ≡ true =
        ap (λ v. ltb v ms) since ∙ lt→ltb 0 ms some_ms in
      rw test (wait_since-Stands fuel t ms (harness_tick h m') some_ms next)

  -- Where `epic_tick_init` chooses 255 for PR2, a delay of at least 1 ms that starts right behind it does not
  -- return on the simulator, whatever the fuel.
  pub delay_ms-none :
      (fosc_hz : ℕ) (s : Sfr) (fuel ms : ℕ)
      → (compute_period fosc_hz).pr2 ≡ 255
      → 0 < ms
      → delay_ms h fuel ms (booted fosc_hz s) ≡ none
  unfolding delay_ms
  delay_ms-none fosc_hz s fuel ms full some_ms =
      let m = booted fosc_hz s in
      let at = init-base fosc_hz s in
      let stands : Stands 0 (clock m) = record {
        pr2_lem = ap (λ b. b.pr2) at ∙ full;
        clear = ap (λ b. b.flag) at;
        count_lem = ap (λ b. b.tick_ms) at;
      } in
      let read = subst (Stands 0) (sym (get_on-clock h inert m)) stands in
      let t0 : (get_on h m).0 ≡ 0 = get_on-value h inert m ∙ stands.count_lem in
      ap (λ t. wait_since h fuel t ms (get_on h m).1) t0
      ∙ wait_since-Stands fuel 0 ms (get_on h m).1 some_ms read
