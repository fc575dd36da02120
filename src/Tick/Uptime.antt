-- ===== src/Tick/Uptime.antt =====
-- The count and the delay of epic_tick.c on the simulator, from `epic_tick_init` on.
use mathlib.Core.Path.{subst}
use pic8_hal.Common.{
  ℕ, zero, suc, ◌+◌, ◌*◌, ◌/◌, ◌<◌, ◌≡◌, sym, ap, ◌∙◌, inl, inr, false, arith, u32,
}
use pic8_hal.Pic16.{Sfr}
use pic8_hal.Pic16.Dispatch.{Handlers, dispatch_all_irqs}
use pic8_hal.Pic16.Sim.{Machine, steps}
use pic8_hal.Tick.{Best, compute_period}
use pic8_hal.Tick.Timebase.{init, with_tick, get_on, harness_tick}
use pic8_hal.Tick.Overflow.{OthersInert}
use pic8_hal.Tick.Steps.{clock}
use pic8_hal.Tick.Count.{Shows, post_of, period}
use pic8_hal.Tick.Delay.{Shows-quotient, get_on-value, harness_tick-Reads}
use pic8_hal.Tick.Start.{Holds, compute_period-Choice, t2con_at, t2con_at-Holds, init-base}

-- The program that has called `epic_tick_init`, with the static counters of the simulator at zero.
abbrev pub booted : ℕ → Sfr → Machine ℕ
booted fosc_hz s =
    let (sfr, tick_ms) = init fosc_hz s in
    record {
      sfr = sfr;
      t0_prescaler = 0;
      t1_prescaler = 0;
      t2_prescaler = 0;
      t2_post = 0;
      prog = tick_ms;
    }

-- The instruction cycles of one tick.
abbrev pub cycles_of : Best → ℕ
cycles_of best = best.pre * (best.pr2 + 1) * (best.post + 1)

module _ (h : Handlers ℕ) (inert : OthersInert h) (fosc_hz : ℕ) (s : Sfr)
    (zeroed : s 0x11 ≡ 0) where
  abbrev best : Best
  best = compute_period fosc_hz

  abbrev t2con : ℕ
  t2con = t2con_at best

  holds : Holds t2con best.pre best.post
  holds = t2con_at-Holds best (compute_period-Choice fosc_hz)

  period_lem : period t2con best.pr2 ≡ cycles_of best
  period_lem =
      ap (λ p. p * (best.pr2 + 1) * post_of t2con) holds.pre_lem
      ∙ ap (λ r. best.pre * (best.pr2 + 1) * r) holds.post_lem

  -- The program as far as it is after `k` rounds.
  abbrev after : ℕ → Machine ℕ
  after k = steps (dispatch_all_irqs (with_tick h)) k (booted fosc_hz s)

  booted-Shows : Shows t2con best.pr2 0 (clock (booted fosc_hz s))
  booted-Shows =
      let choice = compute_period-Choice fosc_hz in
      let at =
        init-base fosc_hz s
        ∙ ap (λ v. record { t2con = t2con; pr2 = best.pr2; tmr2 = v; flag = false; tick_ms = 0 })
            zeroed in
      let some_pre : 0 < best.pre = elim choice.pre_choice [
        | inl e ↦ omega (arith, e)
        | inr (inl e) ↦ omega (arith, e)
        | inr (inr e) ↦ omega (arith, e)
      ] in
      record {
        x = 0;
        y = 0;
        z = 0;
        q = 0;
        x_bound = omega (arith, some_pre, holds.pre_lem);
        y_bound = omega arith;
        z_bound = omega (arith, holds.post_lem);
        clock_lem = ap (λ b. record { at = b; prescaler = 0; post = 0 }) at;
        total = omega arith;
      }

  module _ (small : best.pr2 < 255) where
    shown_on :
        (n n' : ℕ) (m : Machine ℕ)
        → n ≡ n'
        → Shows t2con best.pr2 n (clock m)
        → Shows t2con best.pr2 n' (clock m)
    shown_on n n' m e = subst (λ n. Shows t2con best.pr2 n (clock m)) e

    steps-Shows :
        (k n : ℕ) (m : Machine ℕ)
        → Shows t2con best.pr2 n (clock m)
        → Shows t2con best.pr2 (n + k) (clock (steps (dispatch_all_irqs (with_tick h)) k m))
    unfolding steps harness_tick
    steps-Shows zero n m shown = shown_on n (n + 0) m (omega arith) shown
    steps-Shows (suc k) n m shown =
        let next = harness_tick-Reads h inert t2con best.pr2 holds.on small n m shown in
        let rest = steps-Shows k (n + 1) (harness_tick h m) next in
        shown_on (n + 1 + k) (n + suc k)
          (steps (dispatch_all_irqs (with_tick h)) k (harness_tick h m)) (omega arith) rest

    after-Shows : (k : ℕ) → Shows t2con best.pr2 k (clock (after k))
    after-Shows k =
        shown_on (0 + k) k (after k) (omega arith) (steps-Shows k 0 (booted fosc_hz s) booted-Shows)

    shown_count :
        (n : ℕ) (m : Machine ℕ)
        → Shows t2con best.pr2 n (clock m)
        → (get_on h m).0 ≡ u32 (n / cycles_of best)
    shown_count n m shown =
        get_on-value h inert m
        ∙ ap (λ c. c.at.tick_ms) shown.clock_lem
        ∙ ap u32 (sym (Shows-quotient t2con best.pr2 n (clock m) shown))
        ∙ ap (λ c. u32 (n / c)) period_lem

    -- Where TMR2 is zero at `epic_tick_init`, the PR2 that it chooses is below 255, and the other
    -- interrupt handlers leave Timer2 and the count alone: after `k` cycles of the simulator
    -- `epic_tick_get` returns, modulo 2 ^ 32, the number of whole periods among them.
    pub get-steps : (k : ℕ) → (get_on h (after k)).0 ≡ u32 (k / cycles_of best)
    get-steps k = shown_count k (after k) (after-Shows k)
