-- ===== src/Tick/Steps.antt =====
-- What the steps of the simulated peripherals do to the timebase.
use pic8_hal.Common.{
  ℕ, ◌+◌, ◌*◌, ◌/◌, ◌^◌, ◌<◌, bit_and, bit_or, ◌≡◌, refl, sym, ap, ◌∙◌, Bool, true, false, not,
  arith, ltb, leb, ◌==◌, if◌then◌else◌, get_or, u8, u16,
}
use pic8_hal.Pic16.{Sfr, poke, bit_set, bit_test}
use pic8_hal.Pic16.Irq.{get_flag}
use pic8_hal.Pic16.Location.{Location, bit_at-bit_set, bit_test-pow}
use pic8_hal.Pic16.Dispatch.{Handlers, dispatch_all_irqs}
use pic8_hal.Pic16.Sim.{
  Machine, with_irq, step_timer0, step_timer1, count_timer2, step_timer2, step_usart, step,
  t0_rates, t1_rates, t2_rates,
}
use pic8_hal.Tick.Timebase.{on_overflow, with_tick}
use pic8_hal.Tick.Overflow.{Base, base, OthersInert, served, dispatch-base, served-clear}

-- The timebase with the counters of the simulated Timer2.
pub record Clock : Type 0 where
  pub at : Base
  pub prescaler : ℕ
  pub post : ℕ

abbrev pub clock : Machine ℕ → Clock
clock m = record { at = base (m.sfr, m.prog); prescaler = m.t2_prescaler; post = m.t2_post }

-- Setting another bit of PIR1 leaves the flag of Timer2.
flag_kept : (v k : ℕ) → k < 8 → (k == 1) ≡ false → bit_test (u8 (bit_or v (2 ^ k))) 2 ≡ bit_test v 2
flag_kept v k h other =
    bit_test-pow (u8 (bit_or v (2 ^ k))) 1
    ∙ ap (λ d. d == 1)
        (bit_at-bit_set (λ a. v) (record { addr = 0; bit = k }) (record { addr = 0; bit = 1 }) h
            (omega arith)
          ∙ rw other refl)
    ∙ sym (bit_test-pow v 1)

flag_raised : (v : ℕ) → bit_test (u8 (bit_or v 2)) 2 ≡ true
flag_raised v =
    let l : Location = record { addr = 0; bit = 1 } in
    bit_test-pow (u8 (bit_or v 2)) 1
    ∙ ap (λ d. d == 1) (bit_at-bit_set (λ a. v) l l (omega arith) (omega arith))

pub pick :
    (b : Bool) (m n : Machine ℕ) {c : Clock}
    → clock m ≡ c
    → clock n ≡ c
    → clock (if b then m else n) ≡ c
pick true m n e e' = e
pick false m n e e' = e'

choose :
    (b : Bool) (m n : Machine ℕ) {c d : Clock}
    → clock m ≡ c
    → clock n ≡ d
    → clock (if b then m else n) ≡ (if b then c else d)
choose true m n e e' = e
choose false m n e e' = e'

abbrev zeroed : Clock → Clock
zeroed c = record c { at = record c.at { tmr2 = 0 } }

choose_zero :
    (b : Bool) (m n : Machine ℕ) {c d : Clock}
    → clock m ≡ c
    → clock n ≡ d
    → (let o = if b then m else n in clock (record o { sfr = poke o.sfr 0x11 0 }))
      ≡ (if b then zeroed c else zeroed d)
unfolding get_flag
choose_zero true m n e e' = ap zeroed e
choose_zero false m n e e' = ap zeroed e'

-- The clock behind one count of TMR2, with the ratio of the postscaler, where the flag is clear.
abbrev pub tick_timer2 : ℕ → Clock → Clock
tick_timer2 ratio c =
    let t2 = u8 (c.at.tmr2 + 1) in
    let over = u8 (c.post + 1) in
    if ltb c.at.pr2 t2
    then if leb ratio over
      then record c { at = record c.at { tmr2 = 0; tick_ms = on_overflow c.at.tick_ms }; post = 0 }
      else record c { at = record c.at { tmr2 = 0 }; post = over }
    else record c { at = record c.at { tmr2 = t2 } }

-- The clock behind one step, where the flag is clear.
abbrev pub advance : Clock → Clock
advance c =
    let count = u16 (c.prescaler + 1) in
    if not (bit_test c.at.t2con 4)
    then c
    else if ltb count (get_or t2_rates (bit_and c.at.t2con 3) 0)
    then record c { prescaler = count }
    else tick_timer2 (u8 (bit_and (c.at.t2con / 8) 15 + 1)) (record c { prescaler = 0 })

module _ (h : Handlers ℕ) (inert : OthersInert h) where
  abbrev irq : Sfr × ℕ → Sfr × ℕ
  irq = dispatch_all_irqs (with_tick h)

  -- An interrupt with the flag clear.
  irq-idle : (s : Sfr) (p : ℕ) → (base (s, p)).flag ≡ false → base (irq (s, p)) ≡ base (s, p)
  irq-idle s p clear = dispatch-base h inert (s, p) ∙ served-clear (base (s, p)) clear

  with_irq-clock :
      (m : Machine ℕ) (s : Sfr) (c : Clock)
      → c.at.flag ≡ false
      → clock (record m { sfr = s }) ≡ c
      → clock (with_irq irq m s) ≡ c
  with_irq-clock m s c clear e =
      let flag : (base (s, m.prog)).flag ≡ false = ap (λ c. c.at.flag) e ∙ clear in
      ap (λ b. record { at = b; prescaler = m.t2_prescaler; post = m.t2_post })
        (irq-idle s m.prog flag)
      ∙ e

  step_timer0-clock :
      (m : Machine ℕ) → (clock m).at.flag ≡ false → clock (step_timer0 irq m) ≡ clock m
  unfolding step_timer0 get_flag
  step_timer0-clock m clear =
      let reset = record m { t0_prescaler = 0 } in
      let set = bit_set m.sfr 0x0B 4 in
      let raised = if u8 (m.sfr 1 + 1) == 0 then with_irq irq reset set else reset in
      let raised_lem : clock raised ≡ clock m =
        pick (u8 (m.sfr 1 + 1) == 0) (with_irq irq reset set) reset
          (with_irq-clock reset set (clock m) clear refl) refl in
      let count = u16 (m.t0_prescaler + 1) in
      pick (ltb count (get_or t0_rates (bit_and (m.sfr 0x81) 7) 0))
        (record m { t0_prescaler = count })
        (record raised { sfr = poke raised.sfr 1 (u8 (m.sfr 1 + 1)) }) refl raised_lem

  -- A bit of PIR1 other than the flag of Timer2 is set.
  set-clock :
      (m : Machine ℕ) (k : ℕ)
      → k < 8
      → (k == 1) ≡ false
      → clock (record m { sfr = bit_set m.sfr 0x0C (2 ^ k) }) ≡ clock m
  unfolding get_flag
  set-clock m k hk other =
      let b = base (m.sfr, m.prog) in
      ap
        (λ flag. record {
          at = record b { flag = flag };
          prescaler = m.t2_prescaler;
          post = m.t2_post;
        })
        (flag_kept (m.sfr 0x0C) k hk other)

  step_timer1-clock :
      (m : Machine ℕ) → (clock m).at.flag ≡ false → clock (step_timer1 irq m) ≡ clock m
  unfolding step_timer1 get_flag
  step_timer1-clock m clear =
      let t1con = m.sfr 0x10 in
      let count = u8 (m.t1_prescaler + 1) in
      let full = u16 (bit_or (m.sfr 0x0F * 256) (m.sfr 0x0E) + 1) in
      let counted = record m {
        t1_prescaler = 0;
        sfr = poke (poke m.sfr 0x0E (bit_and full 255)) 0x0F (full / 256);
      } in
      let waiting = record m { t1_prescaler = count } in
      let set = bit_set counted.sfr 0x0C 1 in
      let over : clock (with_irq irq counted set) ≡ clock m =
        with_irq-clock counted set (clock m) clear (set-clock counted 0 (omega arith) refl) in
      let last = if full == 0 then with_irq irq counted set else counted in
      let last_lem : clock last ≡ clock m =
        pick (full == 0) (with_irq irq counted set) counted over refl in
      let slow = ltb count (get_or t1_rates (bit_and (t1con / 16) 3) 0) in
      pick (not (bit_test t1con 1)) m (if slow then waiting else last) refl
        (pick slow waiting last refl last_lem)

  step_usart-clock : (m : Machine ℕ) → clock (step_usart irq m) ≡ clock m
  unfolding step_usart
  step_usart-clock m =
      pick (bit_test (m.sfr 0x98) 0x20) (record m { sfr = bit_set m.sfr 0x0C 0x10 }) m
        (set-clock m 4 (omega arith) refl) refl

  -- The interrupt at the end of a period.
  overflow-clock :
      (m : Machine ℕ)
      → (clock m).at.flag ≡ false
      → clock (with_irq irq (record m { t2_post = 0 }) (bit_set m.sfr 0x0C 2))
        ≡ record (clock m) { at = record (clock m).at { tick_ms = on_overflow m.prog }; post = 0 }
  unfolding get_flag
  overflow-clock m clear =
      let set = bit_set m.sfr 0x0C 2 in
      let at : base (irq (set, m.prog)) ≡ record (clock m).at { tick_ms = on_overflow m.prog } =
        dispatch-base h inert (set, m.prog)
        ∙ ap (λ flag. served (record (clock m).at { flag = flag })) (flag_raised (m.sfr 0x0C))
        ∙ ap (λ flag. record (clock m).at { flag = flag; tick_ms = on_overflow m.prog })
            (sym clear) in
      ap (λ b. record { at = b; prescaler = m.t2_prescaler; post = 0 }) at

  count_timer2-clock :
      (m : Machine ℕ) (ratio : ℕ)
      → (clock m).at.flag ≡ false
      → clock (count_timer2 irq m ratio) ≡ tick_timer2 ratio (clock m)
  unfolding count_timer2 get_flag
  count_timer2-clock m ratio clear =
      let t2 = u8 (m.sfr 0x11 + 1) in
      let twice : u8 t2 ≡ t2 = omega arith in
      let over = u8 (m.t2_post + 1) in
      let called = with_irq irq (record m { t2_post = 0 }) (bit_set m.sfr 0x0C 2) in
      let counted = record m { t2_post = over } in
      let matched = if leb ratio over then called else counted in
      choose (ltb (m.sfr 0x92) t2) (record matched { sfr = poke matched.sfr 0x11 0 })
        (record m { sfr = poke m.sfr 0x11 t2 })
        (choose_zero (leb ratio over) called counted (overflow-clock m clear) refl)
        (ap (λ v. record (clock m) { at = record (clock m).at { tmr2 = v } }) twice)

  step_timer2-clock :
      (m : Machine ℕ) → (clock m).at.flag ≡ false → clock (step_timer2 irq m) ≡ advance (clock m)
  unfolding step_timer2
  step_timer2-clock m clear =
      let t2con = m.sfr 0x12 in
      let count = u16 (m.t2_prescaler + 1) in
      let ratio = u8 (bit_and (t2con / 8) 15 + 1) in
      let slow = ltb count (get_or t2_rates (bit_and t2con 3) 0) in
      let waiting = record m { t2_prescaler = count } in
      let counted = count_timer2 irq (record m { t2_prescaler = 0 }) ratio in
      choose (not (bit_test t2con 4)) m (if slow then waiting else counted) refl (
        choose slow waiting counted refl
          (count_timer2-clock (record m { t2_prescaler = 0 }) ratio clear))

  -- A step of the simulator is a step of the clock.
  pub step-advance :
      (m : Machine ℕ) → (clock m).at.flag ≡ false → clock (step irq m) ≡ advance (clock m)
  unfolding step
  step-advance m clear =
      let zero_lem = step_timer0-clock m clear in
      let m0 = step_timer0 irq m in
      let one_lem = step_timer1-clock m0 (ap (λ c. c.at.flag) zero_lem ∙ clear) ∙ zero_lem in
      let m1 = step_timer1 irq m0 in
      step_usart-clock (step_timer2 irq m1)
      ∙ step_timer2-clock m1 (ap (λ c. c.at.flag) one_lem ∙ clear)
      ∙ ap advance one_lem
