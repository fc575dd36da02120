-- ===== src/Pic16/Sim.antt =====
-- pic16f87xa-hal/src/sim/pic16f87xa_sim.c: the simulated timers and the transmit flag of the USART.
-- A machine is the register file, the static counters of the step functions, and the state of the
-- program, on which the interrupt callback acts.
use pic8_hal.Common.{
  ℕ, zero, suc, ◌+◌, ◌*◌, ◌/◌, bit_and, bit_or, not, List, [], ◌∷◌, ltb, leb, ◌==◌, if◌then◌else◌,
  get_or, u8, u16,
}
use pic8_hal.Pic16.{Sfr, poke, bit_set, bit_test}
use pic8_hal.Pic16.Irq.{reg_intcon, reg_pir1}

pub record Machine (P : Type 0) : Type 0 where
  pub sfr : Sfr
  pub t0_prescaler : ℕ
  pub t1_prescaler : ℕ
  pub t2_prescaler : ℕ
  pub t2_post : ℕ
  pub prog : P

abbrev pub t0_rates : List ℕ
t0_rates = 2 ∷ 4 ∷ 8 ∷ 16 ∷ 32 ∷ 64 ∷ 128 ∷ 255 ∷ []

abbrev pub t1_rates : List ℕ
t1_rates = 1 ∷ 2 ∷ 4 ∷ 8 ∷ []

abbrev pub t2_rates : List ℕ
t2_rates = 1 ∷ 4 ∷ 16 ∷ 16 ∷ []

module _ {P : Type 0} (irq_cb : Sfr × P → Sfr × P) where
  -- A call of `sim_irq_cb`, with the registers as they are then.
  abbrev pub with_irq : Machine P → Sfr → Machine P
  with_irq m s = let (s', p') = irq_cb (s, m.prog) in record m { sfr = s'; prog = p' }

  unfoldable pub step_timer0 : Machine P → Machine P
  step_timer0 m =
      let rate = get_or t0_rates (bit_and (m.sfr 0x81) 7) 0 in
      let count = u16 (m.t0_prescaler + 1) in
      let t0 = u8 (m.sfr 0x01 + 1) in
      let reset = record m { t0_prescaler = 0 } in
      let raised = if t0 == 0 then with_irq reset (bit_set m.sfr reg_intcon 0x04) else reset in
      if ltb count rate
      then record m { t0_prescaler = count }
      else record raised { sfr = poke raised.sfr 0x01 t0 }

  unfoldable pub step_timer1 : Machine P → Machine P
  step_timer1 m =
      let t1con = m.sfr 0x10 in
      let rate = get_or t1_rates (bit_and (t1con / 16) 3) 0 in
      let count = u8 (m.t1_prescaler + 1) in
      let full = u16 (bit_or (m.sfr 0x0F * 256) (m.sfr 0x0E) + 1) in
      let counted = record m {
        t1_prescaler = 0;
        sfr = poke (poke m.sfr 0x0E (bit_and full 255)) 0x0F (full / 256);
      } in
      if not (bit_test t1con 0x01)
      then m
      else if ltb count rate
      then record m { t1_prescaler = count }
      else if full == 0
      then with_irq counted (bit_set counted.sfr reg_pir1 0x01)
      else counted

  -- The part of `sim_step_timer2` behind its prescaler; `post` is the ratio of the postscaler.
  unfoldable pub count_timer2 : Machine P → ℕ → Machine P
  count_timer2 m post =
      let t2 = u8 (m.sfr 0x11 + 1) in
      let over = u8 (m.t2_post + 1) in
      let matched =
        if leb post over
        then with_irq (record m { t2_post = 0 }) (bit_set m.sfr reg_pir1 0x02)
        else record m { t2_post = over } in
      if ltb (m.sfr 0x92) t2
      then record matched { sfr = poke matched.sfr 0x11 0 }
      else record m { sfr = poke m.sfr 0x11 t2 }

  unfoldable pub step_timer2 : Machine P → Machine P
  step_timer2 m =
      let t2con = m.sfr 0x12 in
      let pre = get_or t2_rates (bit_and t2con 3) 0 in
      let post = u8 (bit_and (t2con / 8) 15 + 1) in
      let count = u16 (m.t2_prescaler + 1) in
      if not (bit_test t2con 0x04)
      then m
      else if ltb count pre
      then record m { t2_prescaler = count }
      else count_timer2 (record m { t2_prescaler = 0 }) post

  unfoldable pub step_usart : Machine P → Machine P
  step_usart m =
      if bit_test (m.sfr 0x98) 0x20 then record m { sfr = bit_set m.sfr reg_pir1 0x10 } else m

  -- One round of `pic16f87xa_sim_step`.
  unfoldable pub step : Machine P → Machine P
  step m = step_usart (step_timer2 (step_timer1 (step_timer0 m)))

  unfoldable pub steps : ℕ → Machine P → Machine P
  steps zero m = m
  steps (suc ticks) m = steps ticks (step m)
