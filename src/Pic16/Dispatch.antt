-- ===== src/Pic16/Dispatch.antt =====
-- pic16f87xa-hal/src/core/pic16_irq_dispatch.c, on the registers and the state of the program.
use pic8_hal.Common.{ℕ, if◌then◌else◌}
use pic8_hal.Pic16.{Sfr, bit_test}
use pic8_hal.Pic16.Irq.{reg_intcon, reg_pir1, reg_pir2}

-- The handlers of the drivers.
pub record Handlers (P : Type 0) : Type 0 where
  pub timer0 : Sfr × P → Sfr × P
  pub rb : Sfr × P → Sfr × P
  pub timer1 : Sfr × P → Sfr × P
  pub timer2 : Sfr × P → Sfr × P
  pub ccp1 : Sfr × P → Sfr × P
  pub ssp : Sfr × P → Sfr × P
  pub usart_rx : Sfr × P → Sfr × P
  pub usart_tx : Sfr × P → Sfr × P
  pub adc : Sfr × P → Sfr × P
  pub psp : Sfr × P → Sfr × P
  pub ccp2 : Sfr × P → Sfr × P
  pub eeprom : Sfr × P → Sfr × P
  pub comp : Sfr × P → Sfr × P

module _ {P : Type 0} where
  -- `if (reg & mask) handler();`
  abbrev pub when : ℕ → ℕ → (Sfr × P → Sfr × P) → Sfr × P → Sfr × P
  when reg mask handler x = if bit_test reg mask then handler x else x

  -- The three parts of `epic_dispatch_all_irqs`, each on what it has read of its register.
  unfoldable pub dispatch_intcon : Handlers P → ℕ → Sfr × P → Sfr × P
  dispatch_intcon h intcon x = when intcon 0x01 h.rb (when intcon 0x04 h.timer0 x)

  unfoldable pub dispatch_pir1 : Handlers P → ℕ → Sfr × P → Sfr × P
  dispatch_pir1 h pir1 x = when pir1 0x80 h.psp (
      when pir1 0x40 h.adc (
        when pir1 0x10 h.usart_tx (
          when pir1 0x20 h.usart_rx (
            when pir1 0x08 h.ssp
              (when pir1 0x04 h.ccp1 (when pir1 0x02 h.timer2 (when pir1 0x01 h.timer1 x)))))))

  unfoldable pub dispatch_pir2 : Handlers P → ℕ → Sfr × P → Sfr × P
  dispatch_pir2 h pir2 x = when pir2 0x40 h.comp (when pir2 0x10 h.eeprom (when pir2 0x01 h.ccp2 x))

  -- `epic_dispatch_all_irqs`
  unfoldable pub dispatch_all_irqs : Handlers P → Sfr × P → Sfr × P
  dispatch_all_irqs h x =
      let after_intcon = dispatch_intcon h (x.0 reg_intcon) x in
      let after_pir1 = dispatch_pir1 h (after_intcon.0 reg_pir1) after_intcon in
      dispatch_pir2 h (after_pir1.0 reg_pir2) after_pir1
