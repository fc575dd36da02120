-- ===== src/Tick/Overflow.antt =====
-- What an interrupt of Timer2, and one of anything else, does to the timebase.
use pic8_hal.Common.{
  ℕ, ◌-◌, bit_and, ◌≡◌, refl, sym, ap, ◌∙◌, inl, inr, Bool, false, arith, if◌then◌else◌, Bool-cases,
  u8,
}
use pic8_hal.Pic16.{Sfr, bit_test}
use pic8_hal.Pic16.Irq.{get_flag, clear_flag}
use pic8_hal.Pic16.IrqLines.{enable-lines}
use pic8_hal.Pic16.Timer2
use pic8_hal.Pic16.Dispatch.{
  Handlers, when, dispatch_intcon, dispatch_pir1, dispatch_pir2, dispatch_all_irqs,
}
use pic8_hal.Tick.Timebase.{on_overflow, with_tick}

-- What the timebase stands on: T2CON, PR2, TMR2, the flag of Timer2, and the count.
pub record Base : Type 0 where
  pub t2con : ℕ
  pub pr2 : ℕ
  pub tmr2 : ℕ
  pub flag : Bool
  pub tick_ms : ℕ

abbrev pub base : Sfr × ℕ → Base
base (s, tick_ms) = record {
  t2con = s 0x12;
  pr2 = s 0x92;
  tmr2 = s 0x11;
  flag = get_flag s 4;
  tick_ms = tick_ms;
}

-- A handler that leaves the timebase alone.
abbrev pub Inert : (Sfr × ℕ → Sfr × ℕ) → Type 0
Inert f = (x : Sfr × ℕ) → base (f x) ≡ base x

-- The handlers of the other drivers leave it alone.
pub record OthersInert (h : Handlers ℕ) : Type 0 where
  pub timer0_lem : Inert h.timer0
  pub rb_lem : Inert h.rb
  pub timer1_lem : Inert h.timer1
  pub ccp1_lem : Inert h.ccp1
  pub ssp_lem : Inert h.ssp
  pub usart_rx_lem : Inert h.usart_rx
  pub usart_tx_lem : Inert h.usart_tx
  pub adc_lem : Inert h.adc
  pub psp_lem : Inert h.psp
  pub ccp2_lem : Inert h.ccp2
  pub eeprom_lem : Inert h.eeprom
  pub comp_lem : Inert h.comp

when-Inert : (reg mask : ℕ) (f : Sfr × ℕ → Sfr × ℕ) → Inert f → Inert (when reg mask f)
when-Inert reg mask f inert x = elim (Bool-cases (bit_test reg mask)) [
  | inl e ↦ rw e (inert x)
  | inr e ↦ rw e refl
]

-- The timebase behind an interrupt: the flag is clear, and an overflow has been counted.
abbrev pub served : Base → Base
served b = record b { flag = false; tick_ms = if b.flag then on_overflow b.tick_ms else b.tick_ms }

irq_handler-base : (x : Sfr × ℕ) → base (Timer2.irq_handler on_overflow x) ≡ served (base x)
unfolding Timer2.irq_handler clear_flag get_flag
irq_handler-base (s, p) = elim (Bool-cases (bit_test (s 0x0C) 2)) [
  | inl e ↦
      let cleared : bit_test (u8 (bit_and (s 0x0C) (255 - 2))) 2 ≡ false =
        (enable-lines s 4 4 (omega arith) (omega arith)).0 in
      rw (e, cleared) refl
  | inr e ↦ rw e (ap (λ flag. record (base (s, p)) { flag = flag }) e)
]

served-clear_of :
    (t2con pr2 tmr2 : ℕ) (flag : Bool) (tick_ms : ℕ)
    → flag ≡ false
    → served (record { t2con = t2con; pr2 = pr2; tmr2 = tmr2; flag = flag; tick_ms = tick_ms })
      ≡ record { t2con = t2con; pr2 = pr2; tmr2 = tmr2; flag = flag; tick_ms = tick_ms }
served-clear_of t2con pr2 tmr2 flag tick_ms e = rw e refl

pub served-clear : (b : Base) → b.flag ≡ false → served b ≡ b
served-clear b = served-clear_of b.t2con b.pr2 b.tmr2 b.flag b.tick_ms

intcon-Inert :
    (h : Handlers ℕ) → OthersInert h → (intcon : ℕ) → Inert (dispatch_intcon (with_tick h) intcon)
unfolding dispatch_intcon
intcon-Inert h inert intcon x =
    when-Inert intcon 1 h.rb inert.rb_lem (when intcon 4 h.timer0 x)
    ∙ when-Inert intcon 4 h.timer0 inert.timer0_lem x

pir2-Inert :
    (h : Handlers ℕ) → OthersInert h → (pir2 : ℕ) → Inert (dispatch_pir2 (with_tick h) pir2)
unfolding dispatch_pir2
pir2-Inert h inert pir2 x =
    when-Inert pir2 0x40 h.comp inert.comp_lem (when pir2 0x10 h.eeprom (when pir2 1 h.ccp2 x))
    ∙ when-Inert pir2 0x10 h.eeprom inert.eeprom_lem (when pir2 1 h.ccp2 x)
    ∙ when-Inert pir2 1 h.ccp2 inert.ccp2_lem x

-- The handlers behind that of Timer2 in `dispatch_pir1`.
abbrev behind : Handlers ℕ → ℕ → Sfr × ℕ → Sfr × ℕ
behind h pir1 x = when pir1 0x80 h.psp (
    when pir1 0x40 h.adc (
      when pir1 0x10 h.usart_tx
        (when pir1 0x20 h.usart_rx (when pir1 0x08 h.ssp (when pir1 0x04 h.ccp1 x)))))

after-Inert :
    (reg mask : ℕ) (f g : Sfr × ℕ → Sfr × ℕ)
    → Inert f
    → Inert g
    → Inert (λ x. when reg mask g (f x))
after-Inert reg mask f g f_lem g_lem x = when-Inert reg mask g g_lem (f x) ∙ f_lem x

behind-Inert : (h : Handlers ℕ) → OthersInert h → (pir1 : ℕ) → Inert (behind h pir1)
behind-Inert h inert pir1 =
    after-Inert pir1 0x80 _ h.psp
      (after-Inert pir1 0x40 _ h.adc
        (after-Inert pir1 0x10 _ h.usart_tx
          (after-Inert pir1 0x20 _ h.usart_rx
            (after-Inert pir1 0x08 _ h.ssp (when-Inert pir1 0x04 h.ccp1 inert.ccp1_lem)
              inert.ssp_lem)
            inert.usart_rx_lem)
          inert.usart_tx_lem)
        inert.adc_lem)
      inert.psp_lem

pir1-base :
    (h : Handlers ℕ)
    → OthersInert h
    → (pir1 : ℕ) (x : Sfr × ℕ) → bit_test pir1 2 ≡ (base x).flag
    → base (dispatch_pir1 (with_tick h) pir1 x) ≡ served (base x)
unfolding dispatch_pir1
pir1-base h inert pir1 x read =
    let before : base (when pir1 1 h.timer1 x) ≡ base x =
      when-Inert pir1 1 h.timer1 inert.timer1_lem x in
    behind-Inert h inert pir1
      (when pir1 2 (Timer2.irq_handler on_overflow) (when pir1 1 h.timer1 x))
    ∙ elim (Bool-cases (bit_test pir1 2)) [
      | inl e ↦ rw e (irq_handler-base (when pir1 1 h.timer1 x) ∙ ap served before)
      | inr e ↦ rw e (before ∙ sym (served-clear (base x) (sym read ∙ e)))
    ]

flag_lem : (x : Sfr × ℕ) → bit_test (x.0 0x0C) 2 ≡ (base x).flag
unfolding get_flag
flag_lem x = refl

-- A dispatch serves Timer2, whatever else it serves.
pub dispatch-base :
    (h : Handlers ℕ)
    → OthersInert h
    → (x : Sfr × ℕ) → base (dispatch_all_irqs (with_tick h) x) ≡ served (base x)
unfolding dispatch_all_irqs
dispatch-base h inert x =
    let a = dispatch_intcon (with_tick h) (x.0 0x0B) x in
    let b = dispatch_pir1 (with_tick h) (a.0 0x0C) a in
    pir2-Inert h inert (b.0 0x0D) b
    ∙ pir1-base h inert (a.0 0x0C) a (flag_lem a)
    ∙ ap served (intcon-Inert h inert (x.0 0x0B) x)
