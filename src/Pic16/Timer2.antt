-- ===== src/Pic16/Timer2.antt =====
-- pic16f87xa-hal/src/peripherals/pic16f87xa_timer2.c
use pic8_hal.Common.{ℕ, ◌*◌, bit_and, bit_or, Bool, List, [], ◌∷◌, ltb, if◌then◌else◌, get_or, u8}
use pic8_hal.Pic16.{Sfr, poke, bit_clr, select_bank, write_banked, current_bank}
use pic8_hal.Pic16.Irq.{enable, disable_src, clear_flag, get_flag}

abbrev pub reg_tmr2 : ℕ
reg_tmr2 = 0x11

abbrev pub reg_t2con : ℕ
reg_t2con = 0x12

abbrev pub reg_pr2 : ℕ
reg_pr2 = 0x92

abbrev pub t2con_tmr2on : ℕ
t2con_tmr2on = 0x04

abbrev pub irq_tmr2 : ℕ
irq_tmr2 = 4

-- TIMER2_HandleTypeDef; of the callback, whether there is one.
pub record Handle : Type 0 where
  pub prescaler : ℕ
  pub postscaler : ℕ
  pub period : ℕ
  pub has_callback : Bool

abbrev pub pre_ratio : List ℕ
pre_ratio = 1 ∷ 4 ∷ 16 ∷ 16 ∷ []

-- EPIC_TIMER2_PrescalerToRatio and EPIC_TIMER2_PostscalerToRatio
unfoldable pub prescaler_to_ratio : ℕ → ℕ
prescaler_to_ratio p = if ltb 3 p then 1 else get_or pre_ratio p 1

abbrev pub post_ratio : List ℕ
post_ratio = 1 ∷ 2 ∷ 3 ∷ 4 ∷ 5 ∷ 6 ∷ 7 ∷ 8 ∷ 9 ∷ 10 ∷ 11 ∷ 12 ∷ 13 ∷ 14 ∷ 15 ∷ 16 ∷ []

unfoldable pub postscaler_to_ratio : ℕ → ℕ
postscaler_to_ratio p = if ltb 15 p then 1 else get_or post_ratio p 1

-- EPIC_TIMER2_ReadCounter and EPIC_TIMER2_WriteCounter
unfoldable pub read_counter : Sfr → ℕ
read_counter s = s reg_tmr2

unfoldable pub write_counter : Sfr → ℕ → Sfr
write_counter s value = poke s reg_tmr2 value

-- EPIC_TIMER2_ReadPeriod: the value, and the registers.
unfoldable pub read_period : Sfr → ℕ × Sfr
read_period s =
    let banked = select_bank s 1 in (banked reg_pr2, select_bank banked (current_bank s))

-- EPIC_TIMER2_WritePeriod
unfoldable pub write_period : Sfr → ℕ → Sfr
write_period s period = write_banked s 1 reg_pr2 period

-- EPIC_TIMER2_Init
unfoldable pub init : Sfr → Handle → Sfr
init s h =
    let cleared = clear_flag (bit_clr s reg_t2con t2con_tmr2on) irq_tmr2 in
    if h.has_callback then enable cleared irq_tmr2 else disable_src cleared irq_tmr2

-- EPIC_TIMER2_DeInit
unfoldable pub deinit : Sfr → Sfr
deinit s = write_period (poke (clear_flag (disable_src s irq_tmr2) irq_tmr2) reg_t2con 0) 0xFF

-- The value of T2CON for a handle.
abbrev pub t2con_of : Handle → ℕ
t2con_of h =
    bit_or (bit_or (u8 (bit_and h.postscaler 15 * 8)) t2con_tmr2on) (u8 (bit_and h.prescaler 3))

-- EPIC_TIMER2_Start
unfoldable pub start : Sfr → Handle → Sfr
start s h = poke (write_period s h.period) reg_t2con (t2con_of h)

-- EPIC_TIMER2_Stop
unfoldable pub stop : Sfr → Sfr
stop s = bit_clr s reg_t2con t2con_tmr2on

module _ {P : Type 0} (callback : P → P) where
  -- TIMER2_IRQHandler, with the callback of the handle.
  unfoldable pub irq_handler : Sfr × P → Sfr × P
  irq_handler (s, p) = if get_flag s irq_tmr2 then (clear_flag s irq_tmr2, callback p) else (s, p)
