-- ===== src/Pic16/Timer1.antt =====
-- pic16f87xa-hal/src/peripherals/pic16f87xa_timer1.c
use pic8_hal.Common.{
  ℕ, zero, suc, ◌+◌, ◌*◌, ◌/◌, bit_and, bit_or, Bool, Option, none, some, List, [], ◌∷◌, ltb, ◌==◌,
  if◌then◌else◌, get_or, u8,
}
use pic8_hal.Pic16.{Sfr, poke, bit_clr}
use pic8_hal.Pic16.Irq.{enable, disable_src, clear_flag, get_flag}

abbrev pub reg_tmr1l : ℕ
reg_tmr1l = 0x0E

abbrev pub reg_tmr1h : ℕ
reg_tmr1h = 0x0F

abbrev pub reg_t1con : ℕ
reg_t1con = 0x10

abbrev pub irq_tmr1 : ℕ
irq_tmr1 = 3

-- TIMER1_HandleTypeDef; of the callback, whether there is one.
pub record Handle : Type 0 where
  pub clock_source : ℕ
  pub clock_sync : ℕ
  pub oscillator : ℕ
  pub prescaler : ℕ
  pub reload_value : ℕ
  pub has_callback : Bool

abbrev pub ps_ratio : List ℕ
ps_ratio = 1 ∷ 2 ∷ 4 ∷ 8 ∷ []

-- A counter of two registers that is read while it runs: the register file at the read with the number
-- `k` is `reads k`. The loop takes three reads a round; `none` is that the fuel for its rounds is used up.
unfoldable pub read_pair : (hi lo : ℕ) → ℕ → (ℕ → Sfr) → ℕ → Option ℕ
read_pair hi lo zero reads k = none
read_pair hi lo (suc fuel) reads k =
    let hi1 = reads k hi in
    let low = reads (k + 1) lo in
    let hi2 = reads (k + 2) hi in
    let rest = read_pair hi lo fuel reads (k + 3) in
    if hi1 == hi2 then some (bit_or (hi2 * 256) low) else rest

-- EPIC_TIMER1_ReadCounter
unfoldable pub read_counter : ℕ → (ℕ → Sfr) → Option ℕ
read_counter fuel reads = read_pair reg_tmr1h reg_tmr1l fuel reads 0

-- EPIC_TIMER1_WriteCounter
unfoldable pub write_counter : Sfr → ℕ → Sfr
write_counter s value = poke (poke s reg_tmr1h (value / 256)) reg_tmr1l (bit_and value 255)

-- EPIC_TIMER1_PrescalerToRatio
unfoldable pub prescaler_to_ratio : ℕ → ℕ
prescaler_to_ratio p = if ltb 3 p then 1 else get_or ps_ratio p 1

-- EPIC_TIMER1_Init
unfoldable pub init : Sfr → Handle → Sfr
init s h =
    let cleared = clear_flag (bit_clr s reg_t1con 0x01) irq_tmr1 in
    if h.has_callback then enable cleared irq_tmr1 else disable_src cleared irq_tmr1

-- EPIC_TIMER1_DeInit
unfoldable pub deinit : Sfr → Sfr
deinit s =
    let off = poke (clear_flag (disable_src s irq_tmr1) irq_tmr1) reg_t1con 0 in
    poke (poke off reg_tmr1h 0) reg_tmr1l 0

-- The value of T1CON for a handle.
abbrev pub t1con_of : Handle → ℕ
t1con_of h =
    let v = u8 (bit_and h.prescaler 3 * 16) in
    let with_osc = if h.oscillator == 1 then bit_or v 0x08 else v in
    let with_sync = if h.clock_sync == 1 then bit_or with_osc 0x04 else with_osc in
    let with_source = if h.clock_source == 1 then bit_or with_sync 0x02 else with_sync in
    bit_or with_source 0x01

-- EPIC_TIMER1_Start
unfoldable pub start : Sfr → Handle → Sfr
start s h = poke (write_counter s h.reload_value) reg_t1con (t1con_of h)

-- EPIC_TIMER1_Stop
unfoldable pub stop : Sfr → Sfr
stop s = bit_clr s reg_t1con 0x01

module _ {P : Type 0} (callback : P → P) where
  -- TIMER1_IRQHandler, with the callback of the handle.
  unfoldable pub irq_handler : Sfr × P → Sfr × P
  irq_handler (s, p) = if get_flag s irq_tmr1 then (clear_flag s irq_tmr1, callback p) else (s, p)
