-- ===== src/Pic16/Ccp.antt =====
-- pic16f87xa-hal/src/peripherals/pic16f87xa_ccp.c
use pic8_hal.Common.{
  ℕ, ◌*◌, ◌/◌, bit_and, bit_or, Bool, not, ◌||◌, Option, none, some, ◌==◌, if◌then◌else◌, u8,
}
use pic8_hal.Pic16.{Sfr, poke, bit_clr}
use pic8_hal.Pic16.Irq.{reg_pir1, reg_pir2, enable, disable_src, clear_flag}
use pic8_hal.Pic16.Timer1.{read_pair}

-- CCP_HandleTypeDef with its CCP_PWMConfigTypeDef; of the callback, whether there is one.
pub record Handle : Type 0 where
  pub instance_number : ℕ
  pub mode : ℕ
  pub compare_value : ℕ
  pub pwm_period : ℕ
  pub pwm_duty : ℕ
  pub has_callback : Bool

-- ccp_addrs_t
pub record Addrs : Type 0 where
  pub cprl : ℕ
  pub cprh : ℕ
  pub con : ℕ
  pub irq : ℕ

-- The two rows of `addrs`.
abbrev pub addrs_1 : Addrs
addrs_1 = record { cprl = 0x15; cprh = 0x16; con = 0x17; irq = 5 }

abbrev pub addrs_2 : Addrs
addrs_2 = record { cprl = 0x1B; cprh = 0x1C; con = 0x1D; irq = 6 }

unfoldable pub ccp_sel : ℕ → Addrs
ccp_sel inst = if inst == 2 then addrs_2 else addrs_1

-- The instance is one of the two.
abbrev pub is_instance : ℕ → Bool
is_instance inst = inst == 1 || inst == 2

abbrev pub mode_pwm : ℕ
mode_pwm = 0xC

-- EPIC_CCP_Init; `none` is EPIC_INVALID, with nothing changed.
unfoldable pub init : Sfr → Handle → Option Sfr
init s h =
    let a = ccp_sel h.instance_number in
    let cleared = clear_flag s a.irq in
    let armed = if h.has_callback then enable cleared a.irq else disable_src cleared a.irq in
    let duty = bit_and h.pwm_duty 0x3FF in
    let con = bit_or (u8 (bit_and h.mode 0x0F)) (u8 (bit_and duty 3 * 16)) in
    let pwm = poke (poke (poke armed a.cprl (duty / 4)) a.cprh 0) a.con con in
    let compare =
      poke (poke (poke armed a.cprl (bit_and h.compare_value 255)) a.cprh (h.compare_value / 256))
        a.con (bit_and h.mode 0x0F) in
    if not (is_instance h.instance_number)
    then none
    else if h.mode == mode_pwm
    then some pwm
    else some compare

-- EPIC_CCP_DeInit
unfoldable pub deinit : Sfr → ℕ → Option Sfr
deinit s inst =
    let a = ccp_sel inst in
    if not (is_instance inst)
    then none
    else some (poke (clear_flag (disable_src s a.irq) a.irq) a.con 0)

-- EPIC_CCP_SetCompare
unfoldable pub set_compare : Sfr → ℕ → ℕ → Sfr
set_compare s inst value =
    let a = ccp_sel inst in
    if not (is_instance inst)
    then s
    else poke (poke s a.cprh (value / 256)) a.cprl (bit_and value 255)

-- EPIC_CCP_SetMode
unfoldable pub set_mode : Sfr → ℕ → ℕ → Sfr
set_mode s inst mode =
    if not (is_instance inst) then s else poke s (ccp_sel inst).con (bit_and mode 0x0F)

-- EPIC_CCP_GetCapture, with the register files at its reads and fuel for its rounds.
unfoldable pub get_capture : ℕ → (ℕ → Sfr) → ℕ → Option ℕ
get_capture fuel reads inst =
    let a = ccp_sel inst in
    if not (is_instance inst) then some 0 else read_pair a.cprh a.cprl fuel reads 0

-- EPIC_CCP_SetPWMDuty
unfoldable pub set_pwm_duty : Sfr → ℕ → ℕ → Sfr
set_pwm_duty s inst duty =
    let a = ccp_sel inst in
    let duty' = bit_and duty 0x3FF in
    let con = bit_or (bit_and (s a.con) 0xCF) (u8 (bit_and duty' 3 * 16)) in
    if not (is_instance inst) then s else poke (poke s a.con con) a.cprl (duty' / 4)

module _ {P : Type 0} (callback : P → P) where
  -- CCP1_IRQHandler and CCP2_IRQHandler, with the callback of the handle.
  unfoldable pub irq_handler_1 : Sfr × P → Sfr × P
  irq_handler_1 (s, p) = (bit_clr s reg_pir1 0x04, callback p)

  unfoldable pub irq_handler_2 : Sfr × P → Sfr × P
  irq_handler_2 (s, p) = (bit_clr s reg_pir2 0x01, callback p)
