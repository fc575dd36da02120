-- ===== src/Pic16.antt =====
-- pic16f87xa-hal: the register file of the host build, which is a flat array of bytes, and the macros
-- that read and change it (include/host/pic16f87xa_platform.h, include/pic16f87xa_sfr.h and
-- epic-common/include/core/hal_status.h). The drivers are the children.
pub mod Location
pub mod Irq
pub mod IrqTable
pub mod IrqLines
pub mod Timer1
pub mod Moving
pub mod Ccp
mod Duty
pub mod Gpio
pub mod Eeprom
mod Clobber
pub mod SimPins
mod Pins
pub mod Timer2
pub mod Dispatch
pub mod Sim
mod Tests
use pic8_hal.Common.{ℕ, ◌-◌, ◌*◌, ◌/◌, bit_and, bit_or, Bool, not, ◌==◌, if◌then◌else◌, u8}

-- pic16f87xa_sim_sfr: EPIC_REG8(a) is `s a`.
abbrev pub Sfr : Type 0
Sfr = ℕ → ℕ

-- An assignment to EPIC_REG8(a).
abbrev pub poke : Sfr → ℕ → ℕ → Sfr
poke s a v b = if b == a then u8 v else s b

-- EPIC_BIT_SET and EPIC_BIT_CLR on a register, for a mask of one byte.
abbrev pub bit_set : Sfr → ℕ → ℕ → Sfr
bit_set s a mask = poke s a (bit_or (s a) mask)

abbrev pub bit_clr : Sfr → ℕ → ℕ → Sfr
bit_clr s a mask = poke s a (bit_and (s a) (255 - mask))

-- `(reg & mask) != 0`
abbrev pub bit_test : ℕ → ℕ → Bool
bit_test v mask = not (bit_and v mask == 0)

abbrev pub reg_status : ℕ
reg_status = 0x03

-- `(EPIC_REG8(PIC_REG_STATUS) >> 5) & 0x03U`
abbrev pub current_bank : Sfr → ℕ
current_bank s = bit_and (s reg_status / 32) 3

unfoldable pub select_bank : Sfr → ℕ → Sfr
select_bank s bank =
    poke s reg_status (bit_or (bit_and (s reg_status) (255 - 96)) (u8 (bit_and bank 3 * 32)))

-- A write to a register of another bank, as the drivers do it.
unfoldable pub write_banked : Sfr → ℕ → ℕ → ℕ → Sfr
write_banked s bank a v = select_bank (poke (select_bank s bank) a v) (current_bank s)
