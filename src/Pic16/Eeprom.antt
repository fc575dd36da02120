-- ===== src/Pic16/Eeprom.antt =====
-- pic16f87xa-hal/src/peripherals/pic16f87xa_eeprom.c in the host build, over the array of
-- src/sim/pic16f87xa_sim.c that stands for the memory. The addresses are those that the driver passes.
use pic8_hal.Common.{
  ℕ, zero, suc, ◌+◌, bit_or, Bool, Option, none, some, List, [], ◌∷◌, if◌then◌else◌, u8,
}
use pic8_hal.Pic16.{Sfr, bit_test, select_bank, write_banked, current_bank}
use pic8_hal.Pic16.Irq.{enable, disable_src, clear_flag, get_flag}

-- `b2_write` and `b3_write`
unfoldable pub b2_write : Sfr → ℕ → ℕ → Sfr
b2_write s addr v = write_banked s 2 addr v

unfoldable pub b3_write : Sfr → ℕ → ℕ → Sfr
b3_write s addr v = write_banked s 3 addr v

-- `b2_read` and `b3_read`: the value, and the registers.
unfoldable pub b2_read : Sfr → ℕ → ℕ × Sfr
b2_read s addr = let banked = select_bank s 2 in (banked addr, select_bank banked (current_bank s))

unfoldable pub b3_read : Sfr → ℕ → ℕ × Sfr
b3_read s addr = let banked = select_bank s 3 in (banked addr, select_bank banked (current_bank s))

-- EPIC_EEPROM_Init, by whether there is a callback.
unfoldable pub init : Sfr → Bool → Sfr
init s has_callback =
    let cleared = clear_flag s 12 in
    if has_callback then enable cleared 12 else disable_src cleared 12

-- EPIC_EEPROM_DeInit
unfoldable pub deinit : Sfr → Sfr
deinit s = clear_flag (disable_src s 12) 12

-- EPIC_EEPROM_ReadByte from the memory `memory`: the value, and the registers.
unfoldable pub read_byte : (ℕ → ℕ) → Sfr → ℕ → ℕ × Sfr
read_byte memory s addr =
    let s1 = b2_write s 0x0D addr in
    let s2 = b3_write s1 0x18C 0 in
    let s3 = b3_write s2 0x18C 1 in b2_read (b2_write s3 0x0C (memory addr)) 0x0C

-- EPIC_EEPROM_WriteByte; `none` is EPIC_ERROR, where the registers are those of the reading.
unfoldable pub write_byte : Sfr → ℕ → ℕ → Option Sfr
write_byte s addr byte =
    let (eecon1, s0) = b3_read s 0x18C in
    let s1 = b2_write s0 0x0C byte in
    let s2 = b2_write s1 0x0D addr in
    let s3 = b3_write s2 0x18C 0x00 in
    let s4 = b3_write s3 0x18C 0x04 in
    let s5 = b3_write s4 0x18D 0x55 in
    let s6 = b3_write s5 0x18D 0xAA in
    if bit_test eecon1 0x08 then none else some (b3_write s6 0x18C (bit_or 0x04 0x02))

-- EPIC_EEPROM_ReadBuffer: the bytes, and the registers.
unfoldable pub read_buffer : (ℕ → ℕ) → Sfr → ℕ → ℕ → List ℕ × Sfr
read_buffer memory s start zero = ([], s)
read_buffer memory s start (suc len) =
    let (byte, s') = read_byte memory s (u8 start) in
    let (bytes, s'') = read_buffer memory s' (start + 1) len in (byte ∷ bytes, s'')

-- EPIC_EEPROM_WriteBuffer
unfoldable pub write_buffer : Sfr → ℕ → List ℕ → Option Sfr
write_buffer s start [] = some s
write_buffer s start (byte ∷ bytes) = elim (write_byte s (u8 start) byte) [
  | none ↦ none
  | some s' ↦ write_buffer s' (start + 1) bytes
]

-- EPIC_EEPROM_IsWriteComplete
unfoldable pub is_write_complete : Sfr → Bool
is_write_complete s = bit_test (s 0x0D) 0x10

-- EPIC_EEPROM_ClearITFlag
unfoldable pub clear_it_flag : Sfr → Sfr
clear_it_flag s = clear_flag s 12

module _ {P : Type 0} (callback : P → P) where
  -- EEPROM_IRQHandler
  unfoldable pub irq_handler : Sfr × P → Sfr × P
  irq_handler (s, p) = if get_flag s 12 then (clear_flag s 12, callback p) else (s, p)
