-- ===== src/Pic16/Clobber.antt =====
-- What the EEPROM driver does to the interrupt flags in the host build, where the registers of all banks are
-- one array and the driver addresses those of bank 2 by their low bits.
use native.Mathlib.Nat.{mod-eq_of_lt}
use pic8_hal.Common.{ℕ, ◌<◌, ◌≡◌, ap}
use pic8_hal.Pic16.{Sfr, bit_test, select_bank, write_banked}
use pic8_hal.Pic16.Irq.{get_flag}
use pic8_hal.Pic16.Eeprom.{b2_write, b3_write, b2_read, read_byte, is_write_complete}

-- In the host build EPIC_EEPROM_ReadByte returns the byte of the memory, but afterwards the interrupt flag of
-- Timer2 is bit 1 of that byte, and EPIC_EEPROM_IsWriteComplete returns bit 4 of the address.
pub read_byte-flags :
    (memory : ℕ → ℕ) (s : Sfr) (addr : ℕ)
    → memory addr < 256
    → addr < 256
    → let (byte, s') = read_byte memory s addr in
      (byte ≡ memory addr)
      × (get_flag s' 4 ≡ bit_test (memory addr) 2)
      × (is_write_complete s' ≡ bit_test addr 16)
unfolding read_byte b2_write b3_write b2_read write_banked select_bank get_flag is_write_complete
read_byte-flags memory s addr byte small =
    let same = mod-eq_of_lt byte in
    (same, ap (λ v. bit_test v 2) same, ap (λ v. bit_test v 16) (mod-eq_of_lt small))
