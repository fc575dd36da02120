-- ===== src/Settings/Host.antt =====
-- The host build of epic-settings for the PIC16F87XA: the driver of Pic16/Eeprom over the simulator's
-- array for the memory, and `settings_sim_complete` of epic-settings/src/epic_settings.c.
use native.Mathlib.Nat.{mod-eq_of_lt}
use pic8_hal.Common.{
  ℕ, zero, suc, ◌<◌, bit_or, ◌≡◌, refl, Bool, true, false, Option, none, some, ◌==◌, if◌then◌else◌,
  u8,
}
use pic8_hal.Common.Digits.{every, every_lem}
use pic8_hal.Pic16.{Sfr, bit_set, bit_test, select_bank, write_banked}
use pic8_hal.Pic16.Irq.{clear_flag}
use pic8_hal.Pic16.Eeprom
use pic8_hal.Settings.{Driver, wait_complete}

-- The registers, and the 256 bytes of `sim_eeprom`.
abbrev pub Device : Type 0
Device = Sfr × (ℕ → ℕ)

-- `pic16f87xa_sim_drive_eeprom_byte`
abbrev pub drive_eeprom_byte : (ℕ → ℕ) → ℕ → ℕ → ℕ → ℕ
drive_eeprom_byte memory addr byte a = if a == addr then byte else memory a

unfoldable pub sim_complete : Device → ℕ → ℕ → Device
sim_complete (s, memory) addr byte = (bit_set s 0x0D 0x10, drive_eeprom_byte memory addr byte)

unfoldable pub write_byte : Device → ℕ → ℕ → Option Device
write_byte (s, memory) addr byte = elim (Eeprom.write_byte s addr byte) [
  | none ↦ none
  | some s' ↦ some (s', memory)
]

unfoldable pub read_byte : Device → ℕ → ℕ × Device
read_byte (s, memory) addr = let (byte, s') = Eeprom.read_byte memory s addr in (byte, (s', memory))

unfoldable pub is_write_complete : Device → Bool
is_write_complete d = Eeprom.is_write_complete d.0

unfoldable pub clear_it_flag : Device → Device
clear_it_flag d = (Eeprom.clear_it_flag d.0, d.1)

-- The driver, for any tick of the harness.
abbrev pub host : (Device → Device) → Driver Device
host tick = record {
  write_byte = write_byte;
  read_byte = read_byte;
  is_write_complete = is_write_complete;
  clear_it_flag = clear_it_flag;
  sim_complete = sim_complete;
  harness_tick = tick;
}

-- EECON1 has no write error.
abbrev pub NoError : Device → Type 0
NoError d = bit_test (d.0 0x18C) 0x08 ≡ false

-- The registers after a write that is started.
abbrev started : Sfr → ℕ → ℕ → Sfr
started s addr byte =
    let s2 = Eeprom.b2_write (Eeprom.b2_write (Eeprom.b3_read s 0x18C).1 0x0C byte) 0x0D addr in
    let s4 = Eeprom.b3_write (Eeprom.b3_write s2 0x18C 0x00) 0x18C 0x04 in
    let s6 = Eeprom.b3_write (Eeprom.b3_write s4 0x18D 0x55) 0x18D 0xAA in
    Eeprom.b3_write s6 0x18C (bit_or 0x04 0x02)

pub write_byte-started :
    (s : Sfr) (memory : ℕ → ℕ) (addr byte : ℕ)
    → NoError (s, memory)
    → (s' : Sfr) × (write_byte (s, memory) addr byte ≡ some (s', memory))
      × (s' 0x0D ≡ u8 addr)
      × (s' 0x18C ≡ 6)
unfolding write_byte Eeprom.write_byte Eeprom.b2_write Eeprom.b3_write Eeprom.b3_read write_banked
    select_bank
write_byte-started s memory addr byte e =
    (started s addr byte, rw (write_byte, Eeprom.write_byte, e) refl, refl, refl)

completes : every 256 (λ addr. bit_test (u8 (bit_or (u8 addr) 0x10)) 0x10) ≡ true
completes = refl

pub sim_complete_done :
    (s : Sfr) (memory : ℕ → ℕ) (addr byte : ℕ)
    → addr < 256
    → s 0x0D ≡ u8 addr
    → is_write_complete (sim_complete (s, memory) addr byte) ≡ true
unfolding is_write_complete sim_complete Eeprom.is_write_complete
sim_complete_done s memory addr byte h at =
    rw at (every_lem 256 addr (λ a. bit_test (u8 (bit_or (u8 a) 0x10)) 0x10) completes h)

pub clear_it_flag-NoError :
    (s : Sfr) (memory : ℕ → ℕ) (addr byte : ℕ)
    → s 0x18C ≡ 6
    → NoError (clear_it_flag (sim_complete (s, memory) addr byte))
unfolding clear_it_flag sim_complete Eeprom.clear_it_flag clear_flag
clear_it_flag-NoError s memory addr byte e = rw e refl

-- A wait that is over at once, whatever the fuel.
pub wait_complete-done :
    (tick : Device → Device) (fuel : ℕ) (d : Device)
    → is_write_complete d ≡ true
    → wait_complete (host tick) fuel d ≡ some d
unfolding wait_complete
wait_complete-done tick zero d e = rw e refl
wait_complete-done tick (suc fuel) d e = rw e refl

-- The byte that is read, and that the memory is as before.
pub read_byte-memory :
    (s : Sfr) (memory : ℕ → ℕ) (addr : ℕ)
    → memory addr < 256
    → ((read_byte (s, memory) addr).0 ≡ memory addr) × ((read_byte (s, memory) addr).1.1 ≡ memory)
unfolding read_byte Eeprom.read_byte Eeprom.b2_write Eeprom.b3_write Eeprom.b2_read write_banked
    select_bank
read_byte-memory s memory addr byte = (mod-eq_of_lt byte, refl)
