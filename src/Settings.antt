-- ===== src/Settings.antt =====
-- epic-settings/src/epic_settings.c: blobs in EEPROM with a CRC-16, over the driver of the EEPROM and the
-- harness of a build. Host fills these for the host build of the PIC16F87XA. An address is a byte.
pub mod Host
pub mod Load
pub mod RoundTrip
mod Tests
use pic8_hal.Common.{
  ℕ, zero, suc, ◌+◌, ◌*◌, ◌/◌, bit_and, bit_or, bit_xor, Bool, true, false, not, Option, none, some,
  List, [], ◌∷◌, ◌==◌, if◌then◌else◌, length, u8, u16,
}

-- What the module calls of the EEPROM driver and of the harness, over the device's state. A write
-- that is refused leaves `none`; a read changes the device. `sim_complete` is `settings_sim_complete`,
-- which only a host build calls.
pub record Driver (D : Type 0) : Type 0 where
  pub write_byte : D → ℕ → ℕ → Option D
  pub read_byte : D → ℕ → ℕ × D
  pub is_write_complete : D → Bool
  pub clear_it_flag : D → D
  pub sim_complete : D → ℕ → ℕ → D
  pub harness_tick : D → D

-- One round of the bit loop of `settings_crc16_update`.
unfoldable pub crc_bit : ℕ → ℕ
crc_bit crc =
    if not (bit_and crc 0x8000 == 0) then u16 (bit_xor (crc * 2) 0x1021) else u16 (crc * 2)

abbrev pub repeated : ℕ → (ℕ → ℕ) → ℕ → ℕ
repeated zero f x = x
repeated (suc n) f x = repeated n f (f x)

unfoldable pub crc16_update : ℕ → ℕ → ℕ
unfolding crc_bit
crc16_update crc byte = repeated 8 crc_bit (u16 (bit_xor crc (byte * 256)))

-- The loop of `settings_crc16` from the value `crc`.
unfoldable pub crc16_from : ℕ → List ℕ → ℕ
crc16_from crc [] = crc
crc16_from crc (byte ∷ bytes) = crc16_from (crc16_update crc byte) bytes

abbrev pub crc16 : List ℕ → ℕ
crc16 bytes = crc16_from 0xffff bytes

module _ {D : Type 0} (driver : Driver D) where
  open driver use {
    write_byte, read_byte, is_write_complete, clear_it_flag, sim_complete, harness_tick,
  }

  -- The wait for the end of a write, with fuel; `none` is that it still waits.
  unfoldable pub wait_complete : ℕ → D → Option D
  wait_complete zero d = if is_write_complete d then some d else none
  wait_complete (suc fuel) d =
      let rest = wait_complete fuel (harness_tick d) in if is_write_complete d then some d else rest

  -- `settings_write_bytes` from address `start` on. The outer `none` is a wait without end; the
  -- Boolean is the result.
  unfoldable pub write_bytes : ℕ → ℕ → List ℕ → D → Option (D × Bool)
  write_bytes fuel start [] d = some (d, true)
  write_bytes fuel start (byte ∷ bytes) d = elim (write_byte d (u8 start) byte) [
    | none ↦ some (d, false)
    | some d' ↦ elim (wait_complete fuel (sim_complete d' (u8 start) byte)) [
      | none ↦ none
      | some d'' ↦ write_bytes fuel (start + 1) bytes (clear_it_flag d'')
    ]
  ]

  unfoldable pub save : ℕ → ℕ → List ℕ → D → Option (D × Bool)
  save fuel eeprom_addr bytes d =
      let crc = crc16 bytes in
      elim (write_bytes fuel eeprom_addr bytes d) [
        | none ↦ none
        | some (d', written) ↦
            let rest =
              write_bytes fuel (u8 (eeprom_addr + length bytes))
                (u8 (crc / 256) ∷ bit_and crc 0xff ∷ []) d' in
            if written then rest else some (d', false)
      ]

  -- The bytes at `addr`, `addr + 1`, … of the loops of `epic_settings_load`.
  unfoldable pub read_bytes : ℕ → ℕ → D → List ℕ × D
  read_bytes addr zero d = ([], d)
  read_bytes addr (suc size) d =
      let (byte, d') = read_byte d (u8 addr) in
      let (bytes, d'') = read_bytes (addr + 1) size d' in (byte ∷ bytes, d'')

  -- What is copied out; `none` is the result false, with `data` as it was.
  unfoldable pub load : ℕ → ℕ → D → Option (List ℕ) × D
  load eeprom_addr size d =
      let (bytes, d1) = read_bytes eeprom_addr size d in
      let (high, d2) = read_byte d1 (u8 (eeprom_addr + size)) in
      let (low, d3) = read_byte d2 (u8 (eeprom_addr + size + 1)) in
      let stored_crc = bit_or (u16 (high * 256)) low in
      let (out, d4) = read_bytes eeprom_addr size d3 in
      if not (stored_crc == crc16 bytes) then (none, d3) else (some out, d4)

  -- The device, what `data` holds, and the result.
  unfoldable pub load_or_default : ℕ → ℕ → List ℕ → D → Option (D × List ℕ × Bool)
  load_or_default fuel eeprom_addr default_data d =
      let (loaded, d') = load eeprom_addr (length default_data) d in
      elim loaded [
        | some bytes ↦ some (d', bytes, true)
        | none ↦ elim (save fuel eeprom_addr default_data d') [
          | none ↦ none
          | some (d'', written) ↦ some (d'', default_data, false)
        ]
      ]
