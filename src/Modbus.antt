-- ===== src/Modbus.antt =====
-- epic-modbus/src/epic_modbus.c: a Modbus RTU slave. Here its checksum, the access to bits and
-- words, and its state; the answer to a request is in Modbus/Requests, the rest in Modbus/Slave.
pub mod Requests
pub mod Slave
mod Bits
mod Words
mod Tables
mod Answers
mod Tests
use pic8_hal.Common.{
  ℕ, ◌+◌, ◌-◌, ◌*◌, ◌/◌, ◌^◌, bit_and, bit_or, bit_xor, Bool, not, Option, List, [], ◌∷◌, ltb, ◌==◌,
  if◌then◌else◌, set, get_or, take, u8, u16, u32,
}
use pic8_hal.Settings.{repeated}

abbrev pub max_adu : ℕ
max_adu = 64

-- `epic_modbus_slave_map_t`: a table is `none` where its pointer is NULL.
pub record SlaveMap : Type 0 where
  pub coils : Option (List ℕ)
  pub num_coils : ℕ
  pub discrete_inputs : Option (List ℕ)
  pub num_discrete_inputs : ℕ
  pub holding_regs : Option (List ℕ)
  pub num_holding_regs : ℕ
  pub input_regs : Option (List ℕ)
  pub num_input_regs : ℕ

-- The statics of the module.
pub record State : Type 0 where
  pub frame : List ℕ
  pub frame_len : ℕ
  pub last_rx_tick : ℕ
  pub slave_addr : ℕ
  pub slave_map : SlaveMap
  pub t3_5_ms : ℕ
  pub dir_port : ℕ
  pub dir_pin : ℕ
  pub dir_configured : Bool

-- One round of the loop over bits.
unfoldable pub crc_bit : ℕ → ℕ
crc_bit crc = if not (bit_and crc 1 == 0) then u16 (bit_xor (crc / 2) 0xa001) else u16 (crc / 2)

unfoldable pub crc16_from : ℕ → List ℕ → ℕ
crc16_from crc [] = crc
crc16_from crc (byte ∷ bytes) = crc16_from (repeated 8 crc_bit (u16 (bit_xor crc byte))) bytes

unfoldable pub modbus_crc16 : List ℕ → ℕ → ℕ
modbus_crc16 buf len = crc16_from 0xffff (take len buf)

-- The divisor is not 0 where the function is called as documented.
unfoldable pub compute_t3_5_ms : ℕ → ℕ
compute_t3_5_ms baud = if ltb 19200 baud then 2 else u32 ((38500 + baud - 1) / baud)

-- The shifts by `idx >> 3` and by `idx & 7u` as arithmetic.
unfoldable pub bit_get : List ℕ → ℕ → Bool
bit_get arr idx = not (bit_and (get_or arr (idx / 8) 0 / 2 ^ bit_and idx 7) 1 == 0)

unfoldable pub bit_set : List ℕ → ℕ → Bool → List ℕ
bit_set arr idx v =
    if v
    then set arr (idx / 8) (u8 (bit_or (get_or arr (idx / 8) 0) (u8 (2 ^ bit_and idx 7))))
    else set arr (idx / 8) (u8 (bit_and (get_or arr (idx / 8) 0) (255 - u8 (2 ^ bit_and idx 7))))

unfoldable pub be16 : List ℕ → ℕ → ℕ
be16 buf at = u16 (bit_or (get_or buf at 0 * 256) (get_or buf (at + 1) 0))

-- The two bytes of `put_be16`.
abbrev pub put_be16 : ℕ → List ℕ
put_be16 v = u8 (v / 256) ∷ u8 v ∷ []
