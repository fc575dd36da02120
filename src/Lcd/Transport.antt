-- ===== src/Lcd/Transport.antt =====
-- epic-lcd/src/epic_lcd_gpio4.c, epic_lcd_gpio8.c and epic_lcd_spi.c: how a byte reaches the
-- display. The calls of EPIC_GPIO_WritePin and EPIC_SSP_WriteByte are listed in order; a pin is named
-- by its field of the pin structure.
use pic8_hal.Common.{
  ℕ, ◌/◌, ◌^◌, bit_and, bit_or, Bool, true, false, not, Option, none, some, List, [], ◌∷◌, ◌++◌,
  leb, ◌==◌, if◌then◌else◌, u8,
}

pub data Pin : Type 0 where
  rs e db0 db1 db2 db3 db4 db5 db6 db7 : Pin

-- `(byte & mask) ? GPIO_PIN_SET : GPIO_PIN_RESET`
abbrev pub level : ℕ → ℕ → Bool
level byte mask = not (bit_and byte mask == 0)

-- The four data pins, and the pulse on E, for a nibble.
unfoldable pub gpio4_nibble : ℕ → List (Pin × Bool)
gpio4_nibble nibble =
    (db4, level nibble 0x01)
    ∷ (db5, level nibble 0x02)
    ∷ (db6, level nibble 0x04)
    ∷ (db7, level nibble 0x08)
    ∷ (e, true)
    ∷ (e, false)
    ∷ []

unfoldable pub gpio4_send : ℕ → ℕ → List (Pin × Bool)
gpio4_send reg byte =
    (rs, not (reg == 0)) ∷ (gpio4_nibble (u8 (byte / 16)) ++ gpio4_nibble (u8 (bit_and byte 0x0f)))

unfoldable pub gpio8_send : ℕ → ℕ → List (Pin × Bool)
gpio8_send reg byte =
    (rs, not (reg == 0))
    ∷ (db0, level byte 0x01)
    ∷ (db1, level byte 0x02)
    ∷ (db2, level byte 0x04)
    ∷ (db3, level byte 0x08)
    ∷ (db4, level byte 0x10)
    ∷ (db5, level byte 0x20)
    ∷ (db6, level byte 0x40)
    ∷ (db7, level byte 0x80)
    ∷ (e, true)
    ∷ (e, false)
    ∷ []

-- The delay in microseconds of all three transports, as a delay in milliseconds.
unfoldable pub transport_delay_us : ℕ → Option ℕ
transport_delay_us us = if leb 1000 us then some (us / 1000) else none

-- Which output of the 74HC595 drives which line.
pub record Layout : Type 0 where
  pub rs_bit : ℕ
  pub e_bit : ℕ
  pub db4_bit : ℕ
  pub db5_bit : ℕ
  pub db6_bit : ℕ
  pub db7_bit : ℕ

-- `if (test) b |= (uint8_t)(1u << bit)`
unfoldable pub set_line : Bool → ℕ → ℕ → ℕ
set_line test bit b = if test then u8 (bit_or b (u8 (2 ^ bit))) else b

unfoldable pub make_595_byte : Layout → ℕ → ℕ → Bool → ℕ
make_595_byte l reg nibble e_asserted = set_line (level nibble 0x08) l.db7_bit (
    set_line (level nibble 0x04) l.db6_bit (
      set_line (level nibble 0x02) l.db5_bit (
        set_line (level nibble 0x01) l.db4_bit
          (set_line e_asserted l.e_bit (set_line (not (reg == 0)) l.rs_bit 0)))))

-- A byte shifted out, or a level of the latch pin.
pub data Spi : Type 0 where
  shift : ℕ → Spi
  latch : Bool → Spi

abbrev pub spi_latch : List Spi
spi_latch = latch true ∷ latch false ∷ []

unfoldable pub spi_send_nibble : Layout → ℕ → ℕ → List Spi
spi_send_nibble l reg nibble =
    let base = make_595_byte l reg nibble false in
    shift base ∷ spi_latch
    ++ (shift (u8 (bit_or base (2 ^ l.e_bit))) ∷ spi_latch ++ (shift base ∷ spi_latch))

unfoldable pub spi_send : Layout → ℕ → ℕ → List Spi
spi_send l reg byte =
    spi_send_nibble l reg (u8 (byte / 16)) ++ spi_send_nibble l reg (u8 (bit_and byte 0x0f))

abbrev pub layout_common : Layout
layout_common = record { db4_bit = 0; db5_bit = 1; db6_bit = 2; db7_bit = 3; rs_bit = 4; e_bit = 5 }
