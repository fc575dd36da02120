-- ===== src/Lcd/Tests.antt =====
-- A display of two rows and sixteen columns, and the usual wiring of the shift register.
use pic8_hal.Common.{ℕ, ◌+◌, ◌≡◌, refl, true, false, [], ◌∷◌, arith}
use pic8_hal.Lcd.{Config, init, set_cursor, create_char, glyph_rows}
use pic8_hal.Lcd.Transport.{layout_common, gpio4_send, spi_send_nibble, spi_send}
use pic8_hal.Lcd.Display.{Switches, display, cursor, operate_all, init-operate_all}
use pic8_hal.Lcd.Cursor.{set_cursor-cell}
use pic8_hal.Lcd.Strobes.{Lines, upper, strobes, gpio4_send-strobes}
use pic8_hal.Lcd.Sent.{bytes_sent}
use pic8_hal.Lcd.Shift.{outputs, IsLayout, Shows, spi_send_nibble-Shows}

abbrev sixteen_by_two : Config
sixteen_by_two = record { cols = 16; rows = 2; row_addr = 0 ∷ 0 ∷ 0 ∷ 0 ∷ [] }

abbrev low_lines : Lines
low_lines = record {
  at_rs = false;
  at_e = false;
  at_db0 = false;
  at_db1 = false;
  at_db2 = false;
  at_db3 = false;
  at_db4 = false;
  at_db5 = false;
  at_db6 = false;
  at_db7 = false;
}

abbrev sixteen_by_four : Config
sixteen_by_four = record { cols = 16; rows = 4; row_addr = 0 ∷ 0 ∷ 0 ∷ 0 ∷ [] }

-- The third slot lies at address 16 of the character memory.
third_slot : bytes_sent (create_char 2 (0xff ∷ [])) ≡ (0, 0x50) ∷ (1, 0x1f) ∷ (0, 0x80) ∷ []
unfolding create_char glyph_rows
third_slot = refl

init-operate_all_example :
    let start : Switches = record { shown = true; underlined = false; blinking = false } in
    let (lcd, calls) =
      operate_all (init sixteen_by_two).0 ((cursor, true) ∷ (display, false) ∷ []) in
    (lcd.display_ctrl ≡ 2) × (bytes_sent calls ≡ (0, 14) ∷ (0, 10) ∷ [])
init-operate_all_example = init-operate_all sixteen_by_two ((cursor, true) ∷ (display, false) ∷ [])

-- The third row of a display with 16 columns begins at 0x10, and the cursor goes to 0x14.
set_cursor-cell_example :
    let lcd = (init sixteen_by_four).0 in
    (bytes_sent (set_cursor lcd 3 2) ≡ (0, 0x80 + (0x13 + 4)) ∷ [])
    × (set_cursor lcd 3 2 ≡ set_cursor lcd 40 2 → (◌≡◌ {A = ℕ} 3 15) × (◌≡◌ {A = ℕ} 2 2))
set_cursor-cell_example =
    set_cursor-cell sixteen_by_four 3 2 40 2 refl (omega arith) (omega arith) (omega arith)
      (omega arith)

gpio4_send-strobes_example :
    strobes upper low_lines (gpio4_send 1 0x41) ≡ (true, 4) ∷ (true, 1) ∷ []
gpio4_send-strobes_example = gpio4_send-strobes low_lines 1 0x41 (omega arith)

layout_common-IsLayout : IsLayout layout_common
layout_common-IsLayout = ground arith

spi_send_nibble-Shows_example :
    (before : ℕ) × (during : ℕ) × (outputs false 0 (spi_send layout_common 1 0x91)
      ≡ before ∷ during ∷ before ∷ outputs false before (spi_send_nibble layout_common 1 1))
    × Shows layout_common 1 9 false before
    × Shows layout_common 1 9 true during
unfolding spi_send
spi_send_nibble-Shows_example =
    spi_send_nibble-Shows layout_common 1 9 0 (spi_send_nibble layout_common 1 1)
      layout_common-IsLayout
