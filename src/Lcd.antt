-- ===== src/Lcd.antt =====
-- epic-lcd/src/epic_lcd.c: the core of an HD44780 driver. What an operation does to the display is
-- the list of its calls of the transport, in order.
pub mod Transport
mod Display
mod Cursor
mod Strobes
mod Sent
mod Shift
mod Tests
use pic8_hal.Common.{
  ℕ, ◌+◌, ◌*◌, bit_and, bit_or, Bool, List, [], ◌∷◌, ◌++◌, ltb, leb, ◌==◌, if◌then◌else◌, get_or,
  take, u8,
}

-- A call of `ops->send`, `ops->delay_us` or `ops->delay_ms`.
pub data Call : Type 0 where
  send : ℕ → ℕ → Call
  delay_us : ℕ → Call
  delay_ms : ℕ → Call

pub record Config : Type 0 where
  pub cols : ℕ
  pub rows : ℕ
  pub row_addr : List ℕ

pub record Lcd : Type 0 where
  pub cols : ℕ
  pub rows : ℕ
  pub row_addr : List ℕ
  pub display_ctrl : ℕ
  pub entry_mode : ℕ

abbrev pub max_rows : ℕ
max_rows = 4

abbrev pub default_row_addr : List ℕ
default_row_addr = 0x00 ∷ 0x40 ∷ 0x14 ∷ 0x54 ∷ []

-- `send_cmd` and then `cmd_short_wait`, or `cmd_long_wait`.
abbrev pub short_cmd : ℕ → List Call
short_cmd cmd = send 0 cmd ∷ delay_us 40 ∷ []

abbrev pub long_cmd : ℕ → List Call
long_cmd cmd = send 0 cmd ∷ delay_us 1600 ∷ []

-- `send_data` and then `cmd_short_wait`.
abbrev pub short_data : ℕ → List Call
short_data byte = send 1 byte ∷ delay_us 40 ∷ []

-- `CMD_FUNCTION_SET | FS_8BIT | FS_2LINE`
abbrev pub function_set : ℕ
function_set = bit_or (bit_or 0x20 0x10) 0x08

unfoldable pub init : Config → Lcd × List Call
init config = (
  record {
    cols = config.cols;
    rows = config.rows;
    row_addr =
        if get_or config.row_addr 0 0 == 0 then default_row_addr else take max_rows config.row_addr;
    display_ctrl = 0x04;
    entry_mode = 0x02;
  },
  delay_ms 50 ∷ send 0 function_set ∷ delay_us 4500 ∷ []
      ++ (short_cmd function_set
          ++ (short_cmd function_set
              ++ (short_cmd 0x08
                  ++ (long_cmd 0x01
                      ++ (short_cmd (bit_or 0x04 0x02) ++ short_cmd (bit_or 0x08 0x04)))))),
)

unfoldable pub clear : List Call
clear = long_cmd 0x01

unfoldable pub home : List Call
home = long_cmd 0x02

-- A row past the table is read past its end, which the C code leaves undefined: here it reads 0.
unfoldable pub set_cursor : Lcd → ℕ → ℕ → List Call
set_cursor lcd col row =
    let row' = if leb lcd.rows row then u8 (lcd.rows + 255) else row in
    let col' = if leb lcd.cols col then u8 (lcd.cols + 255) else col in
    short_cmd (bit_or 0x80 (u8 (get_or lcd.row_addr row' 0 + col')))

unfoldable pub write_char : ℕ → List Call
write_char c = short_data (u8 c)

-- `epic_lcd_write`, and `epic_lcd_print` on the characters before the terminator.
unfoldable pub write : List ℕ → List Call
write [] = []
write (c ∷ str) = short_data (u8 c) ++ write str

-- The three operations on the display control, by the bit that they change.
unfoldable pub set_ctrl : ℕ → ℕ → Lcd → Bool → Lcd × List Call
set_ctrl bit others lcd on =
    let ctrl = if on then bit_or lcd.display_ctrl bit else bit_and lcd.display_ctrl others in
    (record lcd { display_ctrl = ctrl }, short_cmd (bit_or 0x08 ctrl))

unfoldable pub display_on : Lcd → Bool → Lcd × List Call
display_on = set_ctrl 0x04 0xfb

unfoldable pub cursor_on : Lcd → Bool → Lcd × List Call
cursor_on = set_ctrl 0x02 0xfd

unfoldable pub cursor_blink : Lcd → Bool → Lcd × List Call
cursor_blink = set_ctrl 0x01 0xfe

unfoldable pub scroll_left : List Call
scroll_left = short_cmd (bit_or 0x10 0x08)

unfoldable pub scroll_right : List Call
scroll_right = short_cmd (bit_or (bit_or 0x10 0x08) 0x04)

-- The rows of a glyph.
unfoldable pub glyph_rows : List ℕ → List Call
glyph_rows [] = []
glyph_rows (row ∷ glyph) = short_data (bit_and row 0x1f) ++ glyph_rows glyph

unfoldable pub create_char : ℕ → List ℕ → List Call
create_char slot glyph =
    if ltb 7 slot
    then []
    else short_cmd (bit_or 0x40 (u8 (slot * 8))) ++ (glyph_rows (take 8 glyph) ++ short_cmd 0x80)

unfoldable pub command : ℕ → List Call
command cmd = short_cmd cmd

unfoldable pub write_data : ℕ → List Call
write_data byte = short_data byte
