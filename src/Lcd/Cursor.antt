-- ===== src/Lcd/Cursor.antt =====
-- Where the cursor goes.
use pic8_hal.Common.{
  ℕ, zero, suc, ◌+◌, ◌-◌, ◌≤◌, ◌<◌, bit_or, ◌≡◌, refl, sym, ap, ◌∙◌, ◌⊎◌, inl, inr, List, [], ◌∷◌,
  arith, leb, ◌==◌, if◌then◌else◌, ==_iff, get_or, take, u8,
}
use pic8_hal.Common.Digits.{every_lem}
use pic8_hal.Lcd.{Call, send, delay_us, max_rows, Config, default_row_addr, init, set_cursor}
use pic8_hal.Lcd.Sent.{bytes_sent}

-- The cell that is meant: the last one of its row or column where there is none.
abbrev pub clamped : ℕ → ℕ → ℕ
clamped limit x = if leb limit x then limit - 1 else x

-- The DDRAM address of a row of an HD44780 display with `cols` columns, as epic_lcd.h has it: 0x14 and 0x54
-- for the two lower rows with 20 columns, 0x10 and 0x50 with 16.
abbrev pub row_start : ℕ → ℕ → ℕ
row_start cols zero = 0x00
row_start cols (suc zero) = 0x40
row_start cols (suc (suc zero)) = 0x00 + cols
row_start cols _ = 0x40 + cols

-- The address of a cell of the display.
abbrev pub cell : ℕ → ℕ → ℕ → ℕ
cell cols col row = row_start cols row + col

-- How far the default rows are off in the two lower rows of a display that has not 20 columns.
abbrev pub slip : ℕ → ℕ → ℕ
slip cols row = if leb 2 row then 20 - cols else 0

-- The same by the default rows of the code.
abbrev table_cell : ℕ → ℕ → ℕ
table_cell col row = get_or default_row_addr row 0 + col

with_top_bit : (n : ℕ) → n < 128 → bit_or 0x80 n ≡ 0x80 + n
with_top_bit n h =
    (==_iff (bit_or 0x80 n) (0x80 + n)).0 (every_lem 128 n (λ k. bit_or 0x80 k == 0x80 + k) refl h)

-- The standard rows do not overlap.
table_cell_bound : (col row : ℕ) → row < 4 → col < 20 → table_cell col row < 128
table_cell_bound col zero h l = omega arith
table_cell_bound col (suc zero) h l = omega arith
table_cell_bound col (suc (suc zero)) h l = omega arith
table_cell_bound col (suc (suc (suc zero))) h l = omega arith
table_cell_bound col (suc (suc (suc (suc row)))) h l = absurd (omega arith)

table_cell_injective :
    (col row col' row' : ℕ)
    → row < 4
    → row' < 4
    → col < 20
    → col' < 20
    → table_cell col row ≡ table_cell col' row'
    → (col ≡ col') × (row ≡ row')
table_cell_injective col row col' row' h h' l l' e = ground (arith, row_at row h, row_at row' h')
  where
    row_at :
        (r : ℕ)
        → r < 4
        → ((r ≡ 0) × (get_or default_row_addr r 0 ≡ 0x00))
          ⊎ (((r ≡ 1) × (get_or default_row_addr r 0 ≡ 0x40))
              ⊎ (((r ≡ 2) × (get_or default_row_addr r 0 ≡ 0x14))
                  ⊎ ((r ≡ 3) × (get_or default_row_addr r 0 ≡ 0x54))))
    row_at zero h = inl (refl, refl)
    row_at (suc zero) h = inr (inl (refl, refl))
    row_at (suc (suc zero)) h = inr (inr (inl (refl, refl)))
    row_at (suc (suc (suc zero))) h = inr (inr (inr (refl, refl)))
    row_at (suc (suc (suc (suc r)))) h = absurd (omega arith)

-- The address that is computed, from its parts.
address :
    (rows cols col row : ℕ) (table : List ℕ)
    → table ≡ default_row_addr
    → 0 < rows
    → rows ≤ 4
    → 0 < cols
    → cols ≤ 20
    → bit_or 0x80 (
        u8 (
          get_or table (if leb rows row then u8 (rows + 255) else row) 0
          + (if leb cols col then u8 (cols + 255) else col)))
      ≡ 0x80 + table_cell (clamped cols col) (clamped rows row)
address rows cols col row table std r1 r2 c1 c2 =
    let r : (if leb rows row then u8 (rows + 255) else row) ≡ clamped rows row = ground arith in
    let c : (if leb cols col then u8 (cols + 255) else col) ≡ clamped cols col = ground arith in
    let low =
      table_cell_bound (clamped cols col) (clamped rows row) (ground arith) (ground arith) in
    let byte : u8 (table_cell (clamped cols col) (clamped rows row))
        ≡ table_cell (clamped cols col) (clamped rows row) =
      omega (arith, low) in
    rw (std, r, c, byte) (with_top_bit (table_cell (clamped cols col) (clamped rows row)) low)

table_cell_lem :
    (cols col row : ℕ)
    → cols ≤ 20
    → row < 4
    → table_cell col row ≡ cell cols col row + slip cols row
table_cell_lem cols col zero h l = omega arith
table_cell_lem cols col (suc zero) h l = omega arith
table_cell_lem cols col (suc (suc zero)) h l = omega arith
table_cell_lem cols col (suc (suc (suc zero))) h l = omega arith
table_cell_lem cols col (suc (suc (suc (suc row)))) h l = absurd (omega arith)

-- On a display of 1 to 4 rows and 1 to 20 columns, where the rows are left to the default,
-- epic_lcd_set_cursor sends the one command that addresses the cell, clamped to the display; but in the
-- rows 2 and 3 of a display with fewer than 20 columns the address is too high by what it has fewer. It
-- sends the same command for another position only if the clamped cells are the same.
pub set_cursor-cell :
    (config : Config) (col row col' row' : ℕ)
    → get_or config.row_addr 0 0 ≡ 0
    → 0 < config.rows
    → config.rows ≤ 4
    → 0 < config.cols
    → config.cols ≤ 20
    → let lcd = (init config).0 in
      let at = clamped config.rows row in
      (bytes_sent (set_cursor lcd col row)
        ≡ (0, 0x80 + (cell config.cols (clamped config.cols col) at + slip config.cols at)) ∷ [])
      × (set_cursor lcd col row ≡ set_cursor lcd col' row'
          → (clamped config.cols col ≡ clamped config.cols col')
            × (clamped config.rows row ≡ clamped config.rows row'))
unfolding init set_cursor
set_cursor-cell config col row col' row' std r1 r2 c1 c2 =
    let table : (if get_or config.row_addr 0 0 == 0
          then default_row_addr
          else take max_rows config.row_addr)
        ≡ default_row_addr =
      ground (arith, std) in
    let sent = address config.rows config.cols col row _ table r1 r2 c1 c2 in
    let sent' = address config.rows config.cols col' row' _ table r1 r2 c1 c2 in
    let placed =
      table_cell_lem config.cols (clamped config.cols col) (clamped config.rows row) c2
        (ground arith) in
    (
      ap (λ b. (0, b) ∷ []) (sent ∙ ap (λ a. 0x80 + a) placed),
      λ e.
          table_cell_injective _ _ _ _ (ground arith) (ground arith) (ground arith) (ground arith)
            (omega (arith, sym sent ∙ first e ∙ sent')),
    )
  where
    first :
        {a b n m : ℕ}
        → ◌≡◌ {A = List Call} (send 0 a ∷ delay_us n ∷ []) (send 0 b ∷ delay_us m ∷ [])
        → a ≡ b
    first e = cc
