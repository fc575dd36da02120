-- ===== src/Modbus/Tables.antt =====
-- What the requests to a Modbus slave do to its tables, and read from them.
use pic8_hal.Common.{
  ℕ, ◌+◌, ◌-◌, ◌*◌, ◌/◌, ◌≤◌, ◌<◌, ◌≡◌, refl, ◌∙◌, true, false, not, ◌&&◌, ◌||◌, some, List, ◌∷◌,
  arith, ltb, leb, ◌==◌, if◌then◌else◌, length, get_or, replicate, length-replicate, u8, u16,
}
use pic8_hal.Modbus.{State, bit_get, be16}
use pic8_hal.Modbus.Requests.{
  copy_bits, handle_read_bits, copy_regs, handle_read_regs, echo, data_bit, store_coils,
  handle_write_multiple_coils, store_regs, handle_write_multiple_regs,
}
use pic8_hal.Modbus.Bits.{
  length-store_coils, bit_get-store_coils, length-copy_bits, bit_get-copy_bits, bit_get-replicate,
}
use pic8_hal.Modbus.Words.{length-store_regs, get_or-store_regs, length-copy_regs, be16-copy_regs}

-- A request of eight bytes for `qty` entries from `start` on.
pub record ReadRequest (s : State) (start qty : ℕ) : Type 0 where
  pub eight : s.frame_len ≡ 8
  pub from : be16 s.frame 2 ≡ start
  pub some_entries : 0 < qty
  pub entries : be16 s.frame 4 ≡ qty

-- A request to store `qty` entries, whose `size` bytes fill the frame.
pub record WriteRequest (s : State) (start qty size : ℕ) : Type 0 where
  pub filled : s.frame_len ≡ 9 + size
  pub from : be16 s.frame 2 ≡ start
  pub some_entries : 0 < qty
  pub entries : be16 s.frame 4 ≡ qty
  pub bytes : get_or s.frame 6 0 ≡ size

-- A request for at most 472 bits within a table of fewer than 65536 is answered with the address,
-- the function code, and the number of bytes, which hold the bits asked for.
pub handle_read_bits_answers :
    (s : State) (fc : ℕ) (table : List ℕ) (table_len start qty : ℕ)
    → ReadRequest s start qty
    → start + qty ≤ table_len
    → table_len < 65536
    → qty ≤ 472
    → (out : List ℕ) × (handle_read_bits s fc (some table) table_len
        ≡ s.slave_addr ∷ fc ∷ (qty + 7) / 8 ∷ out)
      × (length out ≡ (qty + 7) / 8)
      × ((j : ℕ) → j < qty → bit_get out j ≡ bit_get table (start + j))
unfolding handle_read_bits
handle_read_bits_answers s fc table table_len start qty a h l m =
    let n = (qty + 7) / 8 in
    let out = copy_bits table start qty (replicate n 0) in
    let size : length (replicate {A = ℕ} n 0) ≡ n = length-replicate {A = ℕ} n 0 in
    let count : u16 n ≡ n = omega arith in
    let byte : u8 n ≡ n = omega arith in
    let t1 : (s.frame_len == 8) ≡ true = ground (arith, a.eight) in
    let t2 : ((qty == 0) || ltb 2000 qty) ≡ false = ground (arith, a.some_entries) in
    let t3 : ltb table_len (start + qty) ≡ false = ground arith in
    let t4 : ltb 64 (n + 5) ≡ false = ground arith in
    (
      out,
      rw (t1, a.from, a.entries, t2, t3, count, t4, byte) refl,
      length-copy_bits table start qty (replicate n 0) ∙ size,
      λ j lt.
          bit_get-copy_bits table start qty (replicate n 0) j (omega (arith, size)) (omega arith)
          ∙ ground (arith, bit_get-replicate n j),
    )

-- A request for at most 29 registers is answered in the same way, with two bytes for each, the high
-- byte first.
handle_read_regs_answers :
    (s : State) (fc : ℕ) (table : List ℕ) (table_len start qty : ℕ)
    → ReadRequest s start qty
    → start + qty ≤ table_len
    → qty ≤ 29
    → (out : List ℕ) × (handle_read_regs s fc (some table) table_len
        ≡ s.slave_addr ∷ fc ∷ 2 * qty ∷ out)
      × (length out ≡ 2 * qty)
      × ((j : ℕ)
          → j < qty
          → get_or table (start + j) 0 < 65536
          → be16 out (2 * j) ≡ get_or table (start + j) 0)
unfolding handle_read_regs
handle_read_regs_answers s fc table table_len start qty a h m =
    let out = copy_regs table start qty in
    let count : u16 (qty * 2) ≡ 2 * qty = omega arith in
    let byte : u8 (2 * qty) ≡ 2 * qty = omega arith in
    let t1 : (s.frame_len == 8) ≡ true = ground (arith, a.eight) in
    let t2 : ((qty == 0) || ltb 125 qty) ≡ false = ground (arith, a.some_entries) in
    let t3 : ltb table_len (start + qty) ≡ false = ground arith in
    let t4 : ltb 64 (2 * qty + 5) ≡ false = ground arith in
    (
      out,
      rw (t1, a.from, a.entries, t2, t3, count, t4, byte) refl,
      length-copy_regs table start qty,
      λ j lt small. be16-copy_regs table start qty j lt small,
    )

-- A request to store coils within the table stores each, changes no other, and is echoed.
pub handle_write_multiple_coils_stores :
    (s : State) (coils : List ℕ) (start qty : ℕ)
    → WriteRequest s start qty ((qty + 7) / 8)
    → s.slave_map.coils ≡ some coils
    → start + qty ≤ s.slave_map.num_coils
    → s.slave_map.num_coils < 65536
    → s.slave_map.num_coils ≤ 8 * length coils
    → qty ≤ 1968
    → (out : List ℕ) × (handle_write_multiple_coils s
        ≡ (record s.slave_map { coils = some out }, echo s 0x0f))
      × (length out ≡ length coils)
      × ((j : ℕ)
          → bit_get out j ≡ (
              if leb start j && ltb j (start + qty)
              then data_bit s.frame (j - start)
              else bit_get coils j))
unfolding handle_write_multiple_coils
handle_write_multiple_coils_stores s coils start qty a e h l k m =
    let n = (qty + 7) / 8 in
    let out = store_coils s.frame start qty coils in
    let t1 : ltb s.frame_len 9 ≡ false = ground (arith, a.filled) in
    let t2 : ((qty == 0) || ltb 1968 qty || not (n == u16 n)) ≡ false =
      ground (arith, a.some_entries) in
    let t3 : (u16 (7 + n + 2) == s.frame_len) ≡ true = ground (arith, a.filled) in
    let t4 : ltb s.slave_map.num_coils (start + qty) ≡ false = ground arith in
    (
      out,
      rw (t1, a.entries, a.bytes, t2, t3) (simp (e, a.from, a.entries, t4) refl),
      length-store_coils s.frame start qty coils,
      λ j. bit_get-store_coils s.frame start qty coils j (omega arith) (omega arith),
    )

-- A request to store registers within the table stores each, changes no other, and is echoed.
handle_write_multiple_regs_stores :
    (s : State) (regs : List ℕ) (start qty : ℕ)
    → WriteRequest s start qty (qty * 2)
    → s.slave_map.holding_regs ≡ some regs
    → start + qty ≤ s.slave_map.num_holding_regs
    → s.slave_map.num_holding_regs ≤ length regs
    → qty ≤ 123
    → (out : List ℕ) × (handle_write_multiple_regs s
        ≡ (record s.slave_map { holding_regs = some out }, echo s 0x10))
      × (length out ≡ length regs)
      × ((j : ℕ)
          → get_or out j 0 ≡ (
              if leb start j && ltb j (start + qty)
              then be16 s.frame (7 + 2 * (j - start))
              else get_or regs j 0))
unfolding handle_write_multiple_regs
handle_write_multiple_regs_stores s regs start qty a e h k m =
    let n = qty * 2 in
    let out = store_regs s.frame start qty regs in
    let t1 : ltb s.frame_len 9 ≡ false = ground (arith, a.filled) in
    let t2 : ((qty == 0) || ltb 123 qty || not (n == u16 n)) ≡ false =
      ground (arith, a.some_entries) in
    let t3 : (u16 (7 + n + 2) == s.frame_len) ≡ true = ground (arith, a.filled) in
    let t4 : ltb s.slave_map.num_holding_regs (start + qty) ≡ false = ground arith in
    (
      out,
      rw (t1, a.entries, a.bytes, t2, t3) (simp (e, a.from, a.entries, t4) refl),
      length-store_regs s.frame start qty regs,
      λ j. get_or-store_regs s.frame start qty regs j (omega arith),
    )
