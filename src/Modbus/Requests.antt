-- ===== src/Modbus/Requests.antt =====
-- epic-modbus/src/epic_modbus.c: the builders of a response. What a builder writes to `resp` up to
-- the length it returns is a list, and [] is the length 0: no response.
use pic8_hal.Common.{
  ℕ, zero, suc, ◌+◌, ◌*◌, ◌/◌, ◌^◌, bit_and, bit_or, Bool, not, ◌&&◌, ◌||◌, Option, none, some,
  List, [], ◌∷◌, ◌++◌, ltb, leb, ◌==◌, if◌then◌else◌, set, get_or, replicate, u8, u16,
}
use pic8_hal.Modbus.{max_adu, SlaveMap, State, bit_get, bit_set, be16, put_be16}

abbrev pub illegal_function : ℕ
illegal_function = 1

abbrev pub illegal_data_address : ℕ
illegal_data_address = 2

abbrev pub illegal_data_value : ℕ
illegal_data_value = 3

unfoldable pub build_exception : State → ℕ → ℕ → List ℕ
build_exception s fc exc_code = s.slave_addr ∷ u8 (bit_or fc 0x80) ∷ exc_code ∷ []

-- The loop that copies bits to the response, its first `qty` rounds.
unfoldable pub copy_bits : List ℕ → ℕ → ℕ → List ℕ → List ℕ
copy_bits table start zero out = out
copy_bits table start (suc i) out =
    let done = copy_bits table start i out in
    if bit_get table (u16 (start + i))
    then set done (i / 8) (u8 (bit_or (get_or done (i / 8) 0) (u8 (2 ^ bit_and i 7))))
    else done

unfoldable pub handle_read_bits : State → ℕ → Option (List ℕ) → ℕ → List ℕ
handle_read_bits s fc table table_len =
    let start = be16 s.frame 2 in
    let qty = be16 s.frame 4 in
    let byte_count = u16 ((qty + 7) / 8) in
    if not (s.frame_len == 8)
    then []
    else if (qty == 0) || ltb 2000 qty
    then build_exception s fc illegal_data_value
    else elim table [
      | none ↦ build_exception s fc illegal_data_address
      | some bits ↦
          if ltb table_len (start + qty)
          then build_exception s fc illegal_data_address
          else if ltb max_adu (byte_count + 5)
          then build_exception s fc illegal_data_value
          else s.slave_addr ∷ fc ∷ u8 byte_count ∷ copy_bits bits start qty (replicate byte_count 0)
    ]

-- The loop that copies registers to the response, from the register `i` on.
unfoldable pub copy_regs : List ℕ → ℕ → ℕ → List ℕ
copy_regs table i zero = []
copy_regs table i (suc left) = put_be16 (get_or table i 0) ++ copy_regs table (i + 1) left

unfoldable pub handle_read_regs : State → ℕ → Option (List ℕ) → ℕ → List ℕ
handle_read_regs s fc table table_len =
    let start = be16 s.frame 2 in
    let qty = be16 s.frame 4 in
    let byte_count = u16 (qty * 2) in
    if not (s.frame_len == 8)
    then []
    else if (qty == 0) || ltb 125 qty
    then build_exception s fc illegal_data_value
    else elim table [
      | none ↦ build_exception s fc illegal_data_address
      | some regs ↦
          if ltb table_len (start + qty)
          then build_exception s fc illegal_data_address
          else if ltb max_adu (byte_count + 5)
          then build_exception s fc illegal_data_value
          else s.slave_addr ∷ fc ∷ u8 byte_count ∷ copy_regs regs start qty
    ]

-- The response to a write that has succeeded: the first bytes of the request.
unfoldable pub echo : State → ℕ → List ℕ
echo s fc =
    s.slave_addr
    ∷ fc
    ∷ get_or s.frame 2 0
    ∷ get_or s.frame 3 0
    ∷ get_or s.frame 4 0
    ∷ get_or s.frame 5 0
    ∷ []

unfoldable pub handle_write_single_coil : State → SlaveMap × List ℕ
handle_write_single_coil s =
    let same = s.slave_map in
    let addr = be16 s.frame 2 in
    let value = be16 s.frame 4 in
    if not (s.frame_len == 8)
    then (same, [])
    else if not (value == 0xff00) && not (value == 0)
    then (same, build_exception s 0x05 illegal_data_value)
    else elim same.coils [
      | none ↦ (same, build_exception s 0x05 illegal_data_address)
      | some coils ↦
          if leb same.num_coils addr
          then (same, build_exception s 0x05 illegal_data_address)
          else (record same { coils = some (bit_set coils addr (value == 0xff00)) }, echo s 0x05)
    ]

unfoldable pub handle_write_single_reg : State → SlaveMap × List ℕ
handle_write_single_reg s =
    let same = s.slave_map in
    let addr = be16 s.frame 2 in
    let value = be16 s.frame 4 in
    if not (s.frame_len == 8) then (same, []) else elim same.holding_regs [
      | none ↦ (same, build_exception s 0x06 illegal_data_address)
      | some regs ↦
          if leb same.num_holding_regs addr
          then (same, build_exception s 0x06 illegal_data_address)
          else (record same { holding_regs = some (set regs addr value) }, echo s 0x06)
    ]

-- The bit `i` of the data of a request to write coils.
unfoldable pub data_bit : List ℕ → ℕ → Bool
data_bit frame i = not (bit_and (get_or frame (7 + i / 8) 0 / 2 ^ bit_and i 7) 1 == 0)

-- The first `qty` rounds of the loop that stores coils, from the data in the frame.
unfoldable pub store_coils : List ℕ → ℕ → ℕ → List ℕ → List ℕ
store_coils frame start zero coils = coils
store_coils frame start (suc i) coils =
    bit_set (store_coils frame start i coils) (u16 (start + i)) (data_bit frame i)

unfoldable pub handle_write_multiple_coils : State → SlaveMap × List ℕ
handle_write_multiple_coils s =
    let same = s.slave_map in
    let start = be16 s.frame 2 in
    let qty = be16 s.frame 4 in
    let byte_count = get_or s.frame 6 0 in
    if ltb s.frame_len 9
    then (same, [])
    else if (qty == 0) || ltb 1968 qty || not (byte_count == u16 ((qty + 7) / 8))
    then (same, build_exception s 0x0f illegal_data_value)
    else if not (u16 (7 + byte_count + 2) == s.frame_len)
    then (same, [])
    else elim same.coils [
      | none ↦ (same, build_exception s 0x0f illegal_data_address)
      | some coils ↦
          if ltb same.num_coils (start + qty)
          then (same, build_exception s 0x0f illegal_data_address)
          else (record same { coils = some (store_coils s.frame start qty coils) }, echo s 0x0f)
    ]

-- The first `qty` rounds of the loop that stores registers.
unfoldable pub store_regs : List ℕ → ℕ → ℕ → List ℕ → List ℕ
store_regs frame start zero regs = regs
store_regs frame start (suc i) regs =
    set (store_regs frame start i regs) (start + i) (be16 frame (7 + 2 * i))

unfoldable pub handle_write_multiple_regs : State → SlaveMap × List ℕ
handle_write_multiple_regs s =
    let same = s.slave_map in
    let start = be16 s.frame 2 in
    let qty = be16 s.frame 4 in
    let byte_count = get_or s.frame 6 0 in
    if ltb s.frame_len 9
    then (same, [])
    else if (qty == 0) || ltb 123 qty || not (byte_count == u16 (qty * 2))
    then (same, build_exception s 0x10 illegal_data_value)
    else if not (u16 (7 + byte_count + 2) == s.frame_len)
    then (same, [])
    else elim same.holding_regs [
      | none ↦ (same, build_exception s 0x10 illegal_data_address)
      | some regs ↦
          if ltb same.num_holding_regs (start + qty)
          then (same, build_exception s 0x10 illegal_data_address)
          else (
            record same { holding_regs = some (store_regs s.frame start qty regs) },
            echo s 0x10,
          )
    ]

-- The `switch` of `process_frame`.
unfoldable pub respond : State → ℕ → SlaveMap × List ℕ
respond s fc =
    let m = s.slave_map in
    if fc == 0x01
    then (m, handle_read_bits s fc m.coils m.num_coils)
    else if fc == 0x02
    then (m, handle_read_bits s fc m.discrete_inputs m.num_discrete_inputs)
    else if fc == 0x03
    then (m, handle_read_regs s fc m.holding_regs m.num_holding_regs)
    else if fc == 0x04
    then (m, handle_read_regs s fc m.input_regs m.num_input_regs)
    else if fc == 0x05
    then handle_write_single_coil s
    else if fc == 0x06
    then handle_write_single_reg s
    else if fc == 0x0f
    then handle_write_multiple_coils s
    else if fc == 0x10
    then handle_write_multiple_regs s
    else (m, build_exception s fc illegal_function)
