-- ===== src/Modbus/Slave.antt =====
-- epic-modbus/src/epic_modbus.c: the check of a frame, and the calls that a program makes. What the
-- module calls of epic-serial, epic-tick and the pins is the record `Port`, over the state `D` of
-- the device.
use pic8_hal.Common.{
  ℕ, zero, suc, ◌+◌, ◌-◌, ◌/◌, ◌^◌, bit_and, Bool, true, false, not, ◌&&◌, ◌||◌, Option, none, some,
  List, [], ◌∷◌, ◌++◌, ltb, leb, ◌==◌, if◌then◌else◌, length, get_or, take, drop, u8, u16,
}
use pic8_hal.Tick.{elapsed}
use pic8_hal.Modbus.{max_adu, SlaveMap, State, modbus_crc16, compute_t3_5_ms}
use pic8_hal.Modbus.Requests.{respond}

pub record Port (D : Type 0) : Type 0 where
  pub serial_init : ℕ → ℕ → D → D
  pub serial_available : D → ℕ
  pub serial_read : ℕ → D → List ℕ × D
  pub serial_write : List ℕ → D → D
  pub serial_flush : D → D
  pub tick_get : D → ℕ
  pub gpio_init_output : ℕ → ℕ → D → D
  pub gpio_write_pin : ℕ → ℕ → Bool → D → D

-- The first `len` bytes of a frame end with the CRC of those before, its low byte first.
unfoldable pub crc_matches : List ℕ → ℕ → Bool
crc_matches frame len =
    let crc_calc = modbus_crc16 frame (u16 (len - 2)) in
    not (
      not (get_or frame (len - 2) 0 == u8 (bit_and crc_calc 0xff))
      || not (get_or frame (len - 1) 0 == u8 (crc_calc / 256)))

-- A response with its CRC.
unfoldable pub seal : List ℕ → List ℕ
seal pdu =
    let resp_crc = modbus_crc16 pdu (length pdu) in
    pdu ++ u8 (bit_and resp_crc 0xff) ∷ u8 (resp_crc / 256) ∷ []

-- `process_frame`: the state, and what it sends.
unfoldable pub process_frame : State → State × Option (List ℕ)
process_frame s =
    let addr = get_or s.frame 0 0 in
    let broadcast = addr == 0 in
    let (m, pdu) = respond s (get_or s.frame 1 0) in
    if ltb s.frame_len 4
    then (s, none)
    else if not (crc_matches s.frame s.frame_len)
    then (s, none)
    else if not broadcast && not (addr == s.slave_addr)
    then (s, none)
    else if (length pdu == 0) || broadcast
    then (record s { slave_map = m }, none)
    else (record s { slave_map = m }, some (seal pdu))

-- The bytes that `epic_serial_read` puts at `at`.
abbrev pub write_at : List ℕ → ℕ → List ℕ → List ℕ
write_at buf at bytes = take at buf ++ bytes ++ drop (at + length bytes) buf

module _ {D : Type 0} (port : Port D) where
  open port use {
    serial_init, serial_available, serial_read, serial_write, serial_flush, tick_get,
    gpio_init_output, gpio_write_pin,
  }

  unfoldable pub send_response : State → List ℕ → D → D
  send_response s resp d =
      if s.dir_configured
      then gpio_write_pin s.dir_port (2 ^ s.dir_pin) false
          (serial_flush (serial_write resp (gpio_write_pin s.dir_port (2 ^ s.dir_pin) true d)))
      else serial_write resp d

  unfoldable pub slave_init : ℕ → ℕ → ℕ → SlaveMap → State → D → State × D
  slave_init fosc_hz baud slave_addr slave_map s d = (
    record s {
      slave_addr = slave_addr;
      slave_map = slave_map;
      t3_5_ms = compute_t3_5_ms baud;
      frame_len = 0;
      dir_configured = false;
    },
    serial_init fosc_hz baud d,
  )

  unfoldable pub set_rs485_dir_pin : ℕ → ℕ → State → D → State × D
  set_rs485_dir_pin dir_port pin s d = (
    record s { dir_port = dir_port; dir_pin = pin; dir_configured = true },
    gpio_write_pin dir_port (2 ^ pin) false (gpio_init_output dir_port (2 ^ pin) d),
  )

  -- The loop that drains what a full frame has no room for. It runs at most `remaining` times,
  -- since each round but the last takes a byte: that is its fuel.
  unfoldable pub drain : ℕ → ℕ → D → D
  drain zero remaining d = d
  drain (suc fuel) remaining d =
      let (bytes, d') = serial_read (if ltb remaining 8 then remaining else 8) d in
      let rest = drain fuel (u16 (remaining + 2 ^ 16 - length bytes)) d' in
      if not (ltb 0 remaining) then d else if length bytes == 0 then d' else rest

  -- The first part of `epic_modbus_slave_poll`, where bytes are available.
  unfoldable pub receive : ℕ → State → D → State × D
  receive avail s d =
      let space = u16 (max_adu + 2 ^ 16 - s.frame_len) in
      let (bytes, d') = if ltb 0 space then serial_read space d else ([], d) in
      let d'' =
        if ltb space (u16 avail)
        then drain (u16 (u16 avail - space)) (u16 (u16 avail - space)) d'
        else d' in
      (
        record s {
          frame = write_at s.frame s.frame_len bytes;
          frame_len = u16 (s.frame_len + length bytes);
          last_rx_tick = tick_get d'';
        },
        d'',
      )

  -- The second part, at the end of a frame.
  unfoldable pub finish : State → D → State × D
  finish s d =
      let (s', out) = process_frame s in
      let d' : D = elim out [ none ↦ d | some resp ↦ send_response s' resp d ] in
      if ltb 0 s.frame_len && leb s.t3_5_ms (elapsed (tick_get d) s.last_rx_tick)
      then (record s' { frame_len = 0 }, d')
      else (s, d)

  unfoldable pub slave_poll : State → D → State × D
  slave_poll s d =
      let avail = serial_available d in
      let (s', d') = if ltb 0 avail then receive avail s d else (s, d) in finish s' d'
