-- ===== src/Swuart.antt =====
-- epic-swuart/src/epic_swuart.c: the UART in software over the capture and compare units. A channel
-- is its handle; what the program last wrote to a capture/compare unit is a `Ccp`, an event is a
-- call of the handler, and the level of the receive pin at an event is an argument. A critical
-- section is one step, and the pointers are not NULL.
pub mod Registry
pub mod Transmit
pub mod Receive
pub mod Send
pub mod Delivery
mod FrameLevels
mod Hear
mod Line
pub mod Loopback
pub mod Slots
mod Tests
use pic8_hal.Common.{
  ℕ, zero, suc, ◌+◌, ◌/◌, bit_and, bit_or, Bool, true, false, ◌&&◌, List, [], ◌∷◌, ltb, leb, ◌==◌,
  if◌then◌else◌, u8, u16, u32,
}
use pic8_hal.Ring.{Ring, store, fetch}

abbrev pub ring_size : ℕ
ring_size = 8

abbrev pub lead_cycles : ℕ
lead_cycles = 120

pub data TxState : Type 0 where
  tx_idle : TxState
  tx_data : TxState
  tx_stop : TxState

-- The states of the receiver are numbers, since the code adds the index of a bit to RX_DATA0.
abbrev pub rx_idle : ℕ
rx_idle = 0

abbrev pub rx_confirm_start : ℕ
rx_confirm_start = 1

abbrev pub rx_data0 : ℕ
rx_data0 = 2

abbrev pub rx_stop : ℕ
rx_stop = 10

pub data Mode : Type 0 where
  mode_off : Mode
  capture_falling : Mode
  compare_set : Mode
  compare_clear : Mode
  compare_soft_if : Mode

-- The arguments of the last EPIC_CCP_SetCompare and EPIC_CCP_SetMode of a unit.
pub record Ccp : Type 0 where
  pub compare : ℕ
  pub mode : Mode

-- EPIC_SWUART_HandleTypeDef, less the pins.
pub record Handle : Type 0 where
  pub tx_state : TxState
  pub tx_shift : ℕ
  pub tx_bit_index : ℕ
  pub tx_deadline : ℕ
  pub tx : Ring
  pub rx_state : ℕ
  pub rx_shift : ℕ
  pub rx_bit_index : ℕ
  pub rx_deadline : ℕ
  pub rx : Ring
  pub error_count : ℕ

unfoldable pub compute_cycles_per_bit : ℕ → ℕ → ℕ
compute_cycles_per_bit fosc_hz baud =
    let cycles = u32 (fosc_hz / 4 + baud / 2) / baud in
    let most = if ltb 65535 cycles then 65535 else cycles in if ltb most 1 then 1 else most

-- The byte at the tail goes to the shift register, and a frame begins.
unfoldable pub take_byte : Handle → Handle
take_byte h = record h {
  tx_shift = (fetch ring_size h.tx).0;
  tx = (fetch ring_size h.tx).1;
  tx_bit_index = 0;
  tx_state = tx_data;
}

module _ (cycles_per_bit : ℕ) where
  -- The three statements behind the switch.
  unfoldable pub arm_next : Handle → Mode → Handle × Ccp
  arm_next h next_mode =
      let at = u16 (h.tx_deadline + cycles_per_bit) in
      (record h { tx_deadline = at }, record { compare = at; mode = next_mode })

  unfoldable pub tx_compare_event : Handle → Ccp → Handle × Ccp
  tx_compare_event h unit = elim h.tx_state [
    | tx_idle ↦
        if h.tx.count == 0
        then (h, record unit { mode = mode_off })
        else arm_next (take_byte h) compare_clear
    | tx_data ↦
        let index = u8 (h.tx_bit_index + 1) in
        arm_next
          (record h {
            tx_shift = h.tx_shift / 2;
            tx_bit_index = index;
            tx_state = if leb 8 index then tx_stop else tx_data;
          })
          (if bit_and h.tx_shift 1 == 0 then compare_clear else compare_set)
    | tx_stop ↦ arm_next (record h { tx_state = tx_idle }) compare_set
  ]

unfoldable pub rx_push : Handle → ℕ → Handle
rx_push h byte =
    if leb ring_size h.rx.count
    then record h { error_count = u16 (h.error_count + 1) }
    else record h { rx = store ring_size h.rx byte }

module _ (cycles_per_bit : ℕ) where
  -- The branch of RX_IDLE, at a falling edge captured at `edge_time`.
  unfoldable pub on_edge : ℕ → Handle → Ccp → Handle × Ccp
  on_edge edge_time h unit =
      let at = u16 (edge_time + cycles_per_bit / 2) in
      (
        record h { rx_deadline = at; rx_state = rx_confirm_start },
        record { compare = at; mode = compare_soft_if },
      )

  -- The branch of RX_CONFIRM_START; `high` is that the pin does not read as GPIO_PIN_RESET.
  unfoldable pub on_confirm : Bool → Handle → Ccp → Handle × Ccp
  on_confirm high h unit =
      let at = u16 (h.rx_deadline + cycles_per_bit) in
      if high then (record h { rx_state = rx_idle }, record unit { mode = capture_falling }) else (
        record h { rx_shift = 0; rx_bit_index = 0; rx_state = rx_data0; rx_deadline = at },
        record unit { compare = at },
      )

  -- The rest of the handler: the stop bit and the data bits.
  unfoldable pub on_sample : Bool → Handle → Ccp → Handle × Ccp
  on_sample high h unit =
      let index = u8 (h.rx_bit_index + 1) in
      let at = u16 (h.rx_deadline + cycles_per_bit) in
      let taken =
        if high then rx_push h h.rx_shift else record h { error_count = u16 (h.error_count + 1) } in
      if h.rx_state == rx_stop
      then (record taken { rx_state = rx_idle }, record unit { mode = capture_falling })
      else (
        record h {
          rx_shift = u8 (bit_or (h.rx_shift / 2) (if high then 128 else 0));
          rx_bit_index = index;
          rx_state = if ltb index 8 then u8 (rx_data0 + index) else rx_stop;
          rx_deadline = at;
        },
        record unit { compare = at },
      )

  -- `captured` is EPIC_CCP_GetCapture, and `high` the level of the pin.
  unfoldable pub rx_capture_event : ℕ → Bool → Handle → Ccp → Handle × Ccp
  rx_capture_event captured high h unit =
      if h.rx_state == rx_idle
      then on_edge captured h unit
      else if h.rx_state == rx_confirm_start
      then on_confirm high h unit
      else on_sample high h unit

-- The loop of EPIC_SWUART_Write: the number of bytes taken from the list, and the handle.
unfoldable pub fill : Handle → List ℕ → ℕ × Handle
fill h [] = (0, h)
fill h (byte ∷ bytes) =
    let (n, h') = fill (record h { tx = store ring_size h.tx byte }) bytes in
    if ltb h.tx.count ring_size then (n + 1, h') else (0, h)

abbrev pub is_idle : TxState → Bool
is_idle tx_idle = true
is_idle tx_data = false
is_idle tx_stop = false

-- EPIC_SWUART_Write where the counter of Timer1 reads `now`: the return value, the handle, and the
-- compare unit of the channel.
unfoldable pub write : ℕ → Handle → Ccp → List ℕ → ℕ × Handle × Ccp
write now h unit bytes =
    let (written, filled) = fill h bytes in
    let at = u16 (now + lead_cycles) in
    if ltb 0 written && is_idle filled.tx_state
    then (
      written,
      record (take_byte filled) { tx_deadline = at },
      record { compare = at; mode = compare_clear },
    )
    else (written, filled, unit)

-- The loop of EPIC_SWUART_Read, with `maxlen - n` as its measure.
unfoldable pub read : ℕ → Handle → List ℕ × Handle
read zero h = ([], h)
read (suc left) h =
    let (bytes, h') = read left (record h { rx = (fetch ring_size h.rx).1 }) in
    if ltb 0 h.rx.count then ((fetch ring_size h.rx).0 ∷ bytes, h') else ([], h)

abbrev pub get_error_count : Handle → ℕ
get_error_count h = h.error_count
