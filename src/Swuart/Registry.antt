-- ===== src/Swuart/Registry.antt =====
-- The registry of epic-swuart/src/epic_swuart.c: EPIC_SWUART_Init and EPIC_SWUART_DeInit. A handle is
-- known by a number. The GPIO calls are a list, the newest first, and Timer1 is on or off.
use pic8_hal.Common.{
  ℕ, Bool, true, false, not, ◌&&◌, ◌||◌, Option, none, some, List, ◌∷◌, ◌==◌, if◌then◌else◌,
}
use pic8_hal.Swuart.{
  write, tx_compare_event, rx_capture_event, Handle, Ccp, mode_off, capture_falling,
  compute_cycles_per_bit, rx_idle, tx_idle,
}

pub record Pins : Type 0 where
  pub tx_port : ℕ
  pub tx_pin : ℕ
  pub rx_port : ℕ
  pub rx_pin : ℕ

pub data GpioCall : Type 0 where
  init_output : ℕ → ℕ → GpioCall
  init_input : ℕ → ℕ → GpioCall
  write_high : ℕ → ℕ → GpioCall

pub record Board : Type 0 where
  pub handles : ℕ → Handle
  pub pins : ℕ → Pins
  pub chan_a : Option ℕ
  pub chan_b : Option ℕ
  pub cycles_per_bit : ℕ
  pub units : ℕ → Ccp
  pub timer_on : Bool
  pub gpio : List GpioCall

-- The numbers of the ports and pins: GPIOB, GPIOC, GPIOD, and GPIO_PIN_1, GPIO_PIN_2, GPIO_PIN_5.
abbrev pub slot_a_pins : Pins
slot_a_pins = record { tx_port = 2; tx_pin = 2; rx_port = 2; rx_pin = 4 }

abbrev pub slot_b_pins : Pins
slot_b_pins = record { tx_port = 3; tx_pin = 2; rx_port = 1; rx_pin = 32 }

abbrev pub same_pins : Pins → Pins → Bool
same_pins p q =
    p.tx_port == q.tx_port && p.tx_pin == q.tx_pin && p.rx_port == q.rx_port && p.rx_pin == q.rx_pin

abbrev pub is_free : Option ℕ → Bool
is_free none = true
is_free (some h) = false

abbrev pub holds : Option ℕ → ℕ → Bool
holds none h = false
holds (some other) h = other == h

abbrev pub update {ℓ} : {A : Type ℓ} → (ℕ → A) → ℕ → A → ℕ → A
update f i v j = if j == i then v else f j

-- The slot that EPIC_SWUART_Init takes: `some true` is slot B, and `none` is EPIC_INVALID.
unfoldable pub find_slot : Bool → Board → Pins → Option Bool
find_slot two_channels board p =
    if same_pins p slot_a_pins && is_free board.chan_a
    then some false
    else if two_channels && same_pins p slot_b_pins && is_free board.chan_b
    then some true
    else none

-- The fields that EPIC_SWUART_Init writes.
unfoldable pub fresh : Handle → Handle
fresh h = record h {
  tx_state = tx_idle;
  tx_deadline = 0;
  tx = record h.tx { head = 0; tail = 0; count = 0 };
  rx_state = rx_idle;
  rx_deadline = 0;
  rx = record h.rx { head = 0; tail = 0; count = 0 };
  error_count = 0;
}

-- The rest of EPIC_SWUART_Init, with the units of the slot.
unfoldable pub set_up : Board → ℕ → Pins → ℕ → ℕ → ℕ → ℕ → Board
set_up board h p fosc_hz baud rx_inst tx_inst = record board {
  handles = update board.handles h (fresh (board.handles h));
  pins = update board.pins h p;
  cycles_per_bit = compute_cycles_per_bit fosc_hz baud;
  gpio =
      init_input p.rx_port p.rx_pin
      ∷ write_high p.tx_port p.tx_pin
      ∷ init_output p.tx_port p.tx_pin
      ∷ board.gpio;
  timer_on = true;
  units =
      update (update board.units rx_inst (record { compare = 0; mode = capture_falling })) tx_inst
        (record { compare = 0; mode = mode_off });
}

-- EPIC_SWUART_Init; `two_channels` is that EPIC_SWUART_MAX_CHANNELS is 2.
unfoldable pub init : Bool → Board → ℕ → Pins → ℕ → ℕ → Option Board
init two_channels board h p fosc_hz baud = elim (find_slot two_channels board p) [
  | none ↦ none
  | some false ↦ some (record (set_up board h p fosc_hz baud 1 2) { chan_a = some h })
  | some true ↦ some (record (set_up board h p fosc_hz baud 3 4) { chan_b = some h })
]

abbrev pub switched_off : Ccp → Ccp
switched_off unit = record unit { mode = mode_off }

-- EPIC_CCP_DeInit of the two units of a slot.
abbrev pub release : Board → ℕ → ℕ → Board
release board rx_inst tx_inst = record board {
  units =
      update (update board.units rx_inst (switched_off (board.units rx_inst))) tx_inst
        (switched_off (board.units tx_inst));
}

-- The end of EPIC_SWUART_DeInit.
unfoldable pub let_go : Bool → Board → ℕ → Board
let_go two_channels board h =
    let unused = is_free board.chan_a && (not two_channels || is_free board.chan_b) in
    record board {
      gpio = write_high (board.pins h).tx_port (board.pins h).tx_pin ∷ board.gpio;
      timer_on = if unused then false else board.timer_on;
    }

unfoldable pub deinit : Bool → Board → ℕ → Option Board
deinit two_channels board h =
    if holds board.chan_a h
    then some (let_go two_channels (record (release board 1 2) { chan_a = none }) h)
    else if two_channels && holds board.chan_b h
    then some (let_go two_channels (record (release board 3 4) { chan_b = none }) h)
    else none

-- What a handler or an operation leaves of its handle and its unit.
abbrev put : Board → ℕ → ℕ → Handle × Ccp → Board
put board h inst (handle, unit) = record board {
  handles = update board.handles h handle;
  units = update board.units inst unit;
}

-- `on_tx_event_a` and `on_tx_event_b`: `h` is the handle in the slot and `inst` its unit for
-- transmission. `none` is a call with an empty slot, which would follow the NULL pointer.
unfoldable pub on_tx_event : Board → Option ℕ → ℕ → Option Board
on_tx_event board none inst = none
on_tx_event board (some h) inst =
    some (
      put board h inst (tx_compare_event board.cycles_per_bit (board.handles h) (board.units inst)))

-- `on_rx_event_a` and `on_rx_event_b`, with what the unit has captured and the level of the pin.
unfoldable pub on_rx_event : Board → Option ℕ → ℕ → ℕ → Bool → Option Board
on_rx_event board none inst captured high = none
on_rx_event board (some h) inst captured high = some (
    put board h inst
      (rx_capture_event board.cycles_per_bit captured high (board.handles h) (board.units inst)))

-- EPIC_SWUART_Write on a handle, with the unit of its slot.
unfoldable pub write_on : Bool → ℕ → Board → ℕ → List ℕ → ℕ × Board
write_on two_channels now board h bytes =
    let inst = if two_channels && holds board.chan_b h then 4 else 2 in
    let (n, h', unit') = write now (board.handles h) (board.units inst) bytes in
    (n, put board h inst (h', unit'))
