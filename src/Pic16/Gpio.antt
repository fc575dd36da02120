-- ===== src/Pic16/Gpio.antt =====
-- pic16f87xa-hal/src/peripherals/pic16f87xa_gpio.c, on a device with PORTD and PORTE. A port is its
-- number, and the state of a pin is whether it is high.
use pic8_hal.Common.{
  ℕ, ◌-◌, ◌^◌, bit_and, bit_or, bit_xor, Bool, ◌||◌, [], ◌∷◌, ◌==◌, if◌then◌else◌, get_or, u8,
}
use pic8_hal.Pic16.{Sfr, poke, bit_test}
use pic8_hal.Pic16.Irq.{clear_flag, get_flag}

unfoldable pub tris_addr : ℕ → ℕ
tris_addr port = get_or (0x85 ∷ 0x86 ∷ 0x87 ∷ 0x88 ∷ 0x89 ∷ []) port 0x85

unfoldable pub port_addr : ℕ → ℕ
port_addr port = get_or (0x05 ∷ 0x06 ∷ 0x07 ∷ 0x08 ∷ 0x09 ∷ []) port 0x05

unfoldable pub port_width : ℕ → ℕ
port_width port = if port == 4 then 3 else if port == 0 then 6 else 8

-- `(uint8_t)((1U << port_width(port)) - 1U)`, and the pins among it.
abbrev pub all_pins : ℕ → ℕ
all_pins port = u8 (2 ^ port_width port - 1)

abbrev pub pin_mask : ℕ → ℕ → ℕ
pin_mask port pins = bit_and (u8 pins) (all_pins port)

abbrev pub mode_input : ℕ
mode_input = 1

abbrev pub mode_output : ℕ
mode_output = 2

abbrev pub mode_analog : ℕ
mode_analog = 3

-- EPIC_GPIO_Init
unfoldable pub init : Sfr → ℕ → ℕ → ℕ → Sfr
init s port pins mode =
    let ta = tris_addr port in
    let mask = pin_mask port pins in
    if mode == mode_input || mode == mode_analog
    then poke s ta (bit_or (s ta) mask)
    else if mode == mode_output
    then poke s ta (bit_and (s ta) (255 - mask))
    else s

-- EPIC_GPIO_DeInit
unfoldable pub deinit : Sfr → ℕ → Sfr
deinit s port = poke s (tris_addr port) (all_pins port)

-- EPIC_GPIO_WritePin
unfoldable pub write_pin : Sfr → ℕ → ℕ → Bool → Sfr
write_pin s port pins state =
    let mask = pin_mask port pins in
    let pa = port_addr port in
    poke s pa (if state then bit_or (s pa) mask else bit_and (s pa) (255 - mask))

-- EPIC_GPIO_TogglePin
unfoldable pub toggle_pin : Sfr → ℕ → ℕ → Sfr
toggle_pin s port pins = let pa = port_addr port in poke s pa (bit_xor (s pa) (pin_mask port pins))

-- EPIC_GPIO_ReadPin
unfoldable pub read_pin : Sfr → ℕ → ℕ → Bool
read_pin s port pins = bit_test (s (port_addr port)) (pin_mask port pins)

-- EPIC_GPIO_WritePort and EPIC_GPIO_ReadPort
unfoldable pub write_port : Sfr → ℕ → ℕ → Sfr
write_port s port value = poke s (port_addr port) (bit_and value (all_pins port))

unfoldable pub read_port : Sfr → ℕ → ℕ
read_port s port = s (port_addr port)

-- EPIC_GPIO_SetPullups
unfoldable pub set_pullups : Sfr → Bool → Sfr
set_pullups s pullup =
    poke s 0x81 (if pullup then bit_and (s 0x81) (255 - 0x80) else bit_or (s 0x81) 0x80)

module _ {P : Type 0} (callback : ℕ → P → P) where
  -- RB_IRQHandler, with the registered callback.
  unfoldable pub irq_handler : Sfr × P → Sfr × P
  irq_handler (s, p) =
      let portb = s 0x06 in if get_flag s 0 then (clear_flag s 0, callback portb p) else (s, p)
