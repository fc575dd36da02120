-- ===== src/Pic16/SimPins.antt =====
-- pic16f87xa-hal/src/sim/pic16f87xa_sim.c: the pins of the simulator. A port is named by a character, given
-- by its code.
use pic8_hal.Common.{
  ℕ, ◌+◌, ◌-◌, ◌^◌, bit_and, bit_or, Bool, ◌&&◌, ◌||◌, Option, none, some, ltb, ◌==◌, if◌then◌else◌,
  u8,
}
use pic8_hal.Pic16.{Sfr, poke, bit_test}

-- sim_input_override and sim_input_value, by the index of the port.
pub record Inputs : Type 0 where
  pub override : ℕ → ℕ
  pub value : ℕ → ℕ

-- The port that a character names, in upper or lower case.
unfoldable pub letter : ℕ → Option ℕ
letter port =
    if port == 65 || port == 97
    then some 0
    else if port == 66 || port == 98
    then some 1
    else if port == 67 || port == 99
    then some 2
    else if port == 68 || port == 100
    then some 3
    else if port == 69 || port == 101
    then some 4
    else none

unfoldable pub port_latch : Sfr → ℕ → ℕ
port_latch s port = elim (letter port) [ none ↦ 0xFF | some i ↦ s (0x05 + i) ]

unfoldable pub tris_reg : Sfr → ℕ → ℕ
tris_reg s port = elim (letter port) [ none ↦ 0xFF | some i ↦ s (0x85 + i) ]

unfoldable pub port_index : ℕ → ℕ
port_index port = elim (letter port) [ none ↦ 0 | some i ↦ i ]

-- An element of an array replaced.
abbrev pub put : (ℕ → ℕ) → ℕ → ℕ → ℕ → ℕ
put f i v j = if j == i then u8 v else f j

-- `v |= mask` or `v &= (uint8_t)~mask`
abbrev pub with_level : Bool → ℕ → ℕ → ℕ
with_level level v mask = if level then bit_or v mask else bit_and v (255 - mask)

-- `pic16f87xa_sim_drive_input`: the registers and the inputs.
unfoldable pub drive_input : Sfr × Inputs → ℕ → ℕ → Bool → Sfr × Inputs
drive_input (s, inputs) port pin level =
    let idx = port_index port in
    let mask = u8 (2 ^ pin) in
    let pa = 0x05 + idx in
    if ltb 7 pin then (s, inputs) else (
      poke s pa (with_level level (s pa) mask),
      record {
        override = put inputs.override idx (bit_or (inputs.override idx) mask);
        value = put inputs.value idx (with_level level (inputs.value idx) mask);
      },
    )

-- `pic16f87xa_sim_read_output`
unfoldable pub read_output : Sfr × Inputs → ℕ → ℕ → ℕ
read_output (s, inputs) port pin =
    let idx = port_index port in
    let mask = u8 (2 ^ pin) in
    let driven = bit_test (inputs.override idx) mask && bit_test (inputs.value idx) mask in
    if ltb 7 pin
    then 0
    else if bit_test (tris_reg s port) mask
    then (if driven then 1 else 0)
    else if bit_test (port_latch s port) mask
    then 1
    else 0
