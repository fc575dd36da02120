-- ===== src/Pic16/Tests.antt =====
-- The drivers of pic16f87xa-hal at concrete registers.
use pic8_hal.Common.{
  ℕ, ◌+◌, ◌*◌, ◌/◌, ◌≤◌, ◌<◌, ◌≡◌, refl, true, false, some, arith, ◌==◌, if◌then◌else◌, u8, u16,
}
use pic8_hal.Pic16.{Sfr}
use pic8_hal.Pic16.Irq.{enable, disable_src, clear_flag, get_flag}
use pic8_hal.Pic16.IrqLines.{is_enabled, enable-lines}
use pic8_hal.Pic16.Timer1.{reg_tmr1h, reg_tmr1l, read_pair, read_counter}
use pic8_hal.Pic16.Moving.{Runs, read_counter-moving}
use pic8_hal.Pic16.Ccp.{ccp_sel, set_pwm_duty}
use pic8_hal.Pic16.Duty.{duty_of, mode_of, set_pwm_duty-duty}
use pic8_hal.Pic16.Gpio
use pic8_hal.Pic16.SimPins.{Inputs, drive_input, read_output}
use pic8_hal.Pic16.Pins.{pins-read_back}
use pic8_hal.Pic16.Eeprom.{read_byte, is_write_complete}
use pic8_hal.Pic16.Clobber.{read_byte-flags}

abbrev full : Sfr
full a = 255

enable-lines_example :
    (get_flag (clear_flag full 4) 5 ≡ get_flag full 5)
    × (is_enabled (clear_flag full 4) 5 ≡ is_enabled full 5)
    × (is_enabled (enable full 4) 5 ≡ is_enabled full 5)
    × (get_flag (enable full 4) 5 ≡ get_flag full 5)
    × (is_enabled (disable_src full 4) 5 ≡ is_enabled full 5)
    × (get_flag (disable_src full 4) 5 ≡ get_flag full 5)
enable-lines_example = enable-lines full 4 5 (omega arith) (omega arith)

-- Timer1 at its `k`-th read, when it counts from 255 on and by 20 from read to read.
abbrev running : ℕ → ℕ
running k = 255 + 20 * k

abbrev at_read : ℕ → Sfr
at_read k a = if a == 0x0F then u8 (running k / 256) else u8 (running k)

at_read-Runs : Runs reg_tmr1h reg_tmr1l at_read running
at_read-Runs = record { hi_lem = λ k. refl; lo_lem = λ k. refl; rises = λ k. omega arith }

-- The first round straddles the carry, and the second does not.
read_counter-straddles : read_counter 2 at_read ≡ some (255 + 20 * 4)
unfolding read_counter read_pair
read_counter-straddles = refl

read_counter-moving_example : (j : ℕ) × (j ≤ 4) × (read_counter 2 at_read ≡ some (u16 (running j)))
read_counter-moving_example = read_counter-moving at_read running 0 at_read-Runs (omega arith)

set_pwm_duty-duty_example :
    let s = set_pwm_duty full 2 700 in
    (duty_of s 2 ≡ 700)
    × (mode_of s 2 ≡ mode_of full 2)
    × ((a : ℕ) → (a == (ccp_sel 2).con) ≡ false → (a == (ccp_sel 2).cprl) ≡ false → s a ≡ full a)
set_pwm_duty-duty_example = set_pwm_duty-duty full 2 700 refl (omega arith)

abbrev untouched : Inputs
untouched = record { override = λ i. 0; value = λ i. 0 }

port_e : 2 < Gpio.port_width 4
unfolding Gpio.port_width
port_e = omega arith

pins-read_back_example :
    let out = Gpio.write_pin (Gpio.init full 4 4 2) 4 4 true in
    let driven = drive_input (Gpio.init full 4 4 1, untouched) 69 2 true in
    (read_output (out, untouched) 69 2 ≡ 1)
    × (Gpio.read_pin driven.0 4 4 ≡ true)
    × (read_output driven 69 2 ≡ 1)
pins-read_back_example = pins-read_back 4 2 (omega arith) port_e full untouched true

read_byte-flags_example :
    let (byte, s) = read_byte (λ a. 2) full 5 in
    (byte ≡ 2) × (get_flag s 4 ≡ true) × (is_write_complete s ≡ false)
read_byte-flags_example = read_byte-flags (λ a. 2) full 5 (omega arith) (omega arith)
