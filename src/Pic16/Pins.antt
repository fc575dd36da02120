-- ===== src/Pic16/Pins.antt =====
-- The pins of the driver and those of the simulator, one by one.
use mathlib.Core.Bool.{false≢true}
use pic8_hal.Common.{
  ℕ, ◌+◌, ◌^◌, ◌≤◌, ◌<◌, bit_or, ◌≡◌, refl, ap, ◌∙◌, Bool, true, false, ◌&&◌, Option, none, some,
  arith, ltb, leb, ◌==◌, if◌then◌else◌, lt→ltb, leb→le, ==_iff, u8,
}
use pic8_hal.Common.Digits.{digit, every, every_lem, and-true}
use pic8_hal.Pic16.{Sfr, poke, bit_set, bit_clr, bit_test}
use pic8_hal.Pic16.Location.{Location, bit_at, same, bit_at-bit_set, bit_at-bit_clr, bit_test-pow}
use pic8_hal.Pic16.Gpio.{port_addr, tris_addr, port_width, pin_mask, init, write_pin, read_pin}
use pic8_hal.Pic16.SimPins.{
  Inputs, letter, port_latch, tris_reg, port_index, put, with_level, drive_input, read_output,
}

-- What is known of a port and a pin of it.
abbrev port_test : ℕ → Bool
port_test port =
    port_addr port == 5 + port && tris_addr port == 0x85 + port && leb (port_width port) 8

port-every : every 5 port_test ≡ true
unfolding port_addr tris_addr port_width
port-every = refl

abbrev pin_test : ℕ → ℕ → Bool
pin_test port pin = if ltb pin (port_width port) then pin_mask port (2 ^ pin) == 2 ^ pin else true

pin-every : every 5 (λ port. every 8 (pin_test port)) ≡ true
unfolding port_width
pin-every = refl

u8-every : every 8 (λ pin. u8 (2 ^ pin) == 2 ^ pin) ≡ true
u8-every = refl

abbrev is_some : Option ℕ → ℕ → Bool
is_some o i = elim o [ none ↦ false | some j ↦ j == i ]

is_some_lem : (o : Option ℕ) (i : ℕ) → is_some o i ≡ true → o ≡ some i
is_some_lem none i e = absurd (false≢true e)
is_some_lem (some j) i e = ap some ((==_iff j i).0 e)

letter-every : every 5 (λ port. is_some (letter (65 + port)) port) ≡ true
unfolding letter
letter-every = refl

by_level :
    (level : Bool) (v : Bool → ℕ) (k : ℕ)
    → digit (v true) k ≡ 1
    → digit (v false) k ≡ 0
    → (digit (v level) k == 1) ≡ level
by_level true v k high low = ap (λ d. d == 1) high
by_level false v k high low = ap (λ d. d == 1) low

level_of : (level : Bool) → ((if level then 1 else 0) == 1) ≡ level
level_of true = refl
level_of false = refl

module _ (port pin : ℕ) (hp : port < 5) (hk : pin < port_width port) where
  -- The character that names the port, and the places of the pin in PORTx and in TRISx.
  abbrev pub code : ℕ
  code = 65 + port

  abbrev port_bit : Location
  port_bit = record { addr = 5 + port; bit = pin }

  abbrev tris_bit : Location
  tris_bit = record { addr = 0x85 + port; bit = pin }

  port_addr_lem : port_addr port ≡ 5 + port
  port_addr_lem =
      (==_iff _ _).0 (and-true _ _ (and-true _ _ (every_lem 5 port port_test port-every hp)).0).0

  tris_addr_lem : tris_addr port ≡ 0x85 + port
  tris_addr_lem =
      (==_iff _ _).0 (and-true _ _ (and-true _ _ (every_lem 5 port port_test port-every hp)).0).1

  width_lem : port_width port ≤ 8
  width_lem = leb→le (port_width port) 8 (and-true _ _ (every_lem 5 port port_test port-every hp)).1

  pin_bound : pin < 8
  pin_bound = omega (arith, width_lem, hk)

  mask_lem : pin_mask port (2 ^ pin) ≡ 2 ^ pin
  mask_lem =
      let row = every_lem 5 port (λ port. every 8 (pin_test port)) pin-every hp in
      let cell = every_lem 8 pin (pin_test port) row pin_bound in
      let chosen : (pin_mask port (2 ^ pin) == 2 ^ pin) ≡ true =
        rw (lt→ltb pin (port_width port) hk) at cell in
      (==_iff _ _).0 chosen

  byte_lem : u8 (2 ^ pin) ≡ 2 ^ pin
  byte_lem = (==_iff _ _).0 (every_lem 8 pin (λ pin. u8 (2 ^ pin) == 2 ^ pin) u8-every pin_bound)

  letter_lem : letter code ≡ some port
  letter_lem =
      is_some_lem (letter code) port
        (every_lem 5 port (λ port. is_some (letter (65 + port)) port) letter-every hp)

  write_pin_lem :
      (s : Sfr) (state : Bool)
      → write_pin s port (2 ^ pin) state
        ≡ (if state then bit_set s (5 + port) (2 ^ pin) else bit_clr s (5 + port) (2 ^ pin))
  unfolding write_pin
  write_pin_lem s true = rw (mask_lem, port_addr_lem) refl
  write_pin_lem s false = rw (mask_lem, port_addr_lem) refl

  -- EPIC_GPIO_WritePin on one pin that the port has sets its bit of PORTx, and changes no other bit of any
  -- register.
  write_pin-bit :
      (s : Sfr) (state : Bool) (m : Location)
      → m.bit < 8
      → bit_at (write_pin s port (2 ^ pin) state) m
        ≡ (if same port_bit m then (if state then 1 else 0) else bit_at s m)
  write_pin-bit s true m hm =
      ap (λ t. bit_at t m) (write_pin_lem s true) ∙ bit_at-bit_set s port_bit m pin_bound hm
  write_pin-bit s false m hm =
      ap (λ t. bit_at t m) (write_pin_lem s false) ∙ bit_at-bit_clr s port_bit m pin_bound hm

  init-output_lem : (s : Sfr) → init s port (2 ^ pin) 2 ≡ bit_clr s (0x85 + port) (2 ^ pin)
  unfolding init
  init-output_lem s = rw (mask_lem, tris_addr_lem) refl

  init-input_lem : (s : Sfr) → init s port (2 ^ pin) 1 ≡ bit_set s (0x85 + port) (2 ^ pin)
  unfolding init
  init-input_lem s = rw (mask_lem, tris_addr_lem) refl

  test_lem :
      (s : Sfr) (l : Location) → l.bit ≡ pin → bit_test (s l.addr) (2 ^ pin) ≡ (bit_at s l == 1)
  test_lem s l e = rw e (bit_test-pow (s l.addr) pin)

  index_lem : port_index code ≡ port
  unfolding port_index
  index_lem = ap (λ (o : Option ℕ). elim o as (λ x. ℕ) [ none ↦ 0 | some i ↦ i ]) letter_lem

  tris_lem : (s : Sfr) → tris_reg s code ≡ s (0x85 + port)
  unfolding tris_reg
  tris_lem s =
      ap (λ (o : Option ℕ). elim o as (λ x. ℕ) [ none ↦ 0xFF | some i ↦ s (0x85 + i) ]) letter_lem

  latch_lem : (s : Sfr) → port_latch s code ≡ s (5 + port)
  unfolding port_latch
  latch_lem s =
      ap (λ (o : Option ℕ). elim o as (λ x. ℕ) [ none ↦ 0xFF | some i ↦ s (5 + i) ]) letter_lem

  -- What the simulator shows of a pin.
  read_output_lem :
      (s : Sfr) (inputs : Inputs)
      → read_output (s, inputs) code pin ≡ (
          if bit_at s tris_bit == 1
          then (if bit_test (inputs.override port) (2 ^ pin)
                && bit_test (inputs.value port) (2 ^ pin)
              then 1
              else 0)
          else if bit_at s port_bit == 1
          then 1
          else 0)
  unfolding read_output
  read_output_lem s inputs =
      let inside : ltb 7 pin ≡ false = ground (arith, pin_bound) in
      rw
        (
          inside,
          index_lem,
          tris_lem s,
          latch_lem s,
          byte_lem,
          test_lem s tris_bit refl,
          test_lem s port_bit refl,
        )
        refl

  same_lem : same port_bit port_bit ≡ true
  same_lem = rw ((==_iff (5 + port) (5 + port)).1 refl, (==_iff pin pin).1 refl) refl

  tris_same : same tris_bit tris_bit ≡ true
  tris_same = rw ((==_iff (0x85 + port) (0x85 + port)).1 refl, (==_iff pin pin).1 refl) refl

  port_tris : same port_bit tris_bit ≡ false
  port_tris = let apart : (5 + port == 0x85 + port) ≡ false = ground arith in rw apart refl

  -- A bit of a byte that has just been given a level.
  level_test :
      (level : Bool) (v : ℕ) → bit_test (u8 (with_level level v (2 ^ pin))) (2 ^ pin) ≡ level
  level_test level v =
      let at : Location = record { addr = 0; bit = pin } in
      let self : (pin == pin) ≡ true = (==_iff pin pin).1 refl in
      bit_test-pow (u8 (with_level level v (2 ^ pin))) pin
      ∙ by_level level (λ w. u8 (with_level w v (2 ^ pin))) pin
          (bit_at-bit_set (λ a. v) at at pin_bound pin_bound ∙ rw self refl)
          (bit_at-bit_clr (λ a. v) at at pin_bound pin_bound ∙ rw self refl)

  read_pin_lem : (s : Sfr) → read_pin s port (2 ^ pin) ≡ bit_test (s (5 + port)) (2 ^ pin)
  unfolding read_pin
  read_pin_lem s = rw (mask_lem, port_addr_lem) refl

  -- The machine after a pin has been driven from outside.
  abbrev driven_to : Sfr → Inputs → Bool → Sfr × Inputs
  driven_to s inputs level = (
    poke s (5 + port) (with_level level (s (5 + port)) (2 ^ pin)),
    record {
      override = put inputs.override port (bit_or (inputs.override port) (2 ^ pin));
      value = put inputs.value port (with_level level (inputs.value port) (2 ^ pin));
    },
  )

  drive_input_lem :
      (s : Sfr) (inputs : Inputs) (level : Bool)
      → drive_input (s, inputs) code pin level ≡ driven_to s inputs level
  unfolding drive_input
  drive_input_lem s inputs level =
      let inside : ltb 7 pin ≡ false = ground (arith, pin_bound) in
      rw (inside, index_lem, byte_lem) refl

  driven-pin :
      (s : Sfr) (inputs : Inputs) (level : Bool)
      → read_pin (driven_to s inputs level).0 port (2 ^ pin) ≡ level
  driven-pin s inputs level =
      let here : (5 + port == 5 + port) ≡ true = (==_iff (5 + port) (5 + port)).1 refl in
      read_pin_lem (driven_to s inputs level).0 ∙ rw here (level_test level (s (5 + port)))

  driven-output :
      (s : Sfr) (inputs : Inputs) (level : Bool)
      → bit_at s tris_bit ≡ 1
      → read_output (driven_to s inputs level) code pin ≡ (if level then 1 else 0)
  driven-output s inputs level input =
      let self : (port == port) ≡ true = (==_iff port port).1 refl in
      let apart : (0x85 + port == 5 + port) ≡ false = ground arith in
      let over = level_test true (inputs.override port) in
      let value = level_test level (inputs.value port) in
      read_output_lem (driven_to s inputs level).0 (driven_to s inputs level).1
      ∙ rw (apart, input, self, over, value) refl

  -- After EPIC_GPIO_Init as an output and EPIC_GPIO_WritePin the simulator shows the level written; after
  -- EPIC_GPIO_Init as an input and a level from outside, EPIC_GPIO_ReadPin returns that level, and the simulator shows it.
  pub pins-read_back :
      (s : Sfr) (inputs : Inputs) (level : Bool)
      → let out = write_pin (init s port (2 ^ pin) 2) port (2 ^ pin) level in
        let driven = drive_input (init s port (2 ^ pin) 1, inputs) code pin level in
        (read_output (out, inputs) code pin ≡ (if level then 1 else 0))
        × (read_pin driven.0 port (2 ^ pin) ≡ level)
        × (read_output driven code pin ≡ (if level then 1 else 0))
  pins-read_back s inputs level =
      let ready = init s port (2 ^ pin) 2 in
      let out = write_pin ready port (2 ^ pin) level in
      let open_pin = init s port (2 ^ pin) 1 in
      let output : bit_at out tris_bit ≡ 0 =
        write_pin-bit ready level tris_bit pin_bound
        ∙ rw port_tris (
            ap (λ t. bit_at t tris_bit) (init-output_lem s)
            ∙ bit_at-bit_clr s tris_bit tris_bit pin_bound pin_bound
            ∙ rw tris_same refl) in
      let latch : (bit_at out port_bit == 1) ≡ level =
        ap (λ d. d == 1) (write_pin-bit ready level port_bit pin_bound ∙ rw same_lem refl)
        ∙ level_of level in
      let input : bit_at open_pin tris_bit ≡ 1 =
        ap (λ t. bit_at t tris_bit) (init-input_lem s)
        ∙ bit_at-bit_set s tris_bit tris_bit pin_bound pin_bound
        ∙ rw tris_same refl in
      let driven = drive_input_lem open_pin inputs level in
      (
        read_output_lem out inputs ∙ rw (output, latch) refl,
        ap (λ x. read_pin x.0 port (2 ^ pin)) driven ∙ driven-pin open_pin inputs level,
        ap (λ x. read_output x code pin) driven ∙ driven-output open_pin inputs level input,
      )
