-- ===== src/Encoder.antt =====
-- epic-encoder/src/encoder.c: x4 quadrature decoding by a Gray-code table. The tick count is an
-- argument of the operations that read it; the position wraps at 32 bits.
mod Track
mod Tests
use pic8_hal.Common.{
  ℕ, ◌+◌, ◌*◌, ◌/◌, ◌^◌, bit_and, bit_or, Bool, false, not, List, [], ◌∷◌, ltb, ◌==◌, if◌then◌else◌,
  get_or, u8, u16,
}
use pic8_hal.Common.Int.{ℤ, pos, negsuc, s32, ◌+ℤ◌}
use pic8_hal.Tick.{elapsed}

-- `encoder_t`
pub record Encoder : Type 0 where
  pub pin_a : ℕ
  pub pin_b : ℕ
  pub min_edge_interval_ms : ℕ
  pub position : ℤ
  pub error_count : ℕ
  pub glitch_count : ℕ
  pub last_edge_tick : ℕ
  pub last_state : ℕ

abbrev pub quad_table : List ℤ
quad_table =
    pos 0
    ∷ negsuc 0
    ∷ pos 1
    ∷ pos 0
    ∷ pos 1
    ∷ pos 0
    ∷ pos 0
    ∷ negsuc 0
    ∷ negsuc 0
    ∷ pos 0
    ∷ pos 0
    ∷ pos 1
    ∷ pos 0
    ∷ pos 1
    ∷ negsuc 0
    ∷ pos 0
    ∷ []

-- `(a << 1) | b`, of two bits.
unfoldable pub extract_state : Encoder → ℕ → ℕ
extract_state enc port_value =
    let a = bit_and (port_value / 2 ^ enc.pin_a) 1 in
    let b = bit_and (port_value / 2 ^ enc.pin_b) 1 in bit_or (a * 2) b

unfoldable pub init : ℕ → ℕ → ℕ → ℕ → ℕ → Encoder
init pin_a pin_b min_edge_interval_ms port_value now =
    let enc = fresh in record enc { last_state = extract_state enc port_value }
  where
    fresh : Encoder
    fresh = record {
      pin_a = pin_a;
      pin_b = pin_b;
      min_edge_interval_ms = min_edge_interval_ms;
      position = pos 0;
      error_count = 0;
      glitch_count = 0;
      last_edge_tick = now;
      last_state = 0;
    }

unfoldable pub reset : Encoder → ℕ → ℕ → Encoder
reset enc port_value now = record enc {
  position = pos 0;
  error_count = 0;
  glitch_count = 0;
  last_edge_tick = now;
  last_state = extract_state enc port_value;
}

-- The step of `QUAD_TABLE` from the last state to the new one.
unfoldable pub quad_delta : ℕ → ℕ → ℤ
quad_delta last new = get_or quad_table (u8 (bit_or (last * 4) new)) (pos 0)

abbrev pub is_zero : ℤ → Bool
is_zero (pos n) = n == 0
is_zero (negsuc n) = false

-- The part of `encoder_update` behind the gate.
unfoldable pub accept : Encoder → ℕ → Encoder
accept enc new_state =
    let delta = quad_delta enc.last_state new_state in
    record enc {
      error_count = if is_zero delta then u16 (enc.error_count + 1) else enc.error_count;
      position = s32 (enc.position +ℤ delta);
      last_state = new_state;
    }

unfoldable pub update : Encoder → ℕ → ℕ → Encoder
unfolding accept
update enc port_value now =
    let new_state = extract_state enc port_value in
    if new_state == enc.last_state
    then enc
    else if not (enc.min_edge_interval_ms == 0)
    then (if ltb (elapsed now enc.last_edge_tick) enc.min_edge_interval_ms
        then record enc { glitch_count = u16 (enc.glitch_count + 1) }
        else accept (record enc { last_edge_tick = now }) new_state)
    else accept enc new_state

-- The reads with interrupts off: the field itself.
unfoldable pub get_position : Encoder → ℤ
get_position enc = enc.position

unfoldable pub get_error_count : Encoder → ℕ
get_error_count enc = enc.error_count

unfoldable pub get_glitch_count : Encoder → ℕ
get_glitch_count enc = enc.glitch_count
