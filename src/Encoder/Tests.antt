-- ===== src/Encoder/Tests.antt =====
-- Runs of the decoder, and its theorem on a short turn.
use pic8_hal.Common.{ℕ, zero, suc, ◌<◌, ◌≡◌, refl, List, [], ◌∷◌, arith}
use pic8_hal.Common.Int.{pos, negsuc, s32, ◌+ℤ◌}
use pic8_hal.Encoder.{Encoder, update, extract_state, quad_delta, get_position, get_error_count}
use pic8_hal.Encoder.Track.{stay, forth, back, Seen, net, gray, run, position-run}

-- Pins 4 and 2 of the port; other bits are noise.
abbrev port : ℕ → ℕ
port zero = 0x80
port (suc zero) = 0x90
port (suc (suc zero)) = 0x94
port _ = 0x84

abbrev fresh : Encoder
fresh = record {
  pin_a = 4;
  pin_b = 2;
  min_edge_interval_ms = 0;
  position = pos 0;
  error_count = 0;
  glitch_count = 0;
  last_edge_tick = 0;
  last_state = 0;
}

abbrev turned : List Seen
turned = (forth, 1) ∷ (forth, 2) ∷ (stay, 3) ∷ (back, 4) ∷ (forth, 5) ∷ []

position-turned : get_position (run port 0 fresh turned) ≡ pos 2
unfolding get_position run update extract_state quad_delta s32 ◌+ℤ◌
position-turned = refl

-- Both lines flip at once: an error is counted and the position stays.
missed_edge :
    (get_position (update fresh 0x94 9) ≡ pos 0) × (get_error_count (update fresh 0x94 9) ≡ 1)
unfolding get_position get_error_count update extract_state quad_delta s32 ◌+ℤ◌
missed_edge = (refl, refl)

-- The count of a shaft that turns on at the greatest position wraps to the least.
position-wraps :
    let enc = record fresh { position = pos 0x7fff_ffff } in
    get_position (update enc (port 1) 1) ≡ negsuc 0x7fff_ffff
unfolding get_position update extract_state quad_delta s32 ◌+ℤ◌
position-wraps = refl

shown : (k : ℕ) → k < 4 → extract_state fresh (port k) ≡ gray k
unfolding extract_state
shown zero h = refl
shown (suc zero) h = refl
shown (suc (suc zero)) h = refl
shown (suc (suc (suc zero))) h = refl
shown (suc (suc (suc (suc k)))) h = absurd (omega arith)

position-run_example :
    (get_position (run port 0 fresh turned) ≡ s32 (get_position fresh +ℤ net turned))
    × (get_error_count (run port 0 fresh turned) ≡ get_error_count fresh)
unfolding s32
position-run_example =
    position-run port 0 fresh turned (omega arith)
      (record { gate_off = refl; last = refl; word = refl; shows = shown })
