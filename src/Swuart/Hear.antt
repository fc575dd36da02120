-- ===== src/Swuart/Hear.antt =====
-- A receiver on a line: its handler reads the level that the line has at the time of the match.
use pic8_hal.Common.{
  ℕ, zero, suc, ◌+◌, ◌/◌, ◌≡◌, refl, sym, ap, ◌∙◌, Bool, true, false, List, [], ◌∷◌, ◌++◌, arith,
  if◌then◌else◌, length, u16,
}
use pic8_hal.Swuart.{
  Handle, Ccp, Mode, mode_off, compare_set, compare_clear, compare_soft_if, capture_falling,
  rx_idle, rx_confirm_start, rx_capture_event, on_edge, on_confirm,
}
use pic8_hal.Swuart.Receive.{
  byte_of, next_middle, middle, shifted, into, taken, stopped, on_sample-taken, on_sample-stopped,
  shifted-byte_of,
}

-- The unit waits for a falling edge.
abbrev pub waits : Mode → Bool
waits capture_falling = true
waits compare_soft_if = false
waits compare_set = false
waits compare_clear = false
waits mode_off = false

module _ (cycles_per_bit : ℕ) (line : ℕ → Bool) where
  -- The calls of the handler at the matches of its unit, at most `n`, until it waits for an edge.
  unfoldable pub hear : ℕ → Handle → Ccp → Handle × Ccp
  hear zero h unit = (h, unit)
  hear (suc n) h unit =
      let (h', unit') = rx_capture_event cycles_per_bit 0 (line unit.compare) h unit in
      let rest = hear n h' unit' in if waits unit.mode then (h, unit) else rest

  -- A falling edge at `edge`, and what follows it until the next edge is waited for.
  unfoldable pub hear_frame : ℕ → Handle → Ccp → Handle × Ccp
  hear_frame edge h unit =
      let (h', unit') = rx_capture_event cycles_per_bit edge false h unit in hear 10 h' unit'

  hear-next :
      (n : ℕ) (h h' : Handle) (unit unit' : Ccp) {r : Handle × Ccp}
      → waits unit.mode ≡ false
      → rx_capture_event cycles_per_bit 0 (line unit.compare) h unit ≡ (h', unit')
      → hear n h' unit' ≡ r
      → hear (suc n) h unit ≡ r
  unfolding hear
  hear-next n h h' unit unit' w e rest = rw w (ap (λ x. hear n x.0 x.1) e ∙ rest)

  hear-none : (h : Handle) (unit : Ccp) → hear 0 h unit ≡ (h, unit)
  unfolding hear
  hear-none h unit = refl

  module _ (edge : ℕ) (h : Handle) where
    abbrev here : ℕ → ℕ
    here = middle cycles_per_bit edge

    abbrev soft : ℕ → Ccp
    soft k = record { compare = here k; mode = compare_soft_if }

    -- The line has these levels in the middles of the bits from `k` on.
    abbrev pub Shown : ℕ → List Bool → Type 0
    Shown k [] = Unit
    Shown k (b ∷ bits) = (line (here k) ≡ b) × Shown (suc k) bits

    hear-bits :
        (bits : List Bool) (k s : ℕ) (stop : Bool)
        → k + length bits ≡ 8
        → Shown (suc k) (bits ++ stop ∷ [])
        → hear (suc (length bits)) (taken cycles_per_bit edge h k s) (soft (suc k)) ≡ (
          stopped cycles_per_bit edge h stop (shifted s bits),
          record { compare = here 9; mode = capture_falling },
        )
    hear-bits [] k s stop e shown =
        let all : k ≡ 8 = omega (arith, e) in
        let stopping : rx_capture_event cycles_per_bit 0 (line (here (suc k)))
              (taken cycles_per_bit edge h k s) (soft (suc k))
            ≡ (
              stopped cycles_per_bit edge h stop s,
              record { compare = here 9; mode = capture_falling },
            ) =
          rw (shown.0, all) (on_sample-stopped cycles_per_bit edge h s stop (soft 9)) in
        hear-next 0 (taken cycles_per_bit edge h k s) (stopped cycles_per_bit edge h stop s)
          (soft (suc k)) (record { compare = here 9; mode = capture_falling }) refl stopping
          (hear-none _ _)
    hear-bits (b ∷ bits) k s stop e shown =
        let rest = hear-bits bits (suc k) (into s b) stop (omega (arith, e)) shown.1 in
        let sampled : rx_capture_event cycles_per_bit 0 (line (here (suc k)))
              (taken cycles_per_bit edge h k s) (soft (suc k))
            ≡ (taken cycles_per_bit edge h (suc k) (into s b), soft (suc (suc k))) =
          ap
            (λ high.
              rx_capture_event cycles_per_bit 0 high (taken cycles_per_bit edge h k s)
                (soft (suc k)))
            shown.0
          ∙ on_sample-taken cycles_per_bit edge h k s b (soft (suc k)) (omega (arith, e)) in
        hear-next (suc (length bits)) (taken cycles_per_bit edge h k s)
          (taken cycles_per_bit edge h (suc k) (into s b)) (soft (suc k)) (soft (suc (suc k))) refl
          sampled rest

    armed_lem :
        (unit : Ccp)
        → h.rx_state ≡ rx_idle
        → rx_capture_event cycles_per_bit edge false h unit
          ≡ (record h { rx_deadline = here 0; rx_state = rx_confirm_start }, soft 0)
    unfolding rx_capture_event on_edge
    armed_lem unit idle =
        let first : u16 (edge + cycles_per_bit / 2) ≡ here 0 = omega arith in rw (idle, first) refl

    confirmed_lem :
        rx_capture_event cycles_per_bit 0 false
          (record h { rx_deadline = here 0; rx_state = rx_confirm_start })
          (soft 0)
        ≡ (taken cycles_per_bit edge h 0 0, soft 1)
    unfolding rx_capture_event on_confirm
    confirmed_lem = simp (next_middle cycles_per_bit edge 0)

    -- Behind a start bit that is low in its middle, the byte of the eight bits in whose middles the line has
    -- the levels `bits` meets the outcome of the stop bit.
    pub hear_frame-levels :
        (bits : List Bool) (stop : Bool) (unit : Ccp)
        → h.rx_state ≡ rx_idle
        → length bits ≡ 8
        → Shown 0 (false ∷ bits ++ stop ∷ [])
        → hear_frame edge h unit ≡ (
          stopped cycles_per_bit edge h stop (byte_of bits),
          record { compare = here 9; mode = capture_falling },
        )
    unfolding hear_frame
    hear_frame-levels bits stop unit idle eight shown =
        let pending : Handle = record h { rx_deadline = here 0; rx_state = rx_confirm_start } in
        let armed : rx_capture_event cycles_per_bit edge false h unit ≡ (pending, soft 0) =
          armed_lem unit idle in
        let confirmed : rx_capture_event cycles_per_bit 0 (line (here 0)) pending (soft 0)
            ≡ (taken cycles_per_bit edge h 0 0, soft 1) =
          ap (λ high. rx_capture_event cycles_per_bit 0 high pending (soft 0)) shown.0
          ∙ confirmed_lem in
        let nine : suc (length bits) ≡ 9 = omega (arith, eight) in
        let rest : hear 9 (taken cycles_per_bit edge h 0 0) (soft 1) ≡ (
          stopped cycles_per_bit edge h stop (byte_of bits),
          record { compare = here 9; mode = capture_falling },
        ) =
          ap (λ n. hear n (taken cycles_per_bit edge h 0 0) (soft 1)) (sym nine)
          ∙ hear-bits bits 0 0 stop (omega (arith, eight)) shown.1
          ∙ ap
              (λ v. (
                stopped cycles_per_bit edge h stop v,
                record { compare = here 9; mode = capture_falling },
              ))
              (shifted-byte_of bits eight) in
        ap (λ x. hear 10 x.0 x.1) armed
        ∙ hear-next 9 pending (taken cycles_per_bit edge h 0 0) (soft 0) (soft 1) refl confirmed
            rest
