-- ===== src/Encoder/Track.antt =====
-- The decoder follows a shaft: its position changes with the shaft's, edge by edge.
use pic8_hal.Common.{
  ℕ, zero, suc, ◌+◌, ◌%◌, ◌<◌, ◌≡◌, refl, sym, ap, ◌∙◌, ◌≢◌, ◌⊎◌, inl, inr, false, List, [], ◌∷◌,
  arith, ◌==◌, if◌then◌else◌,
}
use pic8_hal.Common.Int.{+ℤ_assoc, ℤ, pos, negsuc, s32, s32-add, ◌+ℤ◌}
use pic8_hal.Encoder.{
  get_error_count, is_zero, get_position, accept, extract_state, update, Encoder, quad_delta,
}

-- What the lines A and B show at a quarter of a turn, `(A << 1) | B`, in the direction of `+1`.
abbrev pub gray : ℕ → ℕ
gray zero = 0
gray (suc zero) = 2
gray (suc (suc zero)) = 3
gray _ = 1

-- From one sample to the next the shaft stays, goes one edge on or one edge back.
pub data Move : Type 0 where
  stay forth back : Move

abbrev pub turn : Move → ℕ → ℕ
turn stay phase = phase
turn forth phase = (phase + 1) % 4
turn back phase = (phase + 3) % 4

abbrev pub step_of : Move → ℤ
step_of stay = pos 0
step_of forth = pos 1
step_of back = negsuc 0

-- A sample: how the shaft has moved since the last one, and the tick count.
abbrev pub Seen : Type 0
Seen = Move × ℕ

abbrev pub net : List Seen → ℤ
net [] = pos 0
net ((m, now) ∷ later) = step_of m +ℤ net later

abbrev pub final_phase : ℕ → List Seen → ℕ
final_phase phase [] = phase
final_phase phase ((m, now) ∷ later) = final_phase (turn m phase) later

turn-lt : (m : Move) (phase : ℕ) → phase < 4 → turn m phase < 4
turn-lt stay phase h = h
turn-lt forth phase h = omega arith
turn-lt back phase h = omega arith

below_four : (phase : ℕ) → phase < 4 → (phase ≡ 0) ⊎ ((phase ≡ 1) ⊎ ((phase ≡ 2) ⊎ (phase ≡ 3)))
below_four phase h = omega arith

-- The table gives the step of one edge, at each phase.
delta_of_move :
    (m : Move) (phase : ℕ) → phase < 4 → quad_delta (gray phase) (gray (turn m phase)) ≡ step_of m
unfolding quad_delta
delta_of_move m phase h = elim (below_four phase h) [
  | inl e ↦ rw e (at_zero m)
  | inr (inl e) ↦ rw e (at_one m)
  | inr (inr (inl e)) ↦ rw e (at_two m)
  | inr (inr (inr e)) ↦ rw e (at_three m)
]
  where
    at_zero : (m : Move) → quad_delta (gray 0) (gray (turn m 0)) ≡ step_of m
    at_zero stay = refl
    at_zero forth = refl
    at_zero back = refl

    at_one : (m : Move) → quad_delta (gray 1) (gray (turn m 1)) ≡ step_of m
    at_one stay = refl
    at_one forth = refl
    at_one back = refl

    at_two : (m : Move) → quad_delta (gray 2) (gray (turn m 2)) ≡ step_of m
    at_two stay = refl
    at_two forth = refl
    at_two back = refl

    at_three : (m : Move) → quad_delta (gray 3) (gray (turn m 3)) ≡ step_of m
    at_three stay = refl
    at_three forth = refl
    at_three back = refl

gray-turn_ne : (m : Move) (phase : ℕ) → phase < 4 → m ≢ stay → gray phase ≢ gray (turn m phase)
gray-turn_ne stay phase h ne = absurd (ne refl)
gray-turn_ne forth phase h ne = ground (arith, below_four phase h)
gray-turn_ne back phase h ne = ground (arith, below_four phase h)

-- With the gate off, `encoder_update` takes every change of state.
update_open :
    (enc : Encoder) (v now : ℕ)
    → enc.min_edge_interval_ms ≡ 0
    → update enc v now
      ≡ (if extract_state enc v == enc.last_state then enc else accept enc (extract_state enc v))
unfolding update
update_open enc v now e = ground arith

add-zero : (a : ℤ) → a +ℤ pos 0 ≡ a
unfolding ◌+ℤ◌
add-zero a = ground arith

s32_twice : (a : ℤ) → s32 (s32 a) ≡ s32 a
s32_twice a = ap s32 (sym (add-zero (s32 a))) ∙ s32-add a (pos 0) ∙ ap s32 (add-zero a)

held : {a : ℤ} → s32 a ≡ a → a ≡ s32 (a +ℤ pos 0)
held {a} e = sym (ap s32 (add-zero a) ∙ e)

module _ (port : ℕ → ℕ) where
  -- The port bytes of a shaft: `port` gives one for each phase, and the samples follow the moves.
  unfoldable pub run : ℕ → Encoder → List Seen → Encoder
  run phase enc [] = enc
  run phase enc ((m, now) ∷ later) = run (turn m phase) (update enc (port (turn m phase)) now) later

  -- The gate is off, the position is an int32_t, the last state is the one that the shaft shows at `phase`, and `port` shows
  -- each phase on the pins of this encoder.
  pub record Follows (phase : ℕ) (enc : Encoder) : Type 0 where
    pub gate_off : enc.min_edge_interval_ms ≡ 0
    pub last : enc.last_state ≡ gray phase
    pub word : s32 enc.position ≡ enc.position
    pub shows : (k : ℕ) → k < 4 → extract_state enc (port k) ≡ gray k

  -- One sample: the position moves with the shaft, and no error is counted.
  record Moved (m : Move) (phase : ℕ) (enc : Encoder) (out : Encoder) : Type 0 where
    follows : Follows (turn m phase) out
    moved : out.position ≡ s32 (enc.position +ℤ step_of m)
    no_error : out.error_count ≡ enc.error_count

  -- An edge is accepted with the table's step for it, which is not zero.
  edge-Moved :
      (m : Move) (phase now : ℕ) (enc : Encoder)
      → phase < 4
      → Follows phase enc
      → m ≢ stay
      → is_zero (step_of m) ≡ false
      → Moved m phase enc (update enc (port (turn m phase)) now)
  edge-Moved m phase now enc h f ne nz = rw accepted (record {
    follows = record {
      gate_off = unfold accept in f.gate_off;
      last = unfold accept in refl;
      word =
          unfold accept in
          s32_twice (enc.position +ℤ quad_delta enc.last_state (gray (turn m phase)));
      shows = λ k hk. same_pins k ∙ f.shows k hk;
    };
    moved = unfold accept in ap (λ d. s32 (enc.position +ℤ d)) delta;
    no_error = unfold accept in rw (delta, nz);
  })
    where
      shown : extract_state enc (port (turn m phase)) ≡ gray (turn m phase)
      shown = f.shows (turn m phase) (turn-lt m phase h)

      accepted : update enc (port (turn m phase)) now ≡ accept enc (gray (turn m phase))
      accepted = ground (
        arith,
        update_open enc (port (turn m phase)) now f.gate_off,
        shown,
        f.last,
        gray-turn_ne m phase h ne,
      )

      delta : quad_delta enc.last_state (gray (turn m phase)) ≡ step_of m
      delta = rw f.last (delta_of_move m phase h)

      same_pins :
          (k : ℕ)
          → extract_state (accept enc (gray (turn m phase))) (port k) ≡ extract_state enc (port k)
      same_pins k = unfold accept extract_state in refl

  update-Moved :
      (m : Move) (phase now : ℕ) (enc : Encoder)
      → phase < 4
      → Follows phase enc
      → Moved m phase enc (update enc (port (turn m phase)) now)
  update-Moved stay phase now enc h f =
      rw (unmoved) (record { follows = f; moved = held f.word; no_error = refl })
    where
      unmoved : update enc (port phase) now ≡ enc
      unmoved = ground (arith, update_open enc (port phase) now f.gate_off, f.shows phase h, f.last)
  update-Moved forth phase now enc h f = edge-Moved forth phase now enc h f (λ e. cc e) refl
  update-Moved back phase now enc h f = edge-Moved back phase now enc h f (λ e. cc e) refl

  run-Moved :
      (phase : ℕ) (enc : Encoder) (later : List Seen)
      → phase < 4
      → Follows phase enc
      → Follows (final_phase phase later) (run phase enc later)
        × ((run phase enc later).position ≡ s32 (enc.position +ℤ net later))
        × ((run phase enc later).error_count ≡ enc.error_count)
  unfolding run
  run-Moved phase enc [] h f = (f, held f.word, refl)
  run-Moved phase enc ((m, now) ∷ later) h f =
      let one = update-Moved m phase now enc h f in
      let rest =
        run-Moved (turn m phase) (update enc (port (turn m phase)) now) later (turn-lt m phase h)
          one.follows in
      (
        rest.0,
        rest.1
            ∙ ap (λ p. s32 (p +ℤ net later)) one.moved
            ∙ s32-add (enc.position +ℤ step_of m) (net later)
            ∙ ap s32 (+ℤ_assoc enc.position (step_of m) (net later)),
        rest.2 ∙ one.no_error,
      )

  -- With the edge-interval gate off, an encoder whose samples follow a shaft that moves by at most
  -- one edge between samples counts the shaft's net movement, wrapped to 32 bits, and counts no error.
  pub position-run :
      (phase : ℕ) (enc : Encoder) (later : List Seen)
      → phase < 4
      → Follows phase enc
      → (get_position (run phase enc later) ≡ s32 (get_position enc +ℤ net later))
        × (get_error_count (run phase enc later) ≡ get_error_count enc)
  unfolding get_position get_error_count
  position-run phase enc later h f = let r = run-Moved phase enc later h f in (r.1, r.2)
