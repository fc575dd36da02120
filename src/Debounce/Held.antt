-- ===== src/Debounce/Held.antt =====
-- The debouncer against the history of its samples.
use pic8_hal.Common.{
  ℕ, ◌≤◌, bit_and, bit_or, ◌≡◌, ◌↔◌, Bool, true, false, not, Option, some, List, [], ◌∷◌, arith,
  if◌then◌else◌, bit_and_one, bit_and_two, bit_or_one, bit_or_two, bit_and_254, bit_and_253,
}
use mathlib.Core.Option
use pic8_hal.Tick.{elapsed}
use pic8_hal.Debounce.{
  Debounce, Sample, Event, none, pressed, released, differ, get_candidate, get_stable,
  set_candidate, set_stable, init, poll, is_active,
}

-- The flag helpers act on their own bit only.
candidate-set_candidate : (f : ℕ) (b : Bool) → get_candidate (set_candidate f b) ≡ b
unfolding get_candidate set_candidate
candidate-set_candidate f true = ground (arith, bit_and_two (bit_or f 2), bit_or_two f)
candidate-set_candidate f false = ground (arith, bit_and_two (bit_and f 253), bit_and_253 f)

stable-set_candidate : (f : ℕ) (b : Bool) → get_stable (set_candidate f b) ≡ get_stable f
unfolding get_stable set_candidate
stable-set_candidate f true = ground (arith, bit_and_one (bit_or f 2), bit_or_two f, bit_and_one f)
stable-set_candidate f false =
    ground (arith, bit_and_one (bit_and f 253), bit_and_253 f, bit_and_one f)

stable-set_stable : (f : ℕ) (b : Bool) → get_stable (set_stable f b) ≡ b
unfolding get_stable set_stable
stable-set_stable f true = ground (arith, bit_and_one (bit_or f 1), bit_or_one f)
stable-set_stable f false = ground (arith, bit_and_one (bit_and f 254), bit_and_254 f)

candidate-set_stable : (f : ℕ) (b : Bool) → get_candidate (set_stable f b) ≡ get_candidate f
unfolding get_candidate set_stable
candidate-set_stable f true = ground (arith, bit_and_two (bit_or f 1), bit_or_one f, bit_and_two f)
candidate-set_stable f false =
    ground (arith, bit_and_two (bit_and f 254), bit_and_254 f, bit_and_two f)

module _ (ms : ℕ) (start : Sample) where
  -- The state after `init` at `start` and a poll of each later sample, the newest first.
  unfoldable pub after : List Sample → Debounce
  after [] = init ms start
  after (s ∷ later) = (poll (after later) s).0

module _ (start : Sample) where
  -- Since when the input has been seen at level `b` without a break, if the newest sample is `b`.
  unfoldable pub held_since : Bool → List Sample → Option ℕ
  held_since b [] = if differ start.raw b then Option.none else some start.now
  held_since b (s ∷ later) =
      if differ s.raw b then Option.none else some (Option.get_or (held_since b later) s.now)

module _ (ms : ℕ) (start : Sample) where
  -- The state tells the level of the newest sample, and since when it has been the same.
  record Tracks (later : List Sample) : Type 0 where
    window : (after ms start later).debounce_ms ≡ ms
    at_true : held_since start true later ≡ (
        if get_candidate (after ms start later).flags
        then some (after ms start later).candidate_since
        else Option.none)
    at_false : held_since start false later ≡ (
        if get_candidate (after ms start later).flags
        then Option.none
        else some (after ms start later).candidate_since)

  after-Tracks : (later : List Sample) → Tracks later
  unfolding after held_since init poll
  after-Tracks [] = ground (arith, candidate-set_candidate (set_stable 0 start.raw) start.raw)
  after-Tracks (s ∷ later) = ground (
    arith,
    after-Tracks later,
    candidate-set_candidate (after ms start later).flags s.raw,
    candidate-set_stable (after ms start later).flags s.raw,
  )

  -- What a poll reports when the input has become stable at level `b`.
  abbrev pub event_at : Bool → Event
  event_at true = pressed
  event_at false = released

  -- The input is at `b`, the stable state is not, and every sample has been at `b` from one
  -- that was taken at the tick `t`, before the present one, with at least `debounce_ms` ticks from `t`
  -- to the present sample.
  abbrev pub IsStableAt : Bool → List Sample → Sample → Type 0
  IsStableAt b later s =
      (s.raw ≡ b)
      × (is_active (after ms start later) ≡ not b)
      × (t : ℕ) × (held_since start b later ≡ some t)
      × (ms ≤ elapsed s.now t)

  IsStableAt-event :
      (b : Bool) (later : List Sample) (s : Sample)
      → IsStableAt b later s
      → (poll (after ms start later) s).1 ≡ event_at b
  unfolding poll is_active
  IsStableAt-event true later s h = ground (arith, after-Tracks later)
  IsStableAt-event false later s h = ground (arith, after-Tracks later)

  event-IsStableAt :
      (b : Bool) (later : List Sample) (s : Sample)
      → (poll (after ms start later) s).1 ≡ event_at b
      → IsStableAt b later s
  unfolding poll is_active
  event-IsStableAt true later s h = (
    ground (arith, after-Tracks later),
    ground (arith, after-Tracks later),
    (after ms start later).candidate_since,
    ground (arith, after-Tracks later),
    ground (arith, after-Tracks later),
  )
  event-IsStableAt false later s h = (
    ground (arith, after-Tracks later),
    ground (arith, after-Tracks later),
    (after ms start later).candidate_since,
    ground (arith, after-Tracks later),
    ground (arith, after-Tracks later),
  )

  -- After any history of samples a poll reports a press exactly when the sample is active, the
  -- stable state was inactive, and every sample has been active from one that was taken at some tick
  -- `t`, before the present one, with at least `debounce_ms` ticks from `t` to the present sample; and
  -- a release the other way round.
  pub event_iff :
      (b : Bool) (later : List Sample) (s : Sample)
      → ((poll (after ms start later) s).1 ≡ event_at b) ↔ IsStableAt b later s
  event_iff b later s = (event-IsStableAt b later s, IsStableAt-event b later s)

  -- The stable state after a poll: the level of the event that the poll reports, else as before.
  is_active-poll :
      (later : List Sample) (s : Sample)
      → is_active (poll (after ms start later) s).0 ≡ (elim (poll (after ms start later) s).1 [
        | none ↦ is_active (after ms start later)
        | pressed ↦ true
        | released ↦ false
      ])
  unfolding poll is_active
  is_active-poll later s = ground (
    arith,
    stable-set_candidate (after ms start later).flags s.raw,
    stable-set_stable (after ms start later).flags s.raw,
  )
