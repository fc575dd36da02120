-- ===== src/Swuart/Line.antt =====
-- The line as a signal in time: the level that the matches of a compare unit give it.
use native.Mathlib.Nat.{mul-le-mul_right}
use pic8_hal.Common.{
  ℕ, zero, suc, ◌+◌, ◌-◌, ◌*◌, ◌/◌, ◌≤◌, ◌<◌, ◌≡◌, refl, ap, Bool, true, false, List, [], ◌∷◌, ◌++◌,
  arith, leb, if◌then◌else◌, length, u16,
}
use pic8_hal.Swuart.{Mode, mode_off, compare_set, compare_clear, compare_soft_if, capture_falling}
use pic8_hal.Swuart.Receive.{middle}

-- The level behind a match, where it is `high` before.
abbrev pub level_after : Mode → Bool → Bool
level_after compare_set high = true
level_after compare_clear high = false
level_after compare_soft_if high = high
level_after capture_falling high = high
level_after mode_off high = high

-- The counts of Timer1 from one time to another.
abbrev pub since : ℕ → ℕ → ℕ
since start time = u16 (time + 65536 - start)

-- The level at a time behind `start`, where it is `high` before the matches.
abbrev pub level_at : ℕ → List (ℕ × Mode) → Bool → ℕ → Bool
level_at start [] high time = high
level_at start ((t, mode) ∷ wire) high time =
    let rest = level_at start wire (level_after mode high) time in
    if leb (since start t) (since start time) then rest else high

-- The matches that are later than a time.
abbrev pub to_come : ℕ → List (ℕ × Mode) → ℕ → List (ℕ × Mode)
to_come start [] time = []
to_come start ((t, mode) ∷ wire) time =
    let rest = to_come start wire time in
    if leb (since start t) (since start time) then rest else (t, mode) ∷ wire

abbrev pub clears : Mode → Bool
clears compare_clear = true
clears compare_set = false
clears compare_soft_if = false
clears capture_falling = false
clears mode_off = false

-- The matches from the first falling edge of a high line on.
abbrev pub from_edge : List (ℕ × Mode) → List (ℕ × Mode)
from_edge [] = []
from_edge ((t, mode) ∷ wire) =
    let rest = from_edge wire in if clears mode then (t, mode) ∷ wire else rest

abbrev pub first_time : List (ℕ × Mode) → ℕ
first_time [] = 0
first_time ((t, mode) ∷ wire) = t

-- The level behind the first `n` of some modes.
abbrev pub behind : Bool → List Mode → ℕ → Bool
behind high modes zero = high
behind high [] (suc n) = high
behind high (mode ∷ modes) (suc n) = behind (level_after mode high) modes n

module _ (cycles_per_bit t : ℕ) (some_cycles : 0 < cycles_per_bit) (word : t < 65536) where
  -- Matches one bit period apart, from the bit `k` on.
  abbrev pub spaced : ℕ → List Mode → List (ℕ × Mode)
  spaced k [] = []
  spaced k (mode ∷ modes) = (u16 (t + k * cycles_per_bit), mode) ∷ spaced (suc k) modes

  since_match :
      (k : ℕ)
      → k * cycles_per_bit < 65536
      → since t (u16 (t + k * cycles_per_bit)) ≡ k * cycles_per_bit
  since_match k h = omega (arith, h, word)

  since-middle :
      (i : ℕ)
      → suc i * cycles_per_bit < 65536
      → since t (middle cycles_per_bit t i) ≡ i * cycles_per_bit + cycles_per_bit / 2
  since-middle i h = omega (arith, h, word)

  -- A match is not later than the middle of its own bit and of those behind it.
  passed :
      (k i : ℕ)
      → k ≤ i
      → suc i * cycles_per_bit < 65536
      → leb (since t (u16 (t + k * cycles_per_bit))) (since t (middle cycles_per_bit t i)) ≡ true
  passed k i h fit =
      let mono : k * cycles_per_bit ≤ i * cycles_per_bit = mul-le-mul_right cycles_per_bit h in
      let low : k * cycles_per_bit < 65536 = omega (arith, mono, fit) in
      rw (since_match k low, since-middle i fit) (ground (arith, mono))

  not_passed :
      (k i : ℕ)
      → i < k
      → k * cycles_per_bit < 65536
      → leb (since t (u16 (t + k * cycles_per_bit))) (since t (middle cycles_per_bit t i)) ≡ false
  not_passed k i h fit =
      let next : suc i ≤ k = omega (arith, h) in
      let mono : suc i * cycles_per_bit ≤ k * cycles_per_bit =
        mul-le-mul_right cycles_per_bit next in
      let low : suc i * cycles_per_bit < 65536 = omega (arith, mono, fit) in
      rw (since_match k fit, since-middle i low) (ground (arith, mono, some_cycles))

  -- What comes behind the frame is later than the middle of the bit `i`.
  pub record Later (more : List (ℕ × Mode)) (i : ℕ) : Type 0 where
    pub holds : (high : Bool) → level_at t more high (middle cycles_per_bit t i) ≡ high
    pub stays : to_come t more (middle cycles_per_bit t i) ≡ more

  -- In the middle of the bit `i` the line has the level behind the matches up to that bit.
  pub level_at-spaced :
      (modes : List Mode) (more : List (ℕ × Mode)) (k n i : ℕ) (high : Bool)
      → Later more i
      → suc i ≡ k + n
      → n ≤ length modes
      → (k + length modes) * cycles_per_bit < 65536
      → level_at t (spaced k modes ++ more) high (middle cycles_per_bit t i) ≡ behind high modes n
  level_at-spaced [] more k zero i high later e h fit = later.holds high
  level_at-spaced [] more k (suc n) i high later e h fit = absurd (omega (arith, h))
  level_at-spaced (mode ∷ modes) more k zero i high later e h fit =
      let mono : k * cycles_per_bit ≤ (k + length (mode ∷ modes)) * cycles_per_bit =
        mul-le-mul_right cycles_per_bit (omega arith) in
      rw (not_passed k i (omega (arith, e)) (omega (arith, mono, fit))) refl
  level_at-spaced (mode ∷ modes) more k (suc n) i high later e h fit =
      let ahead : suc i ≤ k + length (mode ∷ modes) = omega (arith, e, h) in
      let mono : suc i * cycles_per_bit ≤ (k + length (mode ∷ modes)) * cycles_per_bit =
        mul-le-mul_right cycles_per_bit ahead in
      let same : (suc k + length modes) * cycles_per_bit
          ≡ (k + length (mode ∷ modes)) * cycles_per_bit =
        ap (λ c. c * cycles_per_bit) (omega arith) in
      rw (passed k i (omega (arith, e)) (omega (arith, mono, fit))) (
        level_at-spaced modes more (suc k) n i (level_after mode high) later (omega (arith, e))
          (omega (arith, h)) (omega (arith, same, fit)))

  -- In the middle of the last bit all matches of the frame have passed.
  pub to_come-spaced :
      (modes : List Mode) (more : List (ℕ × Mode)) (k i : ℕ)
      → Later more i
      → suc i ≡ k + length modes
      → suc i * cycles_per_bit < 65536
      → to_come t (spaced k modes ++ more) (middle cycles_per_bit t i) ≡ more
  to_come-spaced [] more k i later e fit = later.stays
  to_come-spaced (mode ∷ modes) more k i later e fit =
      rw (passed k i (omega (arith, e)) fit)
        (to_come-spaced modes more (suc k) i later (omega (arith, e)) fit)

  pub Later-next :
      (more : List (ℕ × Mode)) (mode : Mode) (k i : ℕ)
      → i < k
      → k * cycles_per_bit < 65536
      → Later ((u16 (t + k * cycles_per_bit), mode) ∷ more) i
  Later-next more mode k i h fit = record {
    holds = λ high. rw (not_passed k i h fit) refl;
    stays = rw (not_passed k i h fit) refl;
  }

  pub Later-none : (i : ℕ) → Later [] i
  Later-none i = record { holds = λ high. refl; stays = refl }
