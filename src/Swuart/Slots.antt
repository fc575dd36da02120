-- ===== src/Swuart/Slots.antt =====
-- The registry of channels as EPIC_SWUART_Init and EPIC_SWUART_DeInit leave it.
use pic8_hal.Common.{
  ℕ, ◌≡◌, refl, sym, ap, ◌∙◌, ◌⊎◌, inl, inr, Bool, true, false, not, ◌&&◌, ◌||◌, Option, none, some,
  arith, if◌then◌else◌, Bool-cases,
}
use mathlib.Core.Bool.{false≢true}
use mathlib.Core.Option.{none-ne-some, some-injective}
use mathlib.Core.Path.{subst}
use pic8_hal.Swuart.{mode_off}
use pic8_hal.Swuart.Registry.{
  Board, Pins, same_pins, slot_a_pins, slot_b_pins, is_free, holds, find_slot, set_up, init, let_go,
  deinit, release,
}

-- The boards that calls of the two functions lead to, from one without a channel.
pub data Reaches (two_channels : Bool) (start : Board) : Board → Type 0 where
  at_start : Reaches two_channels start start
  by_init :
      (board board' : Board) (h : ℕ) (p : Pins) (fosc_hz baud : ℕ)
      → Reaches two_channels start board
      → init two_channels board h p fosc_hz baud ≡ some board'
      → Reaches two_channels start board'
  by_deinit :
      (board board' : Board) (h : ℕ)
      → Reaches two_channels start board
      → deinit two_channels board h ≡ some board'
      → Reaches two_channels start board'

-- Timer1 runs while a slot is taken, and the units of a free slot are off.
pub record Consistent (two_channels : Bool) (board : Board) : Type 0 where
  pub timer : board.timer_on ≡ not (is_free board.chan_a && is_free board.chan_b)
  pub second : two_channels ≡ false → board.chan_b ≡ none
  pub off_a :
      is_free board.chan_a ≡ true
      → ((board.units 1).mode ≡ mode_off) × ((board.units 2).mode ≡ mode_off)
  pub off_b :
      is_free board.chan_b ≡ true
      → ((board.units 3).mode ≡ mode_off) × ((board.units 4).mode ≡ mode_off)

-- Whether the timer runs when slot A has been given up, and when slot B has.
timer_without_a :
    (two a b t : Bool)
    → (two ≡ false → b ≡ true)
    → t ≡ not (a && b)
    → (if not two || b then false else t) ≡ not b
timer_without_a true a true t alone e = refl
timer_without_a true true false t alone e = e
timer_without_a true false false t alone e = e
timer_without_a false a true t alone e = refl
timer_without_a false a false t alone e = absurd (false≢true (alone refl))

timer_without_b :
    (two a b t : Bool)
    → b ≡ false
    → t ≡ not (a && b)
    → (if a && (not two || true) then false else t) ≡ not (a && true)
timer_without_b two a true t taken e = absurd (false≢true (sym taken))
timer_without_b true true false t taken e = refl
timer_without_b false true false t taken e = refl
timer_without_b two false false t taken e = e

some_eq : {a b : Board} → some a ≡ some b → a ≡ b
some_eq {a = a} {b = b} e = some-injective a b e

holds-taken : (slot : Option ℕ) (h : ℕ) → holds slot h ≡ true → is_free slot ≡ false
holds-taken none h e = sym e
holds-taken (some other) h e = refl

find_slot-cases :
    (two_channels : Bool) (board : Board) (p : Pins)
    → (find_slot two_channels board p ≡ none)
      ⊎ (find_slot two_channels board p ≡ some false)
      ⊎ (find_slot two_channels board p ≡ some true) × (two_channels ≡ true)
unfolding find_slot
find_slot-cases false board p =
    elim (Bool-cases (same_pins p slot_a_pins && is_free board.chan_a)) [
      | inl a ↦ inr (inl (rw a refl))
      | inr no_a ↦ inl (rw no_a refl)
    ]
find_slot-cases true board p = elim (Bool-cases (same_pins p slot_a_pins && is_free board.chan_a)) [
  | inl a ↦ inr (inl (rw a refl))
  | inr no_a ↦ elim (Bool-cases (same_pins p slot_b_pins && is_free board.chan_b)) [
    | inl b ↦ inr (inr (rw (no_a, b) refl, refl))
    | inr no_b ↦ inl (rw (no_a, no_b) refl)
  ]
]

module _ (two_channels : Bool) (board : Board) (ok : Consistent two_channels board) where
  init_a-Consistent :
      (h fosc_hz baud : ℕ) (p : Pins)
      → Consistent two_channels (record (set_up board h p fosc_hz baud 1 2) { chan_a = some h })
  unfolding set_up
  init_a-Consistent h fosc_hz baud p = record {
    timer = refl;
    second = ok.second;
    off_a = λ e. absurd (false≢true e);
    off_b = ok.off_b;
  }

  init_b-Consistent :
      (h fosc_hz baud : ℕ) (p : Pins)
      → two_channels ≡ true
      → Consistent two_channels (record (set_up board h p fosc_hz baud 3 4) { chan_b = some h })
  unfolding set_up
  init_b-Consistent h fosc_hz baud p two = record {
    timer = elim (Bool-cases (is_free board.chan_a)) [ inl e ↦ rw e refl | inr e ↦ rw e refl ];
    second = λ e. absurd (false≢true (sym e ∙ two));
    off_a = ok.off_a;
    off_b = λ e. absurd (false≢true e);
  }

  release_a-Consistent :
      (h : ℕ)
      → Consistent two_channels
          (let_go two_channels (record (release board 1 2) { chan_a = none }) h)
  unfolding let_go
  release_a-Consistent h = record {
    timer =
        timer_without_a two_channels (is_free board.chan_a) (is_free board.chan_b) board.timer_on
          (λ e. ap is_free (ok.second e)) ok.timer;
    second = ok.second;
    off_a = λ e. (refl, refl);
    off_b = ok.off_b;
  }

  release_b-Consistent :
      (h : ℕ)
      → is_free board.chan_b ≡ false
      → Consistent two_channels
          (let_go two_channels (record (release board 3 4) { chan_b = none }) h)
  unfolding let_go
  release_b-Consistent h taken = record {
    timer =
        timer_without_b two_channels (is_free board.chan_a) (is_free board.chan_b) board.timer_on
          taken ok.timer;
    second = λ e. refl;
    off_a = ok.off_a;
    off_b = λ e. (refl, refl);
  }

  init-Consistent :
      (board' : Board) (h : ℕ) (p : Pins) (fosc_hz baud : ℕ)
      → init two_channels board h p fosc_hz baud ≡ some board'
      → Consistent two_channels board'
  unfolding init
  init-Consistent board' h p fosc_hz baud e = elim (find_slot-cases two_channels board p) [
    | inl refused ↦ absurd (none-ne-some board' (rw (refused, init) at e))
    | inr (inl a) ↦
        let same = some_eq (rw (a, init) at e) in
        subst (Consistent two_channels) same (init_a-Consistent h fosc_hz baud p)
    | inr (inr (b, two)) ↦
        let same = some_eq (rw (b, init) at e) in
        subst (Consistent two_channels) same (init_b-Consistent h fosc_hz baud p two)
  ]

  deinit-Consistent :
      (board' : Board) (h : ℕ)
      → deinit two_channels board h ≡ some board'
      → Consistent two_channels board'
  unfolding deinit
  deinit-Consistent board' h e = elim (Bool-cases (holds board.chan_a h)) [
    | inl a ↦ subst (Consistent two_channels) (some_eq (rw a at e)) (release_a-Consistent h)
    | inr no_a ↦ elim (Bool-cases (two_channels && holds board.chan_b h)) [
      | inl b ↦
          subst (Consistent two_channels) (some_eq (rw (no_a, b) at e))
            (release_b-Consistent h (taken_b b))
      | inr no_b ↦ absurd (none-ne-some board' (rw (no_a, no_b) at e))
    ]
  ]
    where
      taken_b : two_channels && holds board.chan_b h ≡ true → is_free board.chan_b ≡ false
      taken_b b = holds-taken board.chan_b h (ground (arith, b))

-- Whatever the program does with the two functions, Timer1 runs exactly while a channel has a slot,
-- the units of a free slot are off, and a family with one channel never gives out slot B.
pub Reaches-Consistent :
    (two_channels : Bool) (start board : Board)
    → Consistent two_channels start
    → Reaches two_channels start board
    → Consistent two_channels board
Reaches-Consistent two_channels start board ok at_start = ok
Reaches-Consistent two_channels start board ok (by_init before _ h p fosc_hz baud r e) =
    init-Consistent two_channels before (Reaches-Consistent two_channels start before ok r) board h
      p fosc_hz baud e
Reaches-Consistent two_channels start board ok (by_deinit before _ h r e) =
    deinit-Consistent two_channels before (Reaches-Consistent two_channels start before ok r) board
      h e
