-- ===== src/Taskmgr/Period.antt =====
-- How often the tick makes a task ready.
use native.Mathlib.Nat.{mod-add-mod, mod_self, mod-eq_of_lt}
use pic8_hal.Common.{
  ℕ, zero, suc, ◌+◌, ◌-◌, ◌%◌, ◌^◌, ◌<◌, bit_and, bit_or, ◌≡◌, refl, sym, ap, ◌∙◌, inl, inr, Bool,
  true, false, not, arith, ◌==◌, if◌then◌else◌, Bool-cases, bit_and_one, bit_and_seven, bit_and_two,
  bit_or_four, bit_and_251,
}
use pic8_hal.Taskmgr.{
  arm_countdown, Task, has_flag, flag_used, flag_enabled, tick_task, due, clear_ready,
}

-- In use and enabled.
abbrev pub IsActive : Task → Type 0
IsActive t = (has_flag t.flags flag_used ≡ true) × (has_flag t.flags flag_enabled ≡ true)

-- The task after `n` ticks, its ready flag cleared by a round after each.
unfoldable pub ticked : ℕ → Task → Task
ticked zero t = t
ticked (suc n) t = clear_ready (tick_task (ticked n t))

-- Whether tick number `n + 1` makes it due.
unfoldable pub fires : ℕ → Task → Bool
fires n t = due (tick_task (ticked n t))

record Phase (t : Task) (n : ℕ) : Type 0 where
  active : IsActive (ticked n t)
  idle : due (ticked n t) ≡ false
  same_period : (ticked n t).period ≡ t.period
  left : (ticked n t).countdown ≡ t.period - 1 - n % t.period

mod_step : (n p : ℕ) → 0 < p → (n + 1) % p ≡ (if n % p + 1 == p then 0 else n % p + 1)
mod_step n p h = elim (Bool-cases (n % p + 1 == p)) [
  | inl e ↦
      let whole : n % p + 1 ≡ p = ground (arith, e) in
      rw e (sym (mod-add-mod n p 1) ∙ ap (λ k. k % p) whole ∙ mod_self p)
  | inr e ↦ rw e (sym (mod-add-mod n p 1) ∙ mod-eq_of_lt (ground (arith, e)))
]

IsActive-clear_tick :
    (t : Task)
    → IsActive t
    → IsActive (clear_ready (tick_task t)) × (due (clear_ready (tick_task t)) ≡ false)
unfolding tick_task clear_ready due has_flag
IsActive-clear_tick t a = ground (
  arith,
  bit_and_one t.flags,
  bit_and_two t.flags,
  bit_or_four t.flags,
  bit_and_251 t.flags,
  bit_and_251 (bit_or t.flags 4),
  bit_and_one (bit_and t.flags 251),
  bit_and_two (bit_and t.flags 251),
  bit_and_seven (bit_and t.flags 251),
  bit_and_one (bit_and (bit_or t.flags 4) 251),
  bit_and_two (bit_and (bit_or t.flags 4) 251),
  bit_and_seven (bit_and (bit_or t.flags 4) 251),
)

-- A tick makes an active task due exactly when its countdown is 0.
due-tick_task : (t : Task) → IsActive t → due t ≡ false → due (tick_task t) ≡ (t.countdown == 0)
unfolding tick_task due has_flag
due-tick_task t a d = ground (
  arith,
  bit_and_one t.flags,
  bit_and_two t.flags,
  bit_or_four t.flags,
  bit_and_seven t.flags,
  bit_and_seven (bit_or t.flags 4),
)

countdown-tick_task :
    (t : Task)
    → IsActive t
    → ((clear_ready (tick_task t)).period ≡ t.period)
      × ((clear_ready (tick_task t)).countdown ≡ (
          if t.countdown == 0
          then (if not (t.period == 0) then arm_countdown t.period else t.countdown)
          else t.countdown - 1))
unfolding tick_task clear_ready
countdown-tick_task t a = ground arith

module _ (t : Task) (active : IsActive t) (idle : due t ≡ false) (pos : 0 < t.period)
    (word : t.period < 2 ^ 16) (armed : t.countdown ≡ arm_countdown t.period) where
  ticked-Phase : (n : ℕ) → Phase t n
  unfolding ticked arm_countdown
  ticked-Phase zero = record {
    active = active;
    idle = idle;
    same_period = refl;
    left = ground arith;
  }
  ticked-Phase (suc n) =
      let ph = ticked-Phase n in
      let next = IsActive-clear_tick (ticked n t) ph.active in
      let c = countdown-tick_task (ticked n t) ph.active in
      record {
        active = next.0;
        idle = next.1;
        same_period = c.0 ∙ ph.same_period;
        left = c.1 ∙ ground (arith, ph.left, ph.same_period, mod_step n t.period pos);
      }

  -- A periodic task that has just been armed becomes due at every tick whose number is a multiple
  -- of its period, and at no other, if each round clears its ready flag before the next tick.
  pub fires_iff : (n : ℕ) → fires n t ≡ ((n + 1) % t.period == 0)
  unfolding fires
  fires_iff n =
      let ph = ticked-Phase n in
      due-tick_task (ticked n t) ph.active ph.idle
      ∙ ground (arith, ph.left, mod_step n t.period pos)
