-- ===== src/Pid/Bounds.antt =====
-- The ranges that `pid_update` keeps.
use pic8_hal.Common.{◌/◌, ◌≡◌, refl, ap, ◌∙◌, ◌⊎◌, inl, inr, true, arith, Bool-cases}
use pic8_hal.Common.Int.{s16, s32, ℤ, pos, negsuc, ◌+ℤ◌, ◌≤ℤ◌, ltb_ℤ}
use pic8_hal.Pid.{
  Pid, Mode, auto, manual, shl8, sar8, clamp, error_of, p_term, d_term, update_manual, update_auto,
  update,
}

abbrev pub InRange : ℤ → ℤ → ℤ → Type 0
InRange lo hi x = (lo ≤ℤ x) × (x ≤ℤ hi)

pub clamp_range : (lo hi x : ℤ) → lo ≤ℤ hi → InRange lo hi (clamp lo hi x)
unfolding clamp
clamp_range lo hi x h = elim (Bool-cases (ltb_ℤ x lo)) [
  | inl e ↦ rw e (ground arith)
  | inr e ↦ rw e (ground arith)
]

pub clamp_self : (lo hi x : ℤ) → InRange lo hi x → clamp lo hi x ≡ x
unfolding clamp
clamp_self lo hi x h = elim (Bool-cases (ltb_ℤ x lo)) [
  | inl e ↦ absurd (ground arith)
  | inr e ↦ rw e (ground arith)
]

pub shl8_mono : (a b : ℤ) → a ≤ℤ b → shl8 a ≤ℤ shl8 b
shl8_mono a b h = ground arith

pub sar8-shl8 : (a : ℤ) → sar8 (shl8 a) ≡ a
sar8-shl8 (pos n) = ap pos (omega arith)
sar8-shl8 (negsuc n) = ap negsuc (omega arith)

-- The casts leave what fits as it is.
pub s16_self : (a : ℤ) → InRange (negsuc 32767) (pos 32767) a → s16 a ≡ a
unfolding s16
s16_self (pos n) h = ground arith
s16_self (negsuc n) h = ground arith

pub s32_self : (a : ℤ) → InRange (negsuc 0x7fff_ffff) (pos 0x7fff_ffff) a → s32 a ≡ a
unfolding s32
s32_self (pos n) h = ground arith
s32_self (negsuc n) h = ground arith

pub Mode-cases : (m : Mode) → (m ≡ auto) ⊎ (m ≡ manual)
Mode-cases auto = inl refl
Mode-cases manual = inr refl

-- The history is updated before the branch on the mode.
abbrev pub seen : Pid → ℤ → Pid
seen pid measurement = record pid { have_prev_measurement = true; prev_measurement = measurement }

pub update-auto :
    (pid : Pid) (setpoint measurement : ℤ)
    → pid.mode ≡ auto
    → update pid setpoint measurement
      ≡ update_auto
          (seen pid measurement)
          (error_of setpoint measurement)
          (p_term pid setpoint measurement)
          (d_term pid measurement)
unfolding update
update-auto pid setpoint measurement e = ground arith

pub update-manual :
    (pid : Pid) (setpoint measurement : ℤ)
    → pid.mode ≡ manual
    → update pid setpoint measurement
      ≡ update_manual
          (seen pid measurement)
          (p_term pid setpoint measurement)
          (d_term pid measurement)
unfolding update
update-manual pid setpoint measurement e = ground arith

-- The output and the integrator are between their rails.
abbrev pub WithinRails : Pid → Pid × ℤ → Type 0
WithinRails pid (after, output) =
    InRange pid.out_min pid.out_max output
    × InRange (shl8 pid.out_min) (shl8 pid.out_max) after.integrator_q8

update_auto-WithinRails :
    (pid : Pid) (error p_q8 d_q8 : ℤ)
    → pid.out_min ≤ℤ pid.out_max
    → WithinRails pid (update_auto pid error p_q8 d_q8)
unfolding update_auto
update_auto-WithinRails pid error p_q8 d_q8 h =
    (clamp_range _ _ _ h, clamp_range _ _ _ (shl8_mono pid.out_min pid.out_max h))

update_manual-WithinRails :
    (pid : Pid) (p_q8 d_q8 : ℤ)
    → pid.out_min ≤ℤ pid.out_max
    → WithinRails pid (update_manual pid p_q8 d_q8)
unfolding update_manual
update_manual-WithinRails pid p_q8 d_q8 h =
    (clamp_range _ _ _ h, clamp_range _ _ _ (shl8_mono pid.out_min pid.out_max h))

-- In both modes, and whatever the 32-bit sums wrap to, the output lies in `[out_min, out_max]` and
-- the integrator in `[out_min << 8, out_max << 8]`, where `out_min ≤ out_max`.
pub update-WithinRails :
    (pid : Pid) (setpoint measurement : ℤ)
    → pid.out_min ≤ℤ pid.out_max
    → WithinRails pid (update pid setpoint measurement)
update-WithinRails pid setpoint measurement h = elim (Mode-cases pid.mode) [
  | inl e ↦ rw (update-auto pid setpoint measurement e) (update_auto-WithinRails _ _ _ _ h)
  | inr e ↦ rw (update-manual pid setpoint measurement e) (update_manual-WithinRails _ _ _ h)
]

-- The sum `p_q8 + integrator_q8 + d_q8` of an automatic update, as an integer.
abbrev pub control_sum : Pid → ℤ → ℤ → ℤ
control_sum pid setpoint measurement =
    p_term pid setpoint measurement
    +ℤ (update pid setpoint measurement).0.integrator_q8
    +ℤ d_term pid measurement

output-auto :
    (pid : Pid) (setpoint measurement : ℤ)
    → pid.mode ≡ auto
    → (update pid setpoint measurement).1
      ≡ clamp pid.out_min pid.out_max (s16 (sar8 (s32 (control_sum pid setpoint measurement))))
output-auto pid setpoint measurement e =
    rw (update-auto pid setpoint measurement e) (unfold update_auto in refl)

fits_16 : (z : ℤ) → InRange (negsuc 0x7f_ffff) (pos 0x7f_ffff) z → s16 (sar8 (s32 z)) ≡ sar8 z
fits_16 (pos n) h = rw (s32_self (pos n) (omega arith)) (s16_self (pos (n / 256)) (omega arith))
fits_16 (negsuc n) h =
    rw (s32_self (negsuc n) (omega arith)) (s16_self (negsuc (n / 256)) (omega arith))

-- In the automatic mode the output is the sum of the three terms, divided by 256 and rounded down,
-- clamped to `[out_min, out_max]`, as long as the sum lies in `[-2^23, 2^23)`.
update-auto_output :
    (pid : Pid) (setpoint measurement : ℤ)
    → pid.mode ≡ auto
    → InRange (negsuc 0x7f_ffff) (pos 0x7f_ffff) (control_sum pid setpoint measurement)
    → (update pid setpoint measurement).1
      ≡ clamp pid.out_min pid.out_max (sar8 (control_sum pid setpoint measurement))
update-auto_output pid setpoint measurement e h =
    output-auto pid setpoint measurement e ∙ ap (clamp pid.out_min pid.out_max) (fits_16 _ h)

above_16 : (z : ℤ) → InRange (pos 0x80_0000) (pos 0xff_ffff) z → s16 (sar8 (s32 z)) ≤ℤ negsuc 0
above_16 (pos n) h = rw (s32_self (pos n) (omega arith)) (unfold s16 in ground arith)
above_16 (negsuc n) h = absurd (omega arith)

clamp_negative :
    (lo hi x : ℤ) → lo ≤ℤ hi → x ≤ℤ negsuc 0 → (clamp lo hi x ≤ℤ negsuc 0) ⊎ (clamp lo hi x ≡ lo)
unfolding clamp
clamp_negative lo hi x h n = elim (Bool-cases (ltb_ℤ x lo)) [
  | inl e ↦ rw e (ground arith)
  | inr e ↦ rw e (ground arith)
]

-- The cast to 16 bits stands before the clamp: where the sum is in `[2^23, 2^24)`, a demand above
-- what an `int16_t` holds, the output of the automatic mode is negative or `out_min`.
pub update-auto_flips :
    (pid : Pid) (setpoint measurement : ℤ)
    → pid.mode ≡ auto
    → pid.out_min ≤ℤ pid.out_max
    → InRange (pos 0x80_0000) (pos 0xff_ffff) (control_sum pid setpoint measurement)
    → ((update pid setpoint measurement).1 ≤ℤ negsuc 0)
      ⊎ ((update pid setpoint measurement).1 ≡ pid.out_min)
update-auto_flips pid setpoint measurement e h big =
    rw (output-auto pid setpoint measurement e) (clamp_negative _ _ _ h (above_16 _ big))
