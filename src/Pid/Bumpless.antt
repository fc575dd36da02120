-- ===== src/Pid/Bumpless.antt =====
-- The hand-over from the manual to the automatic mode.
use pic8_hal.Common.{◌≡◌, refl, ◌∙◌, true, arith}
use pic8_hal.Common.Int.{s16, s32, ◌≤ℤ◌, ℤ, pos, negsuc, ◌+ℤ◌, ◌-ℤ◌, ◌*ℤ◌, int_laws}
use pic8_hal.Pid.{
  error_of, auto, set_mode, update, p_term, update_manual, update_auto, manual, Pid, shl8, sar8,
  clamp, d_term,
}
use pic8_hal.Pid.Bounds.{
  update-auto, seen, update-manual, clamp_range, InRange, clamp_self, sar8-shl8, s16_self, s32_self,
}

-ℤ_self : (a : ℤ) → a -ℤ a ≡ pos 0
-ℤ_self a = omega int_laws

-- With the measurement unchanged there is no derivative.
d_term_still :
    (pid : Pid) (measurement : ℤ)
    → pid.have_prev_measurement ≡ true
    → pid.prev_measurement ≡ measurement
    → d_term pid measurement ≡ pos 0
unfolding d_term
d_term_still pid measurement had same = rw (had, same, -ℤ_self measurement) (no_step pid.kd_q8)
  where
    no_step : (k : ℤ) → pos 0 -ℤ k *ℤ s16 (pos 0) ≡ pos 0
    no_step k = unfold s16 ◌-ℤ◌ ◌*ℤ◌ in ground arith

shl8_range :
    (a : ℤ)
    → InRange (negsuc 32767) (pos 32767) a
    → InRange (negsuc 0x7f_ffff) (pos 0x7f_ffff) (shl8 a)
shl8_range a h = ground arith

-- The integrator that the manual mode leaves makes up what the proportional term lacks.
module _ (pid : Pid) (p_q8 o : ℤ) (low high : ℤ) (o_range : InRange (negsuc 32767) (pos 32767) o)
    (low_range : InRange (negsuc 32767) (pos 32767) low)
    (high_range : InRange (negsuc 32767) (pos 32767) high)
    (room : InRange (shl8 low) (shl8 high) (shl8 o -ℤ p_q8)) where
  left_range : InRange (negsuc 0x7fff_ffff) (pos 0x7fff_ffff) (shl8 o -ℤ p_q8)
  left_range = omega (arith, shl8_range low low_range, shl8_range high high_range)

  back_calculated : clamp (shl8 low) (shl8 high) (s32 (shl8 o -ℤ p_q8 -ℤ pos 0)) ≡ shl8 o -ℤ p_q8
  back_calculated =
      let e : shl8 o -ℤ p_q8 -ℤ pos 0 ≡ shl8 o -ℤ p_q8 = omega int_laws in
      rw (e, s32_self _ left_range) (clamp_self _ _ _ room)

  resumed : clamp (shl8 low) (shl8 high) (s32 (shl8 o -ℤ p_q8 +ℤ pos 0)) ≡ shl8 o -ℤ p_q8
  resumed =
      let e : shl8 o -ℤ p_q8 +ℤ pos 0 ≡ shl8 o -ℤ p_q8 = omega int_laws in
      rw (e, s32_self _ left_range) (clamp_self _ _ _ room)

  reproduced : s16 (sar8 (s32 (p_q8 +ℤ (shl8 o -ℤ p_q8) +ℤ pos 0))) ≡ o
  reproduced =
      let e : p_q8 +ℤ (shl8 o -ℤ p_q8) +ℤ pos 0 ≡ shl8 o = omega int_laws in
      rw (e, s32_self (shl8 o) (omega (arith, shl8_range o o_range)), sar8-shl8 o)
        (s16_self o o_range)

-- The output of a manual update.
abbrev pub held : Pid → ℤ
held pid = clamp pid.out_min pid.out_max pid.manual_output

update_manual_still :
    (pid : Pid) (p_q8 : ℤ)
    → InRange (negsuc 32767) (pos 32767) (held pid)
    → InRange (negsuc 32767) (pos 32767) pid.out_min
    → InRange (negsuc 32767) (pos 32767) pid.out_max
    → InRange (shl8 pid.out_min) (shl8 pid.out_max) (shl8 (held pid) -ℤ p_q8)
    → update_manual pid p_q8 (pos 0) ≡ (
      record pid { integrator_q8 = shl8 (held pid) -ℤ p_q8; skip_next_i_increment = true },
      held pid,
    )
unfolding update_manual
update_manual_still pid p_q8 ho hl hh room =
    rw (back_calculated pid p_q8 (held pid) pid.out_min pid.out_max ho hl hh room)

update_auto_resumed :
    (pid : Pid) (error p_q8 : ℤ)
    → InRange (negsuc 32767) (pos 32767) (held pid)
    → InRange (negsuc 32767) (pos 32767) pid.out_min
    → InRange (negsuc 32767) (pos 32767) pid.out_max
    → pid.out_min ≤ℤ pid.out_max
    → InRange (shl8 pid.out_min) (shl8 pid.out_max) (shl8 (held pid) -ℤ p_q8)
    → pid.skip_next_i_increment ≡ true
    → pid.integrator_q8 ≡ shl8 (held pid) -ℤ p_q8
    → (update_auto pid error p_q8 (pos 0)).1 ≡ held pid
unfolding update_auto
update_auto_resumed pid error p_q8 ho hl hh le room skip integ =
    rw
      (
        skip,
        integ,
        resumed pid p_q8 (held pid) pid.out_min pid.out_max ho hl hh room,
        reproduced pid p_q8 (held pid) pid.out_min pid.out_max ho hl hh room,
      )
      (clamp_self _ _ _ (clamp_range _ _ pid.manual_output le))

-- With the setpoint and the measurement held still, and where the back-calculated integrator is
-- within its rails, the first automatic update after a manual one returns the manual one's output.
pub update-set_mode_bumpless :
    (pid : Pid) (setpoint measurement : ℤ)
    → pid.mode ≡ manual
    → pid.have_prev_measurement ≡ true
    → pid.prev_measurement ≡ measurement
    → InRange (negsuc 32767) (pos 32767) pid.out_min
    → InRange (negsuc 32767) (pos 32767) pid.out_max
    → pid.out_min ≤ℤ pid.out_max
    → InRange
        (shl8 pid.out_min)
        (shl8 pid.out_max)
        (shl8 (held pid) -ℤ p_term pid setpoint measurement)
    → let (after, output) = update pid setpoint measurement in
      (update (set_mode after auto) setpoint measurement).1 ≡ output
update-set_mode_bumpless pid setpoint measurement m had same hl hh le room =
    rw first (automatic ∙ update_auto_resumed _ _ _ ho hl hh le room refl refl)
  where
    p_q8 : ℤ
    p_q8 = p_term pid setpoint measurement

    ho : InRange (negsuc 32767) (pos 32767) (held pid)
    ho = omega (arith, clamp_range pid.out_min pid.out_max pid.manual_output le)

    after : Pid
    after = record pid {
      have_prev_measurement = true;
      prev_measurement = measurement;
      integrator_q8 = shl8 (held pid) -ℤ p_q8;
      skip_next_i_increment = true;
    }

    first : update pid setpoint measurement ≡ (after, held pid)
    first =
        rw (update-manual pid setpoint measurement m, d_term_still pid measurement had same)
          (update_manual_still (seen pid measurement) p_q8 ho hl hh room)

    back : Pid
    back = record after { mode = auto }

    automatic :
        (update (set_mode after auto) setpoint measurement).1
        ≡ (update_auto (seen back measurement) (error_of setpoint measurement) p_q8 (pos 0)).1
    automatic =
        unfold set_mode p_term in
        rw (update-auto back setpoint measurement refl, d_term_still back measurement refl refl)
          refl
