-- ===== src/Pid/Tests.antt =====
-- Runs of the controller, and its theorems at concrete inputs.
use pic8_hal.Common.{◌≡◌, refl, ◌⊎◌, true, false, arith}
use pic8_hal.Common.Int.{s16, s32, ℤ, pos, negsuc, ◌+ℤ◌, ◌-ℤ◌, ◌*ℤ◌, ◌≤ℤ◌}
use pic8_hal.Pid.{
  Pid, Mode, auto, manual, clamp, error_of, p_term, d_term, update_auto, update, set_mode,
}
use pic8_hal.Pid.Bounds.{WithinRails, update-WithinRails, update-auto_flips}
use pic8_hal.Pid.Bumpless.{update-set_mode_bumpless}

-- kp = 2.0, ki = 0.5, kd = 0, output in [-1000, 1000].
abbrev loop : Mode → ℤ → Pid
loop mode manual_output = record {
  kp_q8 = pos 512;
  ki_q8 = pos 128;
  kd_q8 = pos 0;
  out_min = negsuc 999;
  out_max = pos 1000;
  integrator_q8 = pos 0;
  prev_measurement = pos 40;
  have_prev_measurement = true;
  skip_next_i_increment = false;
  mode = mode;
  manual_output = manual_output;
}

small_error : (update (loop auto (pos 0)) (pos 50) (pos 40)).1 ≡ pos 25
unfolding update p_term d_term error_of update_auto s16 s32 clamp ◌+ℤ◌ ◌-ℤ◌ ◌*ℤ◌
small_error = refl

-- A large positive error drives the output to the low rail.
large_error : (update (loop auto (pos 0)) (pos 20040) (pos 40)).1 ≡ negsuc 999
unfolding update p_term d_term error_of update_auto s16 s32 clamp ◌+ℤ◌ ◌-ℤ◌ ◌*ℤ◌
large_error = refl

update-WithinRails_example :
    WithinRails (loop auto (pos 0)) (update (loop auto (pos 0)) (pos 20040) (pos 40))
update-WithinRails_example =
    update-WithinRails (loop auto (pos 0)) (pos 20040) (pos 40) (omega arith)

update-auto_flips_example :
    ((update (loop auto (pos 0)) (pos 20040) (pos 40)).1 ≤ℤ negsuc 0)
    ⊎ ((update (loop auto (pos 0)) (pos 20040) (pos 40)).1 ≡ negsuc 999)
unfolding update p_term d_term error_of update_auto s16 s32 clamp ◌+ℤ◌ ◌-ℤ◌ ◌*ℤ◌
update-auto_flips_example =
    update-auto_flips (loop auto (pos 0)) (pos 20040) (pos 40) refl (omega arith) (omega arith)

update-set_mode_bumpless_example :
    let (after, output) = update (loop manual (pos 300)) (pos 50) (pos 40) in
    (update (set_mode after auto) (pos 50) (pos 40)).1 ≡ output
unfolding p_term error_of s16 clamp ◌-ℤ◌ ◌*ℤ◌
update-set_mode_bumpless_example =
    update-set_mode_bumpless (loop manual (pos 300)) (pos 50) (pos 40) refl refl refl (omega arith)
      (omega arith) (omega arith) (omega arith)
