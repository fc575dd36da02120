-- ===== src/Pid.antt =====
-- epic-pid/src/pid.c: a PID controller in Q8.8 fixed point. The C integers are integers here, wrapped
-- where a cast cuts them off and where a 32-bit sum may leave its range.
mod Bounds
mod Bumpless
mod Tests
use pic8_hal.Common.{◌+◌, ◌*◌, ◌/◌, Bool, true, false, if◌then◌else◌}
use pic8_hal.Common.Int.{ℤ, pos, negsuc, ◌+ℤ◌, ◌-ℤ◌, ◌*ℤ◌, ltb_ℤ, s16, s32}

-- `pid_mode_t`
pub data Mode : Type 0 where
  auto manual : Mode

-- `pid_t`
pub record Pid : Type 0 where
  pub kp_q8 : ℤ
  pub ki_q8 : ℤ
  pub kd_q8 : ℤ
  pub out_min : ℤ
  pub out_max : ℤ
  pub integrator_q8 : ℤ
  pub prev_measurement : ℤ
  pub have_prev_measurement : Bool
  pub skip_next_i_increment : Bool
  pub mode : Mode
  pub manual_output : ℤ

-- `x << 8` and the arithmetic `x >> 8`
abbrev pub shl8 : ℤ → ℤ
shl8 (pos n) = pos (n * 256)
shl8 (negsuc n) = negsuc (n * 256 + 255)

abbrev pub sar8 : ℤ → ℤ
sar8 (pos n) = pos (n / 256)
sar8 (negsuc n) = negsuc (n / 256)

-- `if (x < lo) { x = lo; } if (x > hi) { x = hi; }`
unfoldable pub clamp : ℤ → ℤ → ℤ → ℤ
clamp lo hi x = let y = if ltb_ℤ x lo then lo else x in if ltb_ℤ hi y then hi else y

unfoldable pub init : ℤ → ℤ → ℤ → ℤ → ℤ → Pid
init kp_q8 ki_q8 kd_q8 out_min out_max = record {
  kp_q8 = kp_q8;
  ki_q8 = ki_q8;
  kd_q8 = kd_q8;
  out_min = out_min;
  out_max = out_max;
  integrator_q8 = pos 0;
  prev_measurement = pos 0;
  have_prev_measurement = false;
  skip_next_i_increment = false;
  mode = auto;
  manual_output = pos 0;
}

unfoldable pub reset : Pid → Pid
reset pid = record pid {
  integrator_q8 = pos 0;
  have_prev_measurement = false;
  skip_next_i_increment = false;
}

unfoldable pub set_gains : Pid → ℤ → ℤ → ℤ → Pid
set_gains pid kp_q8 ki_q8 kd_q8 = record pid { kp_q8 = kp_q8; ki_q8 = ki_q8; kd_q8 = kd_q8 }

unfoldable pub set_mode : Pid → Mode → Pid
set_mode pid mode = record pid { mode = mode }

unfoldable pub set_manual_output : Pid → ℤ → Pid
set_manual_output pid value = record pid { manual_output = value }

-- `error`, and `p_q8`.
unfoldable pub error_of : ℤ → ℤ → ℤ
error_of setpoint measurement = s16 (setpoint -ℤ measurement)

unfoldable pub p_term : Pid → ℤ → ℤ → ℤ
p_term pid setpoint measurement = pid.kp_q8 *ℤ error_of setpoint measurement

-- `dmeas`, and `d_q8`.
unfoldable pub d_term : Pid → ℤ → ℤ
d_term pid measurement =
    let dmeas =
      if pid.have_prev_measurement then s16 (measurement -ℤ pid.prev_measurement) else pos 0 in
    pos 0 -ℤ pid.kd_q8 *ℤ dmeas

-- The branch of `pid_update` for the manual mode, with the history already updated.
unfoldable pub update_manual : Pid → ℤ → ℤ → Pid × ℤ
update_manual pid p_q8 d_q8 =
    let output = clamp pid.out_min pid.out_max pid.manual_output in
    let integrator = s32 (shl8 output -ℤ p_q8 -ℤ d_q8) in
    (
      record pid {
        integrator_q8 = clamp (shl8 pid.out_min) (shl8 pid.out_max) integrator;
        skip_next_i_increment = true;
      },
      output,
    )

-- The branch for the automatic mode.
unfoldable pub update_auto : Pid → ℤ → ℤ → ℤ → Pid × ℤ
update_auto pid error p_q8 d_q8 =
    let increment = if pid.skip_next_i_increment then pos 0 else pid.ki_q8 *ℤ error in
    let integrator =
      clamp (shl8 pid.out_min) (shl8 pid.out_max) (s32 (pid.integrator_q8 +ℤ increment)) in
    let sum_q8 = s32 (p_q8 +ℤ integrator +ℤ d_q8) in
    (
      record pid { integrator_q8 = integrator; skip_next_i_increment = false },
      clamp pid.out_min pid.out_max (s16 (sar8 sum_q8)),
    )

unfoldable pub update : Pid → ℤ → ℤ → Pid × ℤ
update pid setpoint measurement =
    let p_q8 = p_term pid setpoint measurement in
    let d_q8 = d_term pid measurement in
    let seen = record pid { have_prev_measurement = true; prev_measurement = measurement } in
    elim pid.mode [
      | manual ↦ update_manual seen p_q8 d_q8
      | auto ↦ update_auto seen (error_of setpoint measurement) p_q8 d_q8
    ]
