-- ===== src/Pic16/Duty.antt =====
-- The ten bits of a duty, in CCPRxL and CCPxCON.
use native.Mathlib.Nat.{mod-eq_of_lt}
use pic8_hal.Common.{
  ℕ, ◌+◌, ◌*◌, ◌/◌, ◌%◌, ◌<◌, bit_and, bit_or, ◌≡◌, refl, ap, ◌∙◌, inl, inr, Bool, true, false,
  ◌&&◌, arith, ltb, ◌==◌, ltb→lt, ==_iff, Bool-cases, u8, bit_and_step, bit_and_three, bit_and_255,
}
use pic8_hal.Common.Digits.{every, every_lem, and-true}
use pic8_hal.Pic16.{Sfr}
use pic8_hal.Pic16.Ccp.{ccp_sel, is_instance, set_pwm_duty}

-- The duty that the module sees, and its mode.
abbrev pub duty_of : Sfr → ℕ → ℕ
duty_of s inst = s (ccp_sel inst).cprl * 4 + s (ccp_sel inst).con / 16 % 4

abbrev pub mode_of : Sfr → ℕ → ℕ
mode_of s inst = s (ccp_sel inst).con % 16

abbrev con_for : ℕ → ℕ → ℕ
con_for con d = bit_or (bit_and con 0xCF) (d * 16)

abbrev con_test : ℕ → ℕ → Bool
con_test con d = let v = con_for con d in v / 16 % 4 == d && v % 16 == con % 16 && ltb v 256

con-every : every 256 (λ con. every 4 (con_test con)) ≡ true
con-every = refl

bit_and_1023 : (a : ℕ) → bit_and a 1023 ≡ a % 1024
bit_and_1023 a =
    omega (arith, bit_and_step a 1023, bit_and_step (a / 2) 511, bit_and_255 (a / 2 / 2))

ten_bits : (duty : ℕ) → bit_and duty 1023 / 4 * 4 + bit_and (bit_and duty 1023) 3 ≡ duty % 1024
ten_bits duty = omega (arith, bit_and_1023 duty, bit_and_three (bit_and duty 1023))

record Sets (con d : ℕ) : Type 0 where
  pub duty_lem : con_for con d / 16 % 4 ≡ d
  pub mode_lem : con_for con d % 16 ≡ con % 16
  pub byte : con_for con d < 256

con_for-Sets : (con d : ℕ) → con < 256 → d < 4 → Sets con d
con_for-Sets con d hc hd =
    let v = con_for con d in
    let row = every_lem 256 con (λ con. every 4 (con_test con)) con-every hc in
    let cell = every_lem 4 d (con_test con) row hd in
    let (a, c) = and-true _ _ cell in
    let (a', b) = and-true _ _ a in
    record {
      duty_lem = (==_iff (v / 16 % 4) d).0 a';
      mode_lem = (==_iff (v % 16) (con % 16)).0 b;
      byte = ltb→lt v 256 c;
    }

-- The two addresses of an instance are different.
apart : (inst : ℕ) → ((ccp_sel inst).cprl == (ccp_sel inst).con) ≡ false
unfolding ccp_sel
apart inst = elim (Bool-cases (inst == 2)) [ inl e ↦ rw e refl | inr e ↦ rw e refl ]

-- For an instance that there is, EPIC_CCP_SetPWMDuty leaves in CCPRxL and bits 5:4 of CCPxCON the
-- duty modulo 1024, keeps the mode, and changes no other register.
pub set_pwm_duty-duty :
    (s : Sfr) (inst duty : ℕ)
    → is_instance inst ≡ true
    → s (ccp_sel inst).con < 256
    → let s' = set_pwm_duty s inst duty in
      (duty_of s' inst ≡ duty % 1024)
      × (mode_of s' inst ≡ mode_of s inst)
      × ((a : ℕ)
          → (a == (ccp_sel inst).con) ≡ false
          → (a == (ccp_sel inst).cprl) ≡ false
          → s' a ≡ s a)
unfolding set_pwm_duty
set_pwm_duty-duty s inst duty known byte =
    let a = ccp_sel inst in
    let con = s a.con in
    let d = bit_and (bit_and duty 1023) 3 in
    let two : d < 4 = omega (arith, bit_and_three (bit_and duty 1023)) in
    let small : u8 (d * 16) ≡ d * 16 = omega (arith, two) in
    let set = con_for-Sets con d byte two in
    let con_lem : u8 (con_for con d) ≡ con_for con d = mod-eq_of_lt set.byte in
    let high : u8 (bit_and duty 1023 / 4) ≡ bit_and duty 1023 / 4 =
      omega (arith, bit_and_1023 duty) in
    let cprl_con : (a.cprl == a.con) ≡ false = apart inst in
    let con_cprl : (a.con == a.cprl) ≡ false = ground (arith, cprl_con) in
    let cprl_self : (a.cprl == a.cprl) ≡ true = (==_iff a.cprl a.cprl).1 refl in
    let con_self : (a.con == a.con) ≡ true = (==_iff a.con a.con).1 refl in
    (
      rw (known, small, cprl_self, con_cprl, con_self, high, con_lem)
          (ap (λ t. bit_and duty 1023 / 4 * 4 + t) set.duty_lem ∙ ten_bits duty),
      rw (known, small, con_cprl, con_self, con_lem) set.mode_lem,
      λ b other other'. rw (known, other', other) refl,
    )
