-- ===== src/Tick/Start.antt =====
-- The timebase from `epic_tick_init` on.
use native.Mathlib.Nat.{mod-eq_of_lt}
use pic8_hal.Common.{
  ℕ, zero, suc, ◌+◌, ◌-◌, ◌*◌, ◌/◌, ◌^◌, ◌≤◌, ◌<◌, bit_and, bit_or, ◌≡◌, refl, ap, ◌∙◌, ◌⊎◌, inl,
  inr, Bool, true, false, ◌&&◌, ◌||◌, arith, ltb, ◌==◌, if◌then◌else◌, ltb→lt, ==_iff, get_or, u8,
}
use pic8_hal.Common.Digits.{every, every_lem, and-true}
use pic8_hal.Pic16.{Sfr, bit_test, select_bank, write_banked}
use pic8_hal.Pic16.Irq.{clear_flag, get_flag, enable, restore}
use pic8_hal.Pic16.IrqLines.{enable-lines}
use pic8_hal.Pic16.Timer2
use pic8_hal.Pic16.Sim.{t2_rates}
use pic8_hal.Tick.{Best, error_of, try_period, try_both, try_post, compute_period}
use pic8_hal.Tick.Timebase.{pre_code, init}
use pic8_hal.Tick.Overflow.{base}
use pic8_hal.Tick.Count.{pre_of, post_of}

-- The ratios that the search can choose.
pub record Choice (best : Best) : Type 0 where
  pub pre_choice : (best.pre ≡ 1) ⊎ ((best.pre ≡ 4) ⊎ (best.pre ≡ 16))
  pub post_bound : best.post < 16
  pub pr2_bound : best.pr2 < 256

either-Choice : (b : Bool) (x y : Best) → Choice x → Choice y → Choice (if b then x else y)
either-Choice true x y hx hy = hx
either-Choice false x y hx hy = hy

module _ (target p : ℕ) (known : (p ≡ 1) ⊎ ((p ≡ 4) ⊎ (p ≡ 16))) where
  try_period-Choice :
      (q nn : ℕ) (best : Best)
      → 0 < q
      → q ≤ 16
      → Choice best
      → Choice (try_period target p q nn best)
  unfolding try_period
  try_period-Choice q nn best lo hi choice = either-Choice (ltb nn 1 || ltb 256 nn) best _ choice (
      either-Choice (ltb (error_of target (p * q * nn)) best.err)
        (record { err = error_of target (p * q * nn); pr2 = u8 (nn - 1); pre = p; post = q - 1 })
        best
        (record { pre_choice = known; post_bound = omega (arith, lo, hi); pr2_bound = omega arith })
        choice)

  try_post-Choice : (n : ℕ) (best : Best) → n ≤ 16 → Choice best → Choice (try_post target p n best)
  unfolding try_post try_both
  try_post-Choice zero best hi choice = choice
  try_post-Choice (suc n) best hi choice =
      let pq = p * suc n in
      let before = try_post-Choice n best (omega (arith, hi)) choice in
      try_period-Choice (suc n) (target / pq + 1)
        (try_period target p (suc n) (target / pq) (try_post target p n best)) (omega arith) hi
        (try_period-Choice (suc n) (target / pq) (try_post target p n best) (omega arith) hi before)

pub compute_period-Choice : (fosc_hz : ℕ) → Choice (compute_period fosc_hz)
unfolding compute_period
compute_period-Choice fosc_hz =
    let cycles = fosc_hz / 4000 in
    let target = if cycles == 0 then 1 else cycles in
    let b0 : Best = record { err = 2 ^ 32 - 1; pr2 = 255; pre = 1; post = 0 } in
    let c0 : Choice b0 = record {
      pre_choice = inl refl;
      post_bound = omega arith;
      pr2_bound = omega arith;
    } in
    let c16 = try_post-Choice target 16 (inr (inr refl)) 16 b0 (omega arith) c0 in
    let b16 = try_post target 16 16 b0 in
    let c4 = try_post-Choice target 4 (inr (inl refl)) 16 b16 (omega arith) c16 in
    try_post-Choice target 1 (inl refl) 16 (try_post target 4 16 b16) (omega arith) c4

-- What T2CON holds for a code of the prescaler and one of the postscaler.
abbrev t2con_for : ℕ → ℕ → ℕ
t2con_for code post = bit_or (bit_or (u8 (bit_and post 15 * 8)) 4) (u8 (bit_and code 3))

abbrev t2con_test : ℕ → ℕ → Bool
t2con_test code post =
    let v = t2con_for code post in
    bit_test v 4 && pre_of v == get_or t2_rates code 0 && post_of v == post + 1 && ltb v 256

t2con-every : every 3 (λ code. every 16 (t2con_test code)) ≡ true
t2con-every = refl

pub record Holds (v ratio post : ℕ) : Type 0 where
  pub on : bit_test v 4 ≡ true
  pub pre_lem : pre_of v ≡ ratio
  pub post_lem : post_of v ≡ post + 1
  pub byte : v < 256

t2con_for-Holds :
    (code post : ℕ)
    → code < 3
    → post < 16
    → Holds (t2con_for code post) (get_or t2_rates code 0) post
t2con_for-Holds code post hc hp =
    let v = t2con_for code post in
    let row = every_lem 3 code (λ code. every 16 (t2con_test code)) t2con-every hc in
    let cell = every_lem 16 post (t2con_test code) row hp in
    let (a, c) = and-true _ _ cell in
    let (a', b) = and-true _ _ a in
    let (a'', b') = and-true _ _ a' in
    record {
      on = a'';
      pre_lem = (==_iff (pre_of v) (get_or t2_rates code 0)).0 b';
      post_lem = (==_iff (post_of v) (post + 1)).0 b;
      byte = ltb→lt v 256 c;
    }

-- T2CON as `epic_tick_init` leaves it.
abbrev pub t2con_at : Best → ℕ
t2con_at best = t2con_for (pre_code best.pre) best.post

pub t2con_at-Holds : (best : Best) → Choice best → Holds (t2con_at best) best.pre best.post
t2con_at-Holds best choice = elim choice.pre_choice [
  | inl e ↦ rw e (t2con_for-Holds 0 best.post (omega arith) choice.post_bound)
  | inr (inl e) ↦ rw e (t2con_for-Holds 1 best.post (omega arith) choice.post_bound)
  | inr (inr e) ↦ rw e (t2con_for-Holds 2 best.post (omega arith) choice.post_bound)
]

pub init-base :
    (fosc_hz : ℕ) (s : Sfr)
    → let best = compute_period fosc_hz in
      base (init fosc_hz s)
      ≡ record { t2con = t2con_at best; pr2 = best.pr2; tmr2 = s 0x11; flag = false; tick_ms = 0 }
unfolding init Timer2.start Timer2.init Timer2.write_period write_banked select_bank enable
    clear_flag restore get_flag
init-base fosc_hz s =
    let best = compute_period fosc_hz in
    let choice = compute_period-Choice fosc_hz in
    let t2con_lem : u8 (t2con_at best) ≡ t2con_at best =
      mod-eq_of_lt (t2con_at-Holds best choice).byte in
    let pr2_lem : u8 best.pr2 ≡ best.pr2 = mod-eq_of_lt choice.pr2_bound in
    let clear : bit_test (u8 (bit_and (s 0x0C) 253)) 2 ≡ false =
      (enable-lines s 4 4 (omega arith) (omega arith)).0 in
    ap
      (λ v. record {
        t2con = v;
        pr2 = u8 best.pr2;
        tmr2 = s 0x11;
        flag = bit_test (u8 (bit_and (s 0x0C) 253)) 2;
        tick_ms = 0;
      })
      t2con_lem
    ∙ ap
        (λ v. record {
          t2con = t2con_at best;
          pr2 = v;
          tmr2 = s 0x11;
          flag = bit_test (u8 (bit_and (s 0x0C) 253)) 2;
          tick_ms = 0;
        })
        pr2_lem
    ∙ ap
        (λ flag. record {
          t2con = t2con_at best;
          pr2 = best.pr2;
          tmr2 = s 0x11;
          flag = flag;
          tick_ms = 0;
        })
        clear
