-- ===== src/Tick/Count.antt =====
-- The simulated Timer2 as a counter in a mixed radix: the prescaler, TMR2 and the postscaler are its
-- digits, and the count of the timebase is what has been carried out of it.
use pic8_hal.Common.{
  ℕ, ◌+◌, ◌*◌, ◌/◌, ◌≤◌, ◌<◌, bit_and, ◌≡◌, refl, sym, ap, ◌∙◌, inl, inr, true, false, arith, ltb,
  leb, ltb→lt, leb→le, Bool-cases, get_or, u8, u16, u32, bit_and_three, bit_and_15,
}
use native.Mathlib.Nat.{mul_assoc, mul_comm}
use pic8_hal.Common.Digits.{every_lem}
use pic8_hal.Pic16.{bit_test}
use pic8_hal.Pic16.Sim.{t2_rates}
use pic8_hal.Tick.Timebase.{on_overflow}
use pic8_hal.Tick.Steps.{Clock, advance}

-- The ratio of the prescaler and that of the postscaler that T2CON holds.
abbrev pub pre_of : ℕ → ℕ
pre_of t2con = get_or t2_rates (bit_and t2con 3) 0

abbrev pub post_of : ℕ → ℕ
post_of t2con = u8 (bit_and (t2con / 8) 15 + 1)

abbrev pub period : ℕ → ℕ → ℕ
period t2con pr2 = pre_of t2con * (pr2 + 1) * post_of t2con

pre_of-bound : (t2con : ℕ) → pre_of t2con ≤ 16
pre_of-bound t2con = leb→le (get_or t2_rates (bit_and t2con 3) 0) 16 (
    every_lem 4 (bit_and t2con 3) (λ k. leb (get_or t2_rates k 0) 16) refl
      (omega (arith, bit_and_three t2con)))

post_of-bound : (t2con : ℕ) → post_of t2con ≤ 16
post_of-bound t2con = omega (arith, bit_and_15 (t2con / 8))

abbrev state : (t2con pr2 x y z tick_ms : ℕ) → Clock
state t2con pr2 x y z tick_ms = record {
  at = record { t2con = t2con; pr2 = pr2; tmr2 = y; flag = false; tick_ms = tick_ms };
  prescaler = x;
  post = z;
}

-- The clock is that of a running Timer2 whose flag is clear, `n` cycles after a beginning.
pub record Shows (t2con pr2 n : ℕ) (c : Clock) : Type 0 where
  pub x : ℕ
  pub y : ℕ
  pub z : ℕ
  pub q : ℕ
  pub x_bound : x < pre_of t2con
  pub y_bound : y ≤ pr2
  pub z_bound : z < post_of t2con
  pub clock_lem : c ≡ state t2con pr2 x y z (u32 q)
  pub total : (z * (pr2 + 1) + y) * pre_of t2con + x + q * period t2con pr2 ≡ n

-- The carries, with the digits below at their ends.
module _ (x y z n : ℕ) where
  carry_tmr2 :
      (nn p w : ℕ)
      → x + 1 ≡ p
      → (z * nn + y) * p + x + w ≡ n
      → (z * nn + (y + 1)) * p + 0 + w ≡ n + 1
  carry_tmr2 nn p w h e = grind (arith, h, e)

  carry_post :
      (nn p w : ℕ)
      → x + 1 ≡ p
      → y + 1 ≡ nn
      → (z * nn + y) * p + x + w ≡ n
      → ((z + 1) * nn + 0) * p + 0 + w ≡ n + 1
  carry_post nn p w h k e =
      let up : (z + 1) * nn + 0 ≡ z * nn + (y + 1) = omega (arith, k) in
      rw up (carry_tmr2 nn p w h e)

  carry_out :
      (nn p r q : ℕ)
      → x + 1 ≡ p
      → y + 1 ≡ nn
      → z + 1 ≡ r
      → (z * nn + y) * p + x + q * (p * nn * r) ≡ n
      → (0 * nn + 0) * p + 0 + (q + 1) * (p * nn * r) ≡ n + 1
  carry_out nn p r q h k l e =
      let up : r * nn ≡ z * nn + (y + 1) = rw (sym l) (omega (arith, k)) in
      let whole : p * nn * r ≡ (z * nn + (y + 1)) * p =
        mul_assoc p nn r ∙ mul_comm p (nn * r) ∙ ap (λ t. t * p) (mul_comm nn r ∙ up) in
      let one_more = carry_tmr2 nn p (q * (p * nn * r)) h e in omega (arith, whole, one_more)

module _ (t2con pr2 : ℕ) (on : bit_test t2con 4 ≡ true) (small : pr2 < 255) where
  pre_le : pre_of t2con ≤ 16
  pre_le = pre_of-bound t2con

  post_le : post_of t2con ≤ 16
  post_le = post_of-bound t2con

  module _ (x y z q : ℕ) where
    advance-prescaler :
        x + 1 < pre_of t2con → advance (state t2con pr2 x y z q) ≡ state t2con pr2 (x + 1) y z q
    advance-prescaler h =
        let narrow : u16 (x + 1) ≡ x + 1 = omega (arith, h, pre_le) in
        let slow : ltb (x + 1) (pre_of t2con) ≡ true = ground (arith, h) in
        rw (on, narrow, slow) refl

    advance-tmr2 :
        x + 1 ≡ pre_of t2con
        → y + 1 ≤ pr2
        → advance (state t2con pr2 x y z q) ≡ state t2con pr2 0 (y + 1) z q
    advance-tmr2 h k =
        let narrow : u16 (x + 1) ≡ x + 1 = omega (arith, h, pre_le) in
        let fast : ltb (x + 1) (pre_of t2con) ≡ false = ground (arith, h) in
        let byte : u8 (y + 1) ≡ y + 1 = omega (arith, k, small) in
        let inside : ltb pr2 (y + 1) ≡ false = ground (arith, k) in
        rw (on, narrow, fast, byte, inside) refl

    advance-post :
        x + 1 ≡ pre_of t2con
        → y ≡ pr2
        → z + 1 < post_of t2con
        → advance (state t2con pr2 x y z q) ≡ state t2con pr2 0 0 (z + 1) q
    advance-post h k l =
        let narrow : u16 (x + 1) ≡ x + 1 = omega (arith, h, pre_le) in
        let fast : ltb (x + 1) (pre_of t2con) ≡ false = ground (arith, h) in
        let byte : u8 (y + 1) ≡ y + 1 = omega (arith, k, small) in
        let outside : ltb pr2 (y + 1) ≡ true = ground (arith, k) in
        let post_byte : u8 (z + 1) ≡ z + 1 = omega (arith, l, post_le) in
        let early : leb (post_of t2con) (z + 1) ≡ false = ground (arith, l) in
        rw (on, narrow, fast, byte, outside, post_byte, early) refl

    advance-wrap :
        x + 1 ≡ pre_of t2con
        → y ≡ pr2
        → z + 1 ≡ post_of t2con
        → advance (state t2con pr2 x y z q) ≡ state t2con pr2 0 0 0 (on_overflow q)
    advance-wrap h k l =
        let narrow : u16 (x + 1) ≡ x + 1 = omega (arith, h, pre_le) in
        let fast : ltb (x + 1) (pre_of t2con) ≡ false = ground (arith, h) in
        let byte : u8 (y + 1) ≡ y + 1 = omega (arith, k, small) in
        let outside : ltb pr2 (y + 1) ≡ true = ground (arith, k) in
        let post_byte : u8 (z + 1) ≡ z + 1 = omega (arith, l, post_le) in
        let due : leb (post_of t2con) (z + 1) ≡ true = ground (arith, l) in
        rw (on, narrow, fast, byte, outside, post_byte, due) refl

  -- The carry into the postscaler, and the one out of it.
  Shows-match :
      (n : ℕ) (c : Clock) (shown : Shows t2con pr2 n c)
      → shown.x + 1 ≡ pre_of t2con
      → shown.y ≡ pr2
      → Shows t2con pr2 (n + 1) (advance c)
  Shows-match n c shown wraps full =
      let p = pre_of t2con in
      let r = post_of t2con in
      let at = ap advance shown.clock_lem in
      let whole : shown.y + 1 ≡ pr2 + 1 = omega (arith, full) in
      elim (Bool-cases (ltb (shown.z + 1) r)) [
        | inl g ↦
            let early = ltb→lt (shown.z + 1) r g in
            record {
              x = 0;
              y = 0;
              z = shown.z + 1;
              q = shown.q;
              x_bound = omega (arith, wraps);
              y_bound = omega arith;
              z_bound = early;
              clock_lem = at ∙ advance-post shown.x shown.y shown.z (u32 shown.q) wraps full early;
              total =
                  carry_post shown.x shown.y shown.z n (pr2 + 1) p (shown.q * period t2con pr2)
                    wraps whole shown.total;
            }
        | inr g ↦
            let last : shown.z + 1 ≡ r = ground (arith, g, shown.z_bound) in
            record {
              x = 0;
              y = 0;
              z = 0;
              q = shown.q + 1;
              x_bound = omega (arith, wraps);
              y_bound = omega arith;
              z_bound = omega (arith, last);
              clock_lem =
                  at
                  ∙ advance-wrap shown.x shown.y shown.z (u32 shown.q) wraps full last
                  ∙ ap (state t2con pr2 0 0 0) (omega arith);
              total =
                  carry_out shown.x shown.y shown.z n (pr2 + 1) p r shown.q wraps whole last
                    shown.total;
            }
      ]

  -- A step is one cycle more.
  pub Shows-advance :
      (n : ℕ) (c : Clock) → Shows t2con pr2 n c → Shows t2con pr2 (n + 1) (advance c)
  Shows-advance n c shown =
      let p = pre_of t2con in
      let at = ap advance shown.clock_lem in
      elim (Bool-cases (ltb (shown.x + 1) p)) [
        | inl e ↦
            let early = ltb→lt (shown.x + 1) p e in
            record {
              x = shown.x + 1;
              y = shown.y;
              z = shown.z;
              q = shown.q;
              x_bound = early;
              y_bound = shown.y_bound;
              z_bound = shown.z_bound;
              clock_lem = at ∙ advance-prescaler shown.x shown.y shown.z (u32 shown.q) early;
              total = omega (arith, shown.total);
            }
        | inr e ↦
            let wraps : shown.x + 1 ≡ p = ground (arith, e, shown.x_bound) in
            elim (Bool-cases (ltb shown.y pr2)) [
              | inl f ↦
                  let early : shown.y + 1 ≤ pr2 = ground (arith, f) in
                  record {
                    x = 0;
                    y = shown.y + 1;
                    z = shown.z;
                    q = shown.q;
                    x_bound = omega (arith, wraps);
                    y_bound = early;
                    z_bound = shown.z_bound;
                    clock_lem = at ∙ advance-tmr2 shown.x shown.y shown.z (u32 shown.q) wraps early;
                    total =
                        carry_tmr2 shown.x shown.y shown.z n (pr2 + 1) p
                          (shown.q * period t2con pr2) wraps shown.total;
                  }
              | inr f ↦ Shows-match n c shown wraps (ground (arith, f, shown.y_bound))
            ]
      ]
