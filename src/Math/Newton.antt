-- ===== src/Math/Newton.antt =====
-- Newton's iteration for the square root.
use pic8_hal.Common.{
  ℕ, zero, suc, ◌+◌, ◌-◌, ◌*◌, ◌/◌, ◌%◌, ◌^◌, ◌≤◌, ◌<◌, ◌≡◌, refl, inl, inr, false, some, arith,
  ltb, leb, ◌==◌, Bool-cases, u16,
}
use pic8_hal.Math.{divmod_u16}
use pic8_hal.Math.Sqrt.{newton, sqrt_u16}
use native.Mathlib.Nat.{mod-eq_of_lt, div_self, le-div_iff_mul-le, mul-le-mul, mul-le-mul_left}
use pic8_hal.Common.Quotient.{div_bounds}

-- The square of a sum is at least four times the product.
am_gm : (a d : ℕ) → 4 * (a * (a + d)) ≤ (a + (a + d)) * (a + (a + d))
am_gm a d = grind arith

square_mono : (a b : ℕ) → a ≤ b → a * a ≤ b * b
square_mono a b h = mul-le-mul h h

four_product : (a b : ℕ) → 4 * (a * b) ≤ (a + b) * (a + b)
four_product a b = elim (Bool-cases (leb a b)) [
  | inl le ↦ let at : a + (b - a) ≡ b = ground (arith, le) in rw at at (am_gm a (b - a))
  | inr gt ↦
      let at : b + (a - b) ≡ a = ground (arith, gt) in
      let swapped : 4 * (b * a) ≤ (b + a) * (b + a) = rw at at (am_gm b (a - b)) in grind arith
]

-- A step from `x` never falls below the root.
step_above : (v x : ℕ) → 0 < x → v < ((x + v / x) / 2 + 1) * ((x + v / x) / 2 + 1)
step_above v x h =
    let q = v / x in
    let m = (x + q) / 2 + 1 in
    let twice : (x + (q + 1)) * (x + (q + 1)) ≤ (2 * m) * (2 * m) =
      square_mono (x + (q + 1)) (2 * m) (omega arith) in
    let four : (2 * m) * (2 * m) ≡ 4 * (m * m) = grind arith in
    omega (arith, (div_bounds v x h).1, four_product x (q + 1), twice, four)

-- A step that does not fall has reached the root.
step_stops : (v x : ℕ) → 0 < x → x ≤ (x + v / x) / 2 → x * x ≤ v
step_stops v x h l =
    let more : x * x ≤ x * (v / x) = mul-le-mul_left {m = x} {n = v / x} x (omega (arith, l)) in
    omega (arith, more, (div_bounds v x h).0)

sum_bound : (v x : ℕ) → 0 < x → x ≤ v → x + v / x ≤ v + 1
sum_bound v x p b =
    let q = v / x in
    let some_q : 0 < q = (le-div_iff_mul-le {k = x} {x = 1} {y = v} p).1 (omega arith) in
    let product : x + q ≤ x * q + 1 = corner x q p some_q in
    omega (arith, product, (div_bounds v x p).0)
  where
    corner : (a c : ℕ) → 0 < a → 0 < c → a + c ≤ a * c + 1
    corner zero c h k = elim h [ ]
    corner (suc a) zero h k = elim k [ ]
    corner (suc a) (suc c) h k = grind arith

-- What the code computes of a step, without a wrap.
step_lem :
    (modulus v x : ℕ)
    → v + 1 < modulus
    → v < 2 ^ 16
    → 0 < x
    → x ≤ v
    → u16 ((x + (divmod_u16 v x).quotient) % modulus / 2) ≡ (x + v / x) / 2
unfolding divmod_u16
step_lem modulus v x m l p b =
    let bound = sum_bound v x p b in
    let test : (x == 0) ≡ false = ground arith in
    let cast : u16 (v / x) ≡ v / x = omega (arith, bound) in
    let whole : (x + v / x) % modulus ≡ x + v / x = mod-eq_of_lt (omega (arith, bound)) in
    rw (test, cast, whole) (omega (arith, bound))

-- The loop from an estimate `x` that is not below the root, with its next one.
newton_lem :
    (modulus fuel v x : ℕ)
    → v + 1 < modulus
    → 1 < v
    → v < 2 ^ 16
    → 0 < x
    → x ≤ v
    → x ≤ fuel
    → v < (x + 1) * (x + 1)
    → (r : ℕ) × (newton modulus fuel v x ((x + v / x) / 2) ≡ some r)
      × (r * r ≤ v)
      × (v < (r + 1) * (r + 1))
unfolding newton
newton_lem modulus zero v x m h l p b f above = absurd (omega (arith, p, f))
newton_lem modulus (suc fuel) v x m h l p b f above =
    let y = (x + v / x) / 2 in
    let y_above = step_above v x p in
    elim (Bool-cases (ltb y x)) [
      | inr t ↦ (x, rw (t, newton) refl, step_stops v x p (ground (arith, t)), above)
      | inl t ↦
          let less : y < x = ground (arith, t) in
          let some_y : 0 < y = positive y v h y_above in
          let (r, e, lo, hi) =
            newton_lem modulus fuel v y m h l some_y (omega (arith, less, b))
              (omega (arith, less, f)) y_above in
          (r, rw (t, step_lem modulus v y m l some_y (omega (arith, less, b)), newton) e, lo, hi)
    ]
  where
    positive : (y v : ℕ) → 1 < v → v < (y + 1) * (y + 1) → 0 < y
    positive zero v h k = absurd (omega (arith, h, k))
    positive (suc y) v h k = omega arith

begins :
    (modulus fuel v y r : ℕ)
    → ltb v 2 ≡ false
    → u16 ((v + 1) % modulus / 2) ≡ y
    → newton modulus fuel v v y ≡ some r
    → sqrt_u16 modulus fuel v ≡ some r
unfolding sqrt_u16
begins modulus fuel v y r t e p = rw (t, e) p

-- Where the C type `unsigned` holds the argument plus one, fuel of the argument is enough, and the
-- result is the square root rounded down.
pub sqrt_u16-floor :
    (modulus value : ℕ)
    → value + 1 < modulus
    → value < 2 ^ 16
    → (r : ℕ) × (sqrt_u16 modulus value value ≡ some r)
      × (r * r ≤ value)
      × (value < (r + 1) * (r + 1))
unfolding sqrt_u16
sqrt_u16-floor modulus zero m l = (0, refl, omega arith, omega arith)
sqrt_u16-floor modulus (suc zero) m l = (1, refl, omega arith, omega arith)
sqrt_u16-floor modulus (suc (suc n)) m l =
    let v = suc (suc n) in
    let one : v / v ≡ 1 = div_self {n = v} (omega arith) in
    let start : u16 ((v + 1) % modulus / 2) ≡ (v + v / v) / 2 =
      omega (arith, mod-eq_of_lt m, one) in
    let square : v < (v + 1) * (v + 1) = grind arith in
    let (r, e, lo, hi) =
      newton_lem modulus v v v m (omega arith) l (omega arith) (omega arith) (omega arith) square in
    let big : ltb v 2 ≡ false = ground arith in
    (r, begins modulus v v ((v + v / v) / 2) r big start e, lo, hi)
