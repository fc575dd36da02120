-- ===== src/Tick/Closest.antt =====
-- The configuration of Timer2 with the period closest to 1 ms.
use pic8_hal.Common.{
  ℕ, zero, suc, ◌+◌, ◌-◌, ◌*◌, ◌/◌, ◌^◌, ◌≤◌, ◌<◌, ◌≡◌, ap, ◌∙◌, ◌⊎◌, inl, inr, ◌||◌, arith, ltb,
  leb, ◌==◌, if◌then◌else◌, Bool-cases, u8,
}
use native.Mathlib.Nat.{mul-le-mul_left, div-lt_iff_lt-mul, mul_comm}
use pic8_hal.Common.Quotient.{div_bounds}
use pic8_hal.Tick.{Best, error_of, try_period, try_both, try_post, compute_period}

-- Trying a period never makes the error larger, and leaves at most its own.
try_period_lem :
    (target p q nn : ℕ) (best : Best)
    → ((try_period target p q nn best).err ≤ best.err)
      × (0 < nn → nn ≤ 256 → (try_period target p q nn best).err ≤ error_of target (p * q * nn))
unfolding try_period
try_period_lem target p q nn best = (ground arith, ground arith)

-- Of all periods the floor or the ceiling is the closest.
closest :
    (target w n nn : ℕ)
    → 0 < nn
    → w * n ≤ target
    → target < w * (n + 1)
    → (n < nn → error_of target (w * (n + 1)) ≤ error_of target (w * nn))
      × (nn ≤ n → error_of target (w * n) ≤ error_of target (w * nn))
unfolding error_of
closest target w n nn h lo hi = (
  λ l. ground (arith, mul-le-mul_left {m = n + 1} {n = nn} w (omega arith)),
  λ l. ground (arith, mul-le-mul_left {m = nn} {n = n} w l),
)

try_both_lem :
    (target p q : ℕ) (best : Best)
    → ((try_both target p q best).err ≤ best.err)
      × (0 < p * q
          → target < p * q * 257
          → (nn : ℕ) → 0 < nn
          → nn ≤ 256
          → (try_both target p q best).err ≤ error_of target (p * q * nn))
unfolding try_both
try_both_lem target p q best =
    let w = p * q in
    let n = target / w in
    let first = try_period_lem target p q n best in
    let second = try_period_lem target p q (n + 1) (try_period target p q n best) in
    (
      omega (arith, first.0, second.0),
      λ h l nn a b.
          let bounds = div_bounds target w h in
          let near = closest target w n nn a bounds.0 bounds.1 in
          let small : n < 257 = (div-lt_iff_lt-mul h).1 (omega (arith, mul_comm w 257, l)) in
          elim (Bool-cases (ltb n nn)) [
            | inl t ↦
                let up : n < nn = ground (arith, t) in
                omega (arith, second.1 (omega arith) (omega (arith, up, b)), near.0 up)
            | inr t ↦
                let down : nn ≤ n = ground (arith, t) in
                omega (
                  arith,
                  second.0,
                  first.1 (omega (arith, a, down)) (omega (arith, small)),
                  near.1 down,
                )
          ],
    )

try_post_lem :
    (target p n : ℕ) (best : Best)
    → ((try_post target p n best).err ≤ best.err)
      × ((q nn : ℕ)
          → 0 < q
          → q ≤ n
          → 0 < p * q
          → target < p * q * 257
          → 0 < nn
          → nn ≤ 256
          → (try_post target p n best).err ≤ error_of target (p * q * nn))
unfolding try_post
try_post_lem target p zero best = (omega arith, λ q nn a b h l c d. absurd (omega (arith, a, b)))
try_post_lem target p (suc n) best =
    let ih = try_post_lem target p n best in
    let this = try_both_lem target p (suc n) (try_post target p n best) in
    let this_q : (q : ℕ)
        → q ≡ suc n
        → (nn : ℕ) → 0 < p * q
        → target < p * q * 257
        → 0 < nn
        → nn ≤ 256
        → (try_both target p (suc n) (try_post target p n best)).err
          ≤ error_of target (p * q * nn) =
      λ q at nn. rw at (λ h l c d. this.1 h l nn c d) in
    (
      omega (arith, ih.0, this.0),
      λ q nn a b h l c d. elim (Bool-cases (leb q n)) [
        | inl t ↦ omega (arith, this.0, ih.1 q nn a (ground (arith, t)) h l c d)
        | inr t ↦ let at : q ≡ suc n = ground (arith, t, b) in this_q q at nn h l c d
      ],
    )

-- The error recorded is that of the configuration recorded, once there is one.
abbrev IsOwn : ℕ → Best → Type 0
IsOwn target best =
    best.err < 2 ^ 32 - 1 → best.err ≡ error_of target (best.pre * (best.post + 1) * (best.pr2 + 1))

try_period-IsOwn :
    (target p q nn : ℕ) (best : Best)
    → 0 < q
    → IsOwn target best
    → IsOwn target (try_period target p q nn best)
unfolding try_period
try_period-IsOwn target p q nn best h o = elim (Bool-cases (ltb nn 1 || ltb 256 nn)) [
  | inl skip ↦ rw skip o
  | inr fine ↦ elim (Bool-cases (ltb (error_of target (p * q * nn)) best.err)) [
    | inr worse ↦ rw (fine, worse) o
    | inl better ↦
        let post : q ≡ q - 1 + 1 = omega arith in
        let pr2 : nn ≡ u8 (nn - 1) + 1 = ground (arith, fine) in
        rw (fine, better)
          (λ l.
            ap (λ k. error_of target (p * k * nn)) post
            ∙ ap (λ k. error_of target (p * (q - 1 + 1) * k)) pr2)
  ]
]

try_post-IsOwn :
    (target p n : ℕ) (best : Best) → IsOwn target best → IsOwn target (try_post target p n best)
unfolding try_post try_both
try_post-IsOwn target p zero best o = o
try_post-IsOwn target p (suc n) best o =
    try_period-IsOwn target p (suc n) _ _ (omega arith)
      (try_period-IsOwn target p (suc n) _ _ (omega arith) (try_post-IsOwn target p n best o))

-- The target of `compute_period`: instruction cycles in 1 ms, at least one.
abbrev pub cycles_per_ms : ℕ → ℕ
cycles_per_ms fosc_hz = if fosc_hz / 4000 == 0 then 1 else fosc_hz / 4000

-- `compute_period` chooses a configuration of Timer2 of which no other is closer to 1 ms: its error
-- is at most that of every prescaler 1, 4 or 16, postscaler 1 to 16 and period 1 to 256, if the
-- target is below 257 times that prescaler and postscaler; and its error is the one recorded, where
-- that is below 2 ^ 32 - 1.
pub compute_period-closest :
    (fosc_hz p q nn : ℕ)
    → (p ≡ 1) ⊎ ((p ≡ 4) ⊎ (p ≡ 16))
    → 0 < q
    → q ≤ 16
    → 0 < nn
    → nn ≤ 256
    → cycles_per_ms fosc_hz < p * q * 257
    → let target = cycles_per_ms fosc_hz in
      let best = compute_period fosc_hz in
      (best.err ≤ error_of target (p * q * nn))
      × (best.err < 2 ^ 32 - 1
          → best.err ≡ error_of target (best.pre * (best.post + 1) * (best.pr2 + 1)))
unfolding compute_period
compute_period-closest fosc_hz p q nn c a b d e l =
    let target = cycles_per_ms fosc_hz in
    let start : Best = record { err = 2 ^ 32 - 1; pr2 = 255; pre = 1; post = 0 } in
    let by_16 = try_post_lem target 16 16 start in
    let by_4 = try_post_lem target 4 16 (try_post target 16 16 start) in
    let by_1 = try_post_lem target 1 16 (try_post target 4 16 (try_post target 16 16 start)) in
    let own : IsOwn target start = λ m. absurd (omega (arith, m)) in
    (
      elim c [
        | inl p1 ↦
            at p 1 (compute_period fosc_hz).err p1 (λ m. by_1.1 q nn a b (omega arith) m d e) l
        | inr (inl p4) ↦
            at p 4 (compute_period fosc_hz).err p4
              (λ m. omega (arith, by_1.0, by_4.1 q nn a b (omega arith) m d e)) l
        | inr (inr p16) ↦
            at p 16 (compute_period fosc_hz).err p16
              (λ m. omega (arith, by_1.0, by_4.0, by_16.1 q nn a b (omega arith) m d e)) l
      ],
      try_post-IsOwn target 1 16 _
          (try_post-IsOwn target 4 16 _ (try_post-IsOwn target 16 16 _ own)),
    )
  where
    at :
        (x k err : ℕ)
        → x ≡ k
        → (cycles_per_ms fosc_hz < k * q * 257
            → err ≤ error_of (cycles_per_ms fosc_hz) (k * q * nn))
        → cycles_per_ms fosc_hz < x * q * 257
        → err ≤ error_of (cycles_per_ms fosc_hz) (x * q * nn)
    at x k err same f = rw same f
