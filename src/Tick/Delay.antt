-- ===== src/Tick/Delay.antt =====
-- The loop of `epic_tick_delay_ms` against the clock.
use native.Mathlib.Nat.{mul_assoc, mul_comm, mul-le-mul_right, div-eq_of_lt-le}
use mathlib.Core.Path.{subst}
use pic8_hal.Common.{
  ℕ, zero, suc, ◌+◌, ◌-◌, ◌*◌, ◌/◌, ◌^◌, ◌≤◌, ◌<◌, bit_and, ◌≡◌, refl, sym, ap, ◌∙◌, inl, inr, true,
  false, some, arith, ltb, ◌==◌, if◌then◌else◌, ltb→lt, Bool-cases, u32,
}
use pic8_hal.Pic16.{Sfr, poke, bit_test}
use pic8_hal.Pic16.Irq
use pic8_hal.Pic16.Irq.{get_flag}
use pic8_hal.Pic16.Dispatch.{Handlers}
use pic8_hal.Pic16.Sim.{Machine}
use pic8_hal.Tick.{elapsed}
use pic8_hal.Tick.Timebase.{get, get_on, harness_tick, wait_since}
use pic8_hal.Tick.Overflow.{OthersInert}
use pic8_hal.Tick.Steps.{Clock, clock, step-advance}
use pic8_hal.Tick.Count.{Shows, Shows-advance, pre_of, post_of, period}

-- The digits below the end of a period are less than one.
below_period : (x y z nn p r : ℕ) → x < p → y < nn → z < r → (z * nn + y) * p + x < p * nn * r
below_period x y z nn p r hx hy hz =
    let next : z + 1 ≤ r = omega (arith, hz) in
    let rows : (z + 1) * nn ≤ r * nn = mul-le-mul_right nn next in
    let cells : (z * nn + y + 1) * p ≤ r * nn * p = mul-le-mul_right p (omega (arith, rows, hy)) in
    let same : p * nn * r ≡ r * nn * p =
      mul_comm (p * nn) r ∙ ap (λ t. r * t) (mul_comm p nn) ∙ sym (mul_assoc r nn p) in
    omega (arith, same, cells, hx)

below : (a b l n : ℕ) → a * l ≤ n → n < b * l → a < b
below a b l n lo hi = elim (Bool-cases (ltb a b)) [
  | inl e ↦ ltb→lt a b e
  | inr e ↦
      let over : b * l ≤ a * l = mul-le-mul_right l (ground (arith, e)) in
      absurd (omega (arith, over, lo, hi))
]

module _ (t2con pr2 n : ℕ) (c : Clock) (shown : Shows t2con pr2 n c) where
  abbrev whole : ℕ
  whole = period t2con pr2

  pub Shows-bounds : (shown.q * whole ≤ n) × (n < (shown.q + 1) * whole)
  Shows-bounds =
      let below =
        below_period shown.x shown.y shown.z (pr2 + 1) (pre_of t2con) (post_of t2con) shown.x_bound
          (omega (arith, shown.y_bound)) shown.z_bound in
      (omega (arith, shown.total), omega (arith, shown.total, below))

  pub Shows-quotient : n / whole ≡ shown.q
  Shows-quotient = div-eq_of_lt-le whole (Shows-bounds.0) (Shows-bounds.1)

module _ (h : Handlers ℕ) (inert : OthersInert h) where
  restore-clock :
      (m : Machine ℕ) (s : Sfr) (prev : ℕ)
      → clock (record m { sfr = Irq.restore s prev }) ≡ clock (record m { sfr = s })
  unfolding Irq.restore get_flag
  restore-clock m s prev = elim (Bool-cases (prev == 0)) [ inl e ↦ rw e refl | inr e ↦ rw e refl ]

  -- Reading the count leaves the clock alone.
  pub get_on-clock : (m : Machine ℕ) → clock (get_on h m).1 ≡ clock m
  unfolding get Irq.disable get_flag
  get_on-clock m =
      restore-clock m (poke m.sfr 0x0B (bit_and (m.sfr 0x0B) 127))
        (if bit_test (m.sfr 0x0B) 0x80 then 1 else 0)

  pub get_on-value : (m : Machine ℕ) → (get_on h m).0 ≡ (clock m).at.tick_ms
  unfolding get
  get_on-value m = refl

  module _ (t2con pr2 : ℕ) (on : bit_test t2con 4 ≡ true) (small : pr2 < 255) where
    abbrev pub Reads : ℕ → Machine ℕ → Type 0
    Reads n m = Shows t2con pr2 n (clock m)

    abbrev length_of : ℕ
    length_of = period t2con pr2

    pub get_on-Reads : (n : ℕ) (m : Machine ℕ) → Reads n m → Reads n (get_on h m).1
    get_on-Reads n m shown = subst (Shows t2con pr2 n) (sym (get_on-clock m)) shown

    pub harness_tick-Reads : (n : ℕ) (m : Machine ℕ) → Reads n m → Reads (n + 1) (harness_tick h m)
    unfolding harness_tick
    harness_tick-Reads n m shown =
        let clear : (clock m).at.flag ≡ false = ap (λ c. c.at.flag) shown.clock_lem in
        subst (Shows t2con pr2 (n + 1)) (sym (step-advance h inert m clear))
          (Shows-advance t2con pr2 on small n (clock m) shown)

    -- The wait ends, at the cycle `n`.
    pub record Ends (fuel t0 ms n : ℕ) (m : Machine ℕ) : Type 0 where
      pub machine : Machine ℕ
      pub returns : wait_since h fuel t0 ms m ≡ some machine
      pub reads : Reads n machine

    abbrev pub ends : ℕ → ℕ → ℕ
    ends target n = if ltb n target then target else n

    module _ (fuel t0 ms t n : ℕ) (m : Machine ℕ) where
      waits_on :
          ltb n t ≡ true
          → ltb (elapsed (get_on h m).0 t0) ms ≡ true
          → Ends fuel t0 ms (ends t (n + 1)) (harness_tick h (get_on h m).1)
          → Ends (suc fuel) t0 ms (ends t n) m
      unfolding wait_since
      waits_on early test rest =
          let same : ends t (n + 1) ≡ ends t n = ground (arith, early) in
          record {
            machine = rest.machine;
            returns = rw test rest.returns;
            reads = subst (λ n. Reads n rest.machine) same rest.reads;
          }

      returns_now :
          ltb n t ≡ false
          → ltb (elapsed (get_on h m).0 t0) ms ≡ false
          → Reads n (get_on h m).1
          → Ends (suc fuel) t0 ms (ends t n) m
      unfolding wait_since
      returns_now late test read =
          let same : n ≡ ends t n = ground (arith, late) in
          record {
            machine = (get_on h m).1;
            returns = rw test refl;
            reads = subst (λ n. Reads n (get_on h m).1) same read;
          }

    -- The difference of the counts, while it is one of a delay.
    elapsed_lem : (k q ms : ℕ) → q ≤ k → k ≤ q + ms → ms < 2 ^ 32 → elapsed (u32 k) (u32 q) ≡ k - q
    elapsed_lem k q ms lo hi small_ms = omega (arith, lo, hi, small_ms)

    -- The test of the loop says whether the cycle is before the end of the delay.
    waits :
        (q ms n : ℕ) (m : Machine ℕ)
        → Reads n m
        → ms < 2 ^ 32
        → q * length_of ≤ n
        → n < (q + ms + 1) * length_of
        → ltb (elapsed (get_on h m).0 (u32 q)) ms ≡ ltb n ((q + ms) * length_of)
    waits q ms n m shown small_ms lo hi =
        let t = (q + ms) * length_of in
        let k = shown.q in
        let bounds = Shows-bounds t2con pr2 n (clock m) shown in
        let at_least : q ≤ k = omega (arith, below q (k + 1) length_of n lo bounds.1) in
        let at_most : k ≤ q + ms = omega (arith, below k (q + ms + 1) length_of n bounds.0 hi) in
        let now : (get_on h m).0 ≡ u32 k =
          get_on-value m ∙ ap (λ c. c.at.tick_ms) shown.clock_lem in
        let since : elapsed (get_on h m).0 (u32 q) ≡ k - q =
          ap (λ v. elapsed v (u32 q)) now ∙ elapsed_lem k q ms at_least at_most small_ms in
        ap (λ v. ltb v ms) since ∙ elim (Bool-cases (ltb n t)) [
          | inl e ↦
              let inside = below k (q + ms) length_of n bounds.0 (ltb→lt n t e) in
              rw e (ground (arith, inside, at_least))
          | inr e ↦
              let reached = below (q + ms) (k + 1) length_of n (ground (arith, e)) bounds.1 in
              rw e (ground (arith, reached, at_most))
        ]

    pub wait_since-Ends :
        (fuel q ms n : ℕ) (m : Machine ℕ)
        → Reads n m
        → ms < 2 ^ 32
        → q * length_of ≤ n
        → n < (q + ms + 1) * length_of
        → (q + ms) * length_of < n + fuel
        → 0 < fuel
        → Ends fuel (u32 q) ms (ends ((q + ms) * length_of) n) m
    wait_since-Ends zero q ms n m shown small_ms lo hi enough some_fuel =
        absurd (omega (arith, some_fuel))
    wait_since-Ends (suc fuel) q ms n m shown small_ms lo hi enough some_fuel =
        let t = (q + ms) * length_of in
        let m' = (get_on h m).1 in
        let test = waits q ms n m shown small_ms lo hi in
        let read : Reads n m' = get_on-Reads n m shown in
        elim (Bool-cases (ltb n t)) [
          | inl e ↦
              let early = ltb→lt n t e in
              let later : n + 1 < (q + ms + 1) * length_of =
                let bounds = Shows-bounds t2con pr2 n (clock m) shown in
                omega (arith, early, bounds) in
              let rest =
                wait_since-Ends fuel q ms (n + 1) (harness_tick h m') (harness_tick-Reads n m' read)
                  small_ms (omega (arith, lo)) later (omega (arith, enough))
                  (omega (arith, enough, early)) in
              waits_on fuel (u32 q) ms t n m e (test ∙ e) rest
          | inr e ↦ returns_now fuel (u32 q) ms t n m e (test ∙ e) read
        ]
