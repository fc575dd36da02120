-- ===== src/Pic16/Moving.antt =====
-- A 16-bit counter that is read while it runs.
use pic8_hal.Common.{
  ℕ, suc, ◌+◌, ◌*◌, ◌/◌, ◌≤◌, ◌<◌, bit_or, ◌≡◌, sym, ap, ◌∙◌, inl, inr, true, false, some, arith,
  ◌==◌, ==_iff, Bool-cases, u8, u16, bit_or_bytes,
}
use pic8_hal.Pic16.{Sfr}
use pic8_hal.Pic16.Timer1.{reg_tmr1h, reg_tmr1l, read_pair, read_counter}
use pic8_hal.Pic16.Ccp.{ccp_sel, is_instance, get_capture}

-- Two equal readings of the high byte have the low byte between them.
same_page :
    (a b c : ℕ)
    → a ≤ b
    → b ≤ c
    → c < a + 65280
    → u8 (a / 256) ≡ u8 (c / 256)
    → u8 (c / 256) * 256 + u8 b ≡ u16 b
same_page a b c h k l e = omega (arith, h, k, l, e)

-- Behind a carry into the high byte there is none for less than a page.
next_page :
    (a c d f : ℕ)
    → a ≤ c
    → c ≤ d
    → d ≤ f
    → f < a + 256
    → (u8 (a / 256) == u8 (c / 256)) ≡ false
    → u8 (d / 256) ≡ u8 (f / 256)
next_page a c d f h k l m e =
    let carried : a / 256 < c / 256 = ground (arith, e, h) in omega (arith, carried, h, k, l, m)

module _ (hi lo : ℕ) (reads : ℕ → Sfr) (count : ℕ → ℕ) where
  -- At each read the two registers hold the count, modulo 2 ^ 16.
  pub record Runs : Type 0 where
    pub hi_lem : (k : ℕ) → reads k hi ≡ u8 (count k / 256)
    pub lo_lem : (k : ℕ) → reads k lo ≡ u8 (count k)
    pub rises : (k : ℕ) → count k ≤ count (k + 1)

  module _ (runs : Runs) where
    two_on : (k : ℕ) → count k ≤ count (k + 2)
    two_on k = omega (
      arith,
      runs.rises k,
      runs.rises (k + 1),
      ap count {x = k + 1 + 1} {y = k + 2} (omega arith),
    )

    reads_joined :
        (k : ℕ)
        → count (k + 2) < count k + 65280
        → reads k hi ≡ reads (k + 2) hi
        → bit_or (reads (k + 2) hi * 256) (reads (k + 1) lo) ≡ u16 (count (k + 1))
    reads_joined k near same =
        let high = runs.hi_lem (k + 2) in
        let low = runs.lo_lem (k + 1) in
        let next : count (k + 1 + 1) ≡ count (k + 2) = ap count (omega arith) in
        let page : u8 (count k / 256) ≡ u8 (count (k + 2) / 256) =
          sym (runs.hi_lem k) ∙ same ∙ high in
        let joined : bit_or (reads (k + 2) hi * 256) (reads (k + 1) lo)
            ≡ u8 (count (k + 2) / 256) * 256 + u8 (count (k + 1)) =
          rw (high, low)
            (bit_or_bytes (u8 (count (k + 2) / 256)) (u8 (count (k + 1))) (omega arith)) in
        joined
        ∙ same_page (count k) (count (k + 1)) (count (k + 2)) (runs.rises k)
            (omega (arith, runs.rises (k + 1), next)) near page

    read_pair-counts :
        (fuel k : ℕ)
        → count (k + 3 + 2) < count k + 256
        → (j : ℕ) × (j ≤ 4)
          × (read_pair hi lo (suc (suc fuel)) reads k ≡ some (u16 (count (k + j))))
    unfolding read_pair
    read_pair-counts fuel k near =
        let s0 = two_on k in
        let s1 = runs.rises (k + 2) in
        let s2 = two_on (k + 3) in
        let third : count (k + 2 + 1) ≡ count (k + 3) = ap count (omega arith) in
        let near_second : count (k + 3 + 2) < count (k + 3) + 65280 =
          omega (arith, near, s0, s1, s2, third) in
        elim (Bool-cases (reads k hi == reads (k + 2) hi)) [
          | inl e ↦
              let same = (==_iff (reads k hi) (reads (k + 2) hi)).0 e in
              (
                1,
                omega arith,
                rw e (ap some (reads_joined k (omega (arith, near, s0, s1, s2, third)) same)),
              )
          | inr e ↦
              let crossed : (u8 (count k / 256) == u8 (count (k + 2) / 256)) ≡ false =
                ap (λ h. h == u8 (count (k + 2) / 256)) (sym (runs.hi_lem k))
                ∙ ap (λ h. reads k hi == h) (sym (runs.hi_lem (k + 2)))
                ∙ e in
              let same : reads (k + 3) hi ≡ reads (k + 3 + 2) hi =
                runs.hi_lem (k + 3)
                ∙ next_page (count k) (count (k + 2)) (count (k + 3)) (count (k + 3 + 2)) s0
                    (omega (arith, s0, s1, s2, third)) s2 near crossed
                ∙ sym (runs.hi_lem (k + 3 + 2)) in
              let equal : (reads (k + 3) hi == reads (k + 3 + 2) hi) ≡ true = (==_iff _ _).1 same in
              let at : count (k + 3 + 1) ≡ count (k + 4) = ap count (omega arith) in
              (
                4,
                omega arith,
                rw (e, equal) (ap some (reads_joined (k + 3) near_second same ∙ ap u16 at)),
              )
        ]

    from_start :
        (fuel : ℕ)
        → count 5 < count 0 + 256
        → (j : ℕ) × (j ≤ 4) × (read_pair hi lo (suc (suc fuel)) reads 0 ≡ some (u16 (count j)))
    from_start fuel near =
        let (j, at_most, e) = read_pair-counts fuel 0 near in
        (j, at_most, e ∙ ap (λ i. some (u16 (count i))) (omega arith))

-- Where Timer1 runs upward and by less than 256 counts over six reads, EPIC_TIMER1_ReadCounter returns,
-- with fuel for two rounds, what the counter is at one of the first five reads.
pub read_counter-moving :
    (reads : ℕ → Sfr) (count : ℕ → ℕ) (fuel : ℕ)
    → Runs reg_tmr1h reg_tmr1l reads count
    → count 5 < count 0 + 256
    → (j : ℕ) × (j ≤ 4) × (read_counter (suc (suc fuel)) reads ≡ some (u16 (count j)))
unfolding read_counter
read_counter-moving reads count fuel runs near =
    from_start reg_tmr1h reg_tmr1l reads count runs fuel near

-- The same of EPIC_CCP_GetCapture.
get_capture-moving :
    (reads : ℕ → Sfr) (count : ℕ → ℕ) (fuel inst : ℕ)
    → is_instance inst ≡ true
    → Runs (ccp_sel inst).cprh (ccp_sel inst).cprl reads count
    → count 5 < count 0 + 256
    → (j : ℕ) × (j ≤ 4) × (get_capture (suc (suc fuel)) reads inst ≡ some (u16 (count j)))
unfolding get_capture
get_capture-moving reads count fuel inst known runs near =
    rw known (from_start (ccp_sel inst).cprh (ccp_sel inst).cprl reads count runs fuel near)
