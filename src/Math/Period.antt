-- ===== src/Math/Period.antt =====
-- The shift register runs through every state but 0.
use pic8_hal.Common.{
  ℕ, zero, suc, ◌+◌, ◌-◌, ◌<◌, ◌≡◌, refl, sym, ap, ◌∙◌, ◌≢◌, inl, inr, true, false, Option, none,
  some, arith, ◌==◌, Bool-cases,
}
use mathlib.Core.Option.{none-ne-some, some-injective}
use pic8_hal.Math.Rand.{seed, rand_next}

-- The steps from `state` back to it, if there are fewer than `fuel`.
walk : ℕ → ℕ → ℕ → ℕ → Option ℕ
walk zero start state n = none
walk (suc fuel) start state n = elim (state == start) [
  | true ↦ some n
  | false ↦ walk fuel start (rand_next state) (n + 1)
]

first_return : walk 70000 seed (rand_next seed) 1 ≡ some 65535
unfolding walk rand_next
first_return = refl

pub iterate : ℕ → ℕ → ℕ
iterate zero state = state
iterate (suc n) state = iterate n (rand_next state)

iterate_lem : (n state : ℕ) → iterate (suc n) state ≡ iterate n (rand_next state)
unfolding iterate
iterate_lem n state = refl

iterate-zero : (state : ℕ) → iterate 0 state ≡ state
unfolding iterate
iterate-zero state = refl

iterate-iterate : (a b state : ℕ) → iterate a (iterate b state) ≡ iterate (b + a) state
iterate-iterate a zero state =
    ap (iterate a) (iterate-zero state)
    ∙ ap (λ n. iterate n state) {x = a} {y = 0 + a} (omega arith)
iterate-iterate a (suc b) state =
    ap (iterate a) (iterate_lem b state)
    ∙ iterate-iterate a b (rand_next state)
    ∙ sym (iterate_lem (b + a) state)
    ∙ ap (λ n. iterate n state) {x = suc (b + a)} {y = suc b + a} (omega arith)

-- What a walk that ends says of the states that it has passed.
walk_lem :
    (fuel start state n m : ℕ)
    → walk fuel start state n ≡ some m
    → (d : ℕ) × (m ≡ n + d)
      × (iterate d state ≡ start)
      × ((k : ℕ) → k < d → iterate k state ≢ start)
unfolding walk
walk_lem zero start state n m e = absurd (none-ne-some m e)
walk_lem (suc fuel) start state n m e = elim (Bool-cases (state == start)) [
  | inl here ↦
      let now : some n ≡ some m = rw (here, walk) at e in
      let at : state ≡ start = ground (arith, here) in
      (
        0,
        sym (some-injective n m now) ∙ omega arith,
        iterate-zero state ∙ at,
        λ k l. absurd (omega (arith, l)),
      )
  | inr there ↦
      let (d, count, back, before) =
        walk_lem fuel start (rand_next state) (n + 1) m (rw (there, walk) at e) in
      let other : state ≢ start = ground (arith, there) in
      (suc d, omega (arith, count), iterate_lem d state ∙ back, passed d state start other before)
]
  where
    passed :
        (d state start : ℕ)
        → state ≢ start
        → ((k : ℕ) → k < d → iterate k (rand_next state) ≢ start)
        → (k : ℕ) → k < suc d
        → iterate k state ≢ start
    passed d state start other before zero l e = other (sym (iterate-zero state) ∙ e)
    passed d state start other before (suc k) l e =
        before k (omega (arith, l)) (sym (iterate_lem k state) ∙ e)

-- The walk from the state after the seed.
seed_walk : (iterate 65535 seed ≡ seed) × ((k : ℕ) → 0 < k → k < 65535 → iterate k seed ≢ seed)
seed_walk =
    let (d, count, back, before) = walk_lem 70000 seed (rand_next seed) 1 65535 first_return in
    let steps : suc d ≡ 65535 = omega (arith, count) in
    (
      ap (λ n. iterate n seed) (sym steps) ∙ iterate_lem d seed ∙ back,
      λ k p l. from_next k d p (omega (arith, steps, l)) before,
    )
  where
    from_next :
        (k d : ℕ)
        → 0 < k
        → k < suc d
        → ((j : ℕ) → j < d → iterate j (rand_next seed) ≢ seed)
        → iterate k seed ≢ seed
    from_next zero d p l before e = absurd (omega (arith, p))
    from_next (suc k) d p l before e = before k (omega (arith, l)) (sym (iterate_lem k seed) ∙ e)

-- The values from the seed on repeat after 65535 steps, and until then no two are the same: the
-- register has the greatest period that 16 bits without 0 allow.
pub rand_next-period :
    (i j : ℕ)
    → i < j
    → j < 65535
    → (iterate (i + 65535) seed ≡ iterate i seed) × (iterate i seed ≢ iterate j seed)
rand_next-period i j l h =
    let (whole, before) = seed_walk in
    (
      ap (λ n. iterate n seed) {x = i + 65535} {y = 65535 + i} (omega arith)
          ∙ sym (iterate-iterate i 65535 seed)
          ∙ ap (iterate i) whole,
      λ e.
          let rest = 65535 - i in
          let first : iterate rest (iterate i seed) ≡ seed =
            iterate-iterate rest i seed
            ∙ ap (λ n. iterate n seed) {x = i + rest} {y = 65535} (omega (arith, l, h))
            ∙ whole in
          let second : iterate rest (iterate j seed) ≡ iterate (j - i) seed =
            iterate-iterate rest j seed
            ∙ ap (λ n. iterate n seed) {x = j + rest} {y = 65535 + (j - i)} (omega (arith, l, h))
            ∙ sym (iterate-iterate (j - i) 65535 seed)
            ∙ ap (iterate (j - i)) whole in
          before (j - i) (omega (arith, l)) (omega (arith, l, h))
            (sym second ∙ ap (iterate rest) (sym e) ∙ first),
    )
