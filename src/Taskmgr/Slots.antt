-- ===== src/Taskmgr/Slots.antt =====
-- The slots of the table: what `task_spawn` claims, and an invariant of every operation.
use pic8_hal.Common.{
  ℕ, zero, suc, ◌+◌, ◌%◌, ◌≤◌, ◌<◌, bit_or, ◌≡◌, refl, ap, ◌⊎◌, inl, inr, Bool, true, false, some,
  List, [], ◌∷◌, arith, Bool-cases, length, set, u8,
}
use pic8_hal.Taskmgr.{
  flag_enabled, spawn, count, arm_countdown, Manager, Task, at, flag_used, id_invalid, has_flag,
  claim,
}

abbrev pub is_used : Task → Bool
is_used t = has_flag t.flags flag_used

-- The loop of `task_spawn` over the slots from `i` on, where slot `k` of them is the first free one.
pub record Claims (task : Task) (i : ℕ) (ts : List Task) (k : ℕ) : Type 0 where
  pub inside : k < length ts
  pub was_free : is_used (at ts k) ≡ false
  pub lowest : (j : ℕ) → j < k → is_used (at ts j) ≡ true
  pub result : claim task i ts ≡ (set ts k task, u8 (i + k))

abbrev pub IsFull : List Task → Type 0
IsFull ts = (j : ℕ) → j < length ts → is_used (at ts j) ≡ true

pub claim_lem :
    (task : Task) (i : ℕ) (ts : List Task)
    → ((k : ℕ) × Claims task i ts k) ⊎ (IsFull ts × (claim task i ts ≡ (ts, id_invalid)))
unfolding claim
claim_lem task i [] = inr ((λ j h. absurd (omega arith)), refl)
claim_lem task i (t ∷ ts) = elim (Bool-cases (is_used t)) [
  | inr unused ↦ inl (
    0,
    record {
      inside = omega arith;
      was_free = unused;
      lowest = λ j h. absurd (omega arith);
      result = rw unused (ap (λ n. (task ∷ ts, n % 256)) (omega arith));
    },
  )
  | inl used ↦ elim (claim_lem task (i + 1) ts) [
    | inl (k, c) ↦ inl (
      suc k,
      record {
        inside = omega (arith, c.inside);
        was_free = c.was_free;
        lowest = lowest t ts k used c.lowest;
        result = rw (used, c.result) (ap (λ n. (t ∷ set ts k task, n % 256)) (omega arith));
      },
    )
    | inr (full, e) ↦ inr (all_used t ts used full, rw (used, e))
  ]
]
  where
    lowest :
        (t : Task) (ts : List Task) (k : ℕ)
        → is_used t ≡ true
        → ((j : ℕ) → j < k → is_used (at ts j) ≡ true)
        → (j : ℕ) → j < suc k
        → is_used (at (t ∷ ts) j) ≡ true
    lowest t ts k u h zero lt = u
    lowest t ts k u h (suc j) lt = h j (omega arith)

    all_used : (t : Task) (ts : List Task) → is_used t ≡ true → IsFull ts → IsFull (t ∷ ts)
    all_used t ts u h zero lt = u
    all_used t ts u h (suc j) lt = h j (omega arith)

-- The task that `task_spawn` stores.
abbrev pub armed : ℕ → ℕ → ℕ → ℕ → Task
armed fn arg period_ticks priority = record {
  fn = some fn;
  arg = arg;
  period = period_ticks;
  countdown = arm_countdown period_ticks;
  priority = priority;
  flags = bit_or flag_used flag_enabled;
}

count-set :
    (ts : List Task) (k : ℕ) (task : Task)
    → k < length ts
    → is_used (at ts k) ≡ false
    → is_used task ≡ true
    → count (set ts k task) ≡ count ts + 1
unfolding count
count-set [] k task h u v = absurd (omega arith)
count-set (t ∷ ts) zero task h u v = ground arith
count-set (t ∷ ts) (suc k) task h u v = ground (arith, count-set ts k task)

-- What `task_spawn` does to a manager, with its result `out`.
pub record Spawned (m : Manager) (task : Task) (out : Manager × ℕ) : Type 0 where
  pub inside : out.1 < length m.tasks
  pub was_free : is_used (at m.tasks out.1) ≡ false
  pub lowest : (j : ℕ) → j < out.1 → is_used (at m.tasks j) ≡ true
  pub stored : out.0 ≡ record m { tasks = set m.tasks out.1 task }
  pub counted : count out.0.tasks ≡ count m.tasks + 1

-- In a table of at most 255 slots `task_spawn` stores the armed task in the lowest free slot,
-- returns its number, changes nothing else and makes the count of tasks one more; if no slot is
-- free it returns TASK_ID_INVALID and changes nothing.
pub spawn-Spawned :
    (m : Manager) (fn arg period_ticks priority : ℕ)
    → length m.tasks ≤ 255
    → Spawned m (armed fn arg period_ticks priority) (spawn m (some fn) arg period_ticks priority)
      ⊎ (IsFull m.tasks × (spawn m (some fn) arg period_ticks priority ≡ (m, id_invalid)))
unfolding spawn
spawn-Spawned m fn arg period_ticks priority h =
    elim (claim_lem (armed fn arg period_ticks priority) 0 m.tasks) [
      | inr (full, e) ↦ inr (full, rw e refl)
      | inl (k, c) ↦
          let small : u8 (0 + k) ≡ k = omega (arith, c.inside) in
          rw (c.result, small)
            (inl (record {
              inside = c.inside;
              was_free = c.was_free;
              lowest = c.lowest;
              stored = refl;
              counted = count-set m.tasks k _ c.inside c.was_free (unfold has_flag in refl);
            }))
    ]
