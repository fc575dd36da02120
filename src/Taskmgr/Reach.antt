-- ===== src/Taskmgr/Reach.antt =====
-- An invariant of every state that the scheduler can reach: a slot in use holds a function.
use pic8_hal.Common.{
  ℕ, zero, suc, ◌≤◌, bit_and, bit_or, ◌≡◌, refl, ap, ◌∙◌, inl, inr, true, false, Option, none, some,
  List, [], ◌∷◌, map, arith, ltb, leb, ◌==◌, Bool-cases, length, set, replicate, get_or-set,
  bit_and_one, bit_and_seven, bit_or_four, bit_and_251,
}
use pic8_hal.Taskmgr.{
  halt, rearm, set_period, reset, stop, run_once, clear_ready, start, free, due, Task, Manager, at,
  free_slot, has_flag, init, spawn, modify, tick_task, tick,
}
use mathlib.Core.Path.{subst}
use pic8_hal.Taskmgr.Order.{wanted}
use pic8_hal.Taskmgr.Slots.{is_used, claim_lem, armed}
use pic8_hal.Taskmgr.Round.{run_once-IsRound, quiet, IsRound, AllHaveFn, HasFn}

abbrev pub IsValid : Manager → Type 0
IsValid m = (i : ℕ) → is_used (at m.tasks i) ≡ true → HasFn m.tasks i

unused-free_slot : is_used free_slot ≡ false
unfolding has_flag
unused-free_slot = refl

at-replicate : (n i : ℕ) → at (replicate n free_slot) i ≡ free_slot
at-replicate zero i = refl
at-replicate (suc n) zero = refl
at-replicate (suc n) (suc i) = at-replicate n i

init-IsValid : (slots : ℕ) → IsValid (init slots)
unfolding init
init-IsValid slots i u = ground (arith, at-replicate slots i, unused-free_slot)

at-map : (ts : List Task) (i : ℕ) → at (map tick_task ts) i ≡ tick_task (at ts i)
at-map [] i = unfold tick_task has_flag in refl
at-map (t ∷ ts) zero = refl
at-map (t ∷ ts) (suc i) = at-map ts i

tick_task_keeps : (t : Task) → (is_used (tick_task t) ≡ is_used t) × ((tick_task t).fn ≡ t.fn)
unfolding tick_task has_flag
tick_task_keeps t =
    ground (arith, bit_or_four t.flags, bit_and_one t.flags, bit_and_one (bit_or t.flags 4))

tick-IsValid : (m : Manager) → IsValid m → IsValid (tick m)
unfolding tick
tick-IsValid m v i u =
    let k = tick_task_keeps (at m.tasks i) in
    let f = v i (ground (arith, at-map m.tasks i, k)) in
    (f.0, ground (arith, at-map m.tasks i, k, f.1))

-- A mutator that keeps the function of its slot keeps the invariant.
set-IsValid :
    (m : Manager) (id : ℕ) (t : Task)
    → IsValid m
    → (is_used t ≡ true → (fn : ℕ) × (t.fn ≡ some fn))
    → IsValid (record m { tasks = set m.tasks id t })
set-IsValid m id t v h i u = elim (Bool-cases (ltb id (length m.tasks))) [
  | inl lt ↦
      let e = get_or-set m.tasks id i t free_slot (ground (arith, lt)) in
      elim (Bool-cases (id == i)) [
        | inl same ↦ let f = h (ground (arith, e, same)) in (f.0, ground (arith, e, same, f.1))
        | inr other ↦ let f = v i (ground (arith, e, other)) in (f.0, ground (arith, e, other, f.1))
      ]
  | inr ge ↦
      let e = set-out m.tasks id t (ground (arith, ge)) in
      let f = v i (ground (arith, e)) in (f.0, ground (arith, e, f.1))
]
  where
    set-out : (ts : List Task) (k : ℕ) (x : Task) → length ts ≤ k → set ts k x ≡ ts
    set-out [] k x le = refl
    set-out (y ∷ ts) zero x le = absurd (omega arith)
    set-out (y ∷ ts) (suc k) x le = ap (λ l. y ∷ l) (set-out ts k x (omega arith))

modify-IsValid :
    (m : Manager) (id : ℕ) (f : Task → Task)
    → ((f (at m.tasks id)).fn ≡ (at m.tasks id).fn)
    → IsValid m
    → IsValid (modify m id f)
unfolding modify
modify-IsValid m id f same v = elim (Bool-cases (leb (length m.tasks) id)) [
  | inl out ↦ rw out v
  | inr inside ↦ elim (Bool-cases (is_used (at m.tasks id))) [
    | inr unused ↦ rw (inside, unused) v
    | inl used ↦
        rw (inside, used)
          (set-IsValid m id (f (at m.tasks id)) v (λ u. let h = v id used in (h.0, same ∙ h.1)))
  ]
]

spawn-IsValid :
    (m : Manager) (fn : Option ℕ) (arg period_ticks priority : ℕ)
    → IsValid m
    → IsValid (spawn m fn arg period_ticks priority).0
unfolding spawn
spawn-IsValid m none arg period_ticks priority v = v
spawn-IsValid m (some fn) arg period_ticks priority v =
    elim (claim_lem (armed fn arg period_ticks priority) 0 m.tasks) [
      | inr (full, e) ↦ rw e v
      | inl (k, c) ↦ rw c.result (set-IsValid m k _ v (λ u. (fn, refl)))
    ]

wanted-is_used : (t : Task) → wanted t ≡ true → is_used t ≡ true
unfolding due has_flag
wanted-is_used t w = ground (arith, bit_and_seven t.flags, bit_and_one t.flags)

IsValid-AllHaveFn : (m : Manager) → IsValid m → AllHaveFn m.tasks
IsValid-AllHaveFn m v i w = v i (wanted-is_used (at m.tasks i) w)

after_round :
    (t : Task)
    → (is_used (free t) ≡ false)
      × (is_used (clear_ready t) ≡ is_used t)
      × ((clear_ready t).fn ≡ t.fn)
unfolding free clear_ready has_flag
after_round t =
    ground (arith, bit_and_251 t.flags, bit_and_one t.flags, bit_and_one (bit_and t.flags 251))

module _ {W : Type 0} (work : ℕ → ℕ → W → W) where
  IsRound-IsValid :
      (m : Manager) (w : W) (out : Option ((Manager × W) × ℕ)) (r : IsRound work m w out)
      → IsValid m
      → IsValid (record m { tasks = r.tasks })
  IsRound-IsValid m w out r v i u = elim (Bool-cases (wanted (at m.tasks i))) [
    | inr idle ↦
        let e = r.slots i in
        let f = v i (ground (arith, e, idle)) in (f.0, ground (arith, e, idle, f.1))
    | inl ready ↦
        let e = r.slots i in
        let a = after_round (at m.tasks i) in
        let b = after_round (clear_ready (at m.tasks i)) in
        let f = v i (wanted-is_used (at m.tasks i) ready) in
        (f.0, ground (arith, e, ready, a, b, f.1))
  ]

  -- One call of the scheduler's interface, or one tick, or one round.
  pub data Step : Manager × W → Manager × W → Type 0 where
    spawned :
        (m : Manager) (w : W) (fn : Option ℕ) (arg period_ticks priority : ℕ)
        → Step (m, w) ((spawn m fn arg period_ticks priority).0, w)
    started : (m : Manager) (w : W) (id : ℕ) → Step (m, w) (start m id, w)
    stopped : (m : Manager) (w : W) (id : ℕ) → Step (m, w) (stop m id, w)
    was_reset : (m : Manager) (w : W) (id : ℕ) → Step (m, w) (reset m id, w)
    period_set :
        (m : Manager) (w : W) (id period_ticks : ℕ) → Step (m, w) (set_period m id period_ticks, w)
    ticked : (m : Manager) (w : W) → Step (m, w) (tick m, w)
    round :
        (m : Manager) (w : W) (s : Manager × W) (n : ℕ)
        → run_once (quiet work) (m, w) ≡ some (s, n)
        → Step (m, w) s

  -- What can come after `task_manager_init`, of a table of `slots` slots.
  pub data Reach (slots : ℕ) (w₀ : W) : Manager × W → Type 0 where
    here : Reach slots w₀ (init slots, w₀)
    next : {s t : Manager × W} → Reach slots w₀ s → Step s t → Reach slots w₀ t

  Step-IsValid : {s t : Manager × W} → Step s t → IsValid s.0 → IsValid t.0
  unfolding start stop reset set_period
  Step-IsValid (spawned m w fn arg p q) v = spawn-IsValid m fn arg p q v
  Step-IsValid (started m w id) v = modify-IsValid m id rearm refl v
  Step-IsValid (stopped m w id) v = modify-IsValid m id halt refl v
  Step-IsValid (was_reset m w id) v = modify-IsValid m id rearm refl v
  Step-IsValid (period_set m w id p) v = modify-IsValid m id (λ t. record t { period = p }) refl v
  Step-IsValid (ticked m w) v = tick-IsValid m v
  Step-IsValid (round m w s n e) v =
      let r = run_once-IsRound work m w (IsValid-AllHaveFn m v) in
      let same : record m { tasks = r.tasks } ≡ s.0 = ground (arith, r.returns, e) in
      subst IsValid same (IsRound-IsValid m w _ r v)

  Reach-IsValid : {slots : ℕ} {w₀ : W} {s : Manager × W} → Reach slots w₀ s → IsValid s.0
  Reach-IsValid {slots} here = init-IsValid slots
  Reach-IsValid (next r st) = Step-IsValid st (Reach-IsValid r)

  -- In every state that is reached from `task_manager_init` by calls of the interface, ticks and
  -- rounds, where the task functions leave the table alone, a round calls no NULL function: it
  -- returns, and does what `IsRound` says. Tasks of the same priority run in the order of their
  -- slots, also where a slot has been used again.
  pub run_once-reached :
      {slots : ℕ} {w₀ : W} (m : Manager) (w : W)
      → Reach slots w₀ (m, w)
      → IsRound work m w (run_once (quiet work) (m, w))
  run_once-reached m w r = run_once-IsRound work m w (IsValid-AllHaveFn m (Reach-IsValid r))
