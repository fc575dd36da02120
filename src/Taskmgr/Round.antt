-- ===== src/Taskmgr/Round.antt =====
-- A whole round of `task_manager_run_once`, where the task functions work on the rest of the world
-- and leave the table alone.
use pic8_hal.Common.{
  ℕ, suc, ◌<◌, ◌≡◌, refl, ap, ◌∙◌, ◌≢◌, inl, inr, true, not, ◌&&◌, Option, none, some, List, [],
  ◌∷◌, arith, ◌==◌, if◌then◌else◌, Bool-cases, length, set, get_or-set, get_or-out,
}
use mathlib.Core.Path.{ap₂}
use pic8_hal.Taskmgr.{
  Task, Manager, at, free_slot, clear_ready, snapshot, free, run_tasks, run_once,
}
use pic8_hal.Taskmgr.Order.{
  elem, wanted, wanted_count, wanted_count-le, IsOrdered, IsSnapshot, snapshot-IsSnapshot,
  length-snapshot, IsDistinct, IsOrdered-IsDistinct,
}

-- The slot holds a function.
abbrev pub HasFn : List Task → ℕ → Type 0
HasFn ts i = (fn : ℕ) × ((at ts i).fn ≡ some fn)

-- Every slot that the scan can choose holds a function.
abbrev pub AllHaveFn : List Task → Type 0
AllHaveFn ts = (i : ℕ) → wanted (at ts i) ≡ true → HasFn ts i

module _ {W : Type 0} (work : ℕ → ℕ → W → W) where
  -- The user code as a call: it does its work and does not touch the scheduler.
  abbrev pub quiet : ℕ → ℕ → Manager × W → Manager × W
  quiet fn arg (m, w) = (m, work fn arg w)

  abbrev pub work_of : Task → W → W
  work_of t w = elim t.fn [ none ↦ w | some fn ↦ work fn t.arg w ]

  -- The work of the tasks of a table, in order.
  abbrev pub works : List Task → List ℕ → W → W
  works ts [] w = w
  works ts (i ∷ order) w = works ts order (work_of (at ts i) w)

  -- The table after the slots of `order` have run: the one-shots among them are free.
  abbrev pub ran : List ℕ → List Task → ℕ → Task
  ran order ts j = if elem j order && (at ts j).period == 0 then free (at ts j) else at ts j

  works-same :
      (ts us : List Task) (order : List ℕ) (w : W)
      → ((j : ℕ) (v : W) → elem j order ≡ true → work_of (at us j) v ≡ work_of (at ts j) v)
      → works us order w ≡ works ts order w
  works-same ts us [] w same = refl
  works-same ts us (i ∷ order) w same =
      works-same ts us order (work_of (at us i) w) (λ j v e. same j v (ground arith))
      ∙ ap (λ v. works ts order v) (same i w (ground arith))

  record Ran (order : List ℕ) (m : Manager) (w : W) (out : Option (Manager × W)) : Type 0 where
    tasks : List Task
    returns : out ≡ some (record m { tasks = tasks }, works m.tasks order w)
    slots : (j : ℕ) → at tasks j ≡ ran order m.tasks j

  -- The table after slot `i` has run.
  abbrev next : ℕ → List Task → List Task
  next i ts = if (at ts i).period == 0 then set ts i (free (at ts i)) else ts

  HasFn-lt-length : (ts : List Task) (i : ℕ) → HasFn ts i → i < length ts
  HasFn-lt-length ts i h = ground (arith, h.1, get_or-out ts i free_slot)

  at-next :
      (i j : ℕ) (ts : List Task)
      → HasFn ts i
      → at (next i ts) j ≡ (if j == i && (at ts j).period == 0 then free (at ts j) else at ts j)
  at-next i j ts h =
      ground (arith, get_or-set ts i j (free (at ts i)) free_slot (HasFn-lt-length ts i h))

  HasFn-next : (i j : ℕ) (ts : List Task) → HasFn ts i → HasFn ts j → j ≢ i → HasFn (next i ts) j
  HasFn-next i j ts h hj ne = (hj.0, ground (arith, at-next i j ts h, hj.1))

  run_tasks-cons :
      (i : ℕ) (order : List ℕ) (m : Manager) (w : W)
      → HasFn m.tasks i
      → run_tasks quiet (i ∷ order) (m, w)
        ≡ run_tasks quiet order (record m { tasks = next i m.tasks }, work_of (at m.tasks i) w)
  unfolding run_tasks
  run_tasks-cons i order m w h = ground (arith, h.1)

  run_tasks-Ran :
      (order : List ℕ) (m : Manager) (w : W)
      → IsDistinct order
      → ((i : ℕ) → elem i order ≡ true → HasFn m.tasks i)
      → Ran order m w (run_tasks quiet order (m, w))
  run_tasks-Ran [] m w d h = record {
    tasks = m.tasks;
    returns = unfold run_tasks in refl;
    slots = λ j. refl;
  }
  run_tasks-Ran (i ∷ order) m w d h =
      let rest =
        run_tasks-Ran order (record m { tasks = next i m.tasks }) (work_of (at m.tasks i) w) d.1
          (λ j e.
            HasFn-next i j m.tasks (h i (ground arith)) (h j (ground arith))
              (ground (arith, d.0))) in
      rw (run_tasks-cons i order m w (h i (ground arith))) (record {
        tasks = rest.tasks;
        returns =
            rest.returns
            ∙ ap (λ v. some (record m { tasks = rest.tasks }, v))
                (works-same m.tasks (next i m.tasks) order _ (λ j v e.
                  ap (λ t. work_of t v) {y = at m.tasks j}
                    (at-next i j m.tasks (h i (ground arith)) ∙ ground (arith, d.0))));
        slots = λ j. rest.slots j ∙ ground (arith, at-next i j m.tasks (h i (ground arith)), d.0);
      })

  -- What a round does with the state `(m, w)`: it runs exactly the wanted slots, each once, in the
  -- order of priority and then of slots; it clears their ready flags and frees the one-shots.
  pub record IsRound (m : Manager) (w : W) (out : Option ((Manager × W) × ℕ)) : Type 0 where
    pub order : List ℕ
    pub tasks : List Task
    pub returns :
        out ≡ some ((record m { tasks = tasks }, works m.tasks order w), wanted_count m.tasks)
    pub exact : (j : ℕ) → elem j order ≡ wanted (at m.tasks j)
    pub distinct : IsDistinct order
    pub ordered : IsOrdered m.tasks order
    pub slots :
        (j : ℕ)
        → at tasks j ≡ (
            if not (wanted (at m.tasks j))
            then at m.tasks j
            else if (at m.tasks j).period == 0
            then free (clear_ready (at m.tasks j))
            else clear_ready (at m.tasks j))

  run_once-some :
      (m : Manager) (w : W) (s : Manager × W)
      → let (tasks, order) = snapshot (suc (length m.tasks)) m.tasks in
        run_tasks quiet order (record m { tasks = tasks }, w) ≡ some s
        → run_once quiet (m, w) ≡ some (s, length order)
  unfolding run_once
  run_once-some m w s e = ground (arith, e)

  -- Where each wanted slot holds a function and the task functions leave the table alone, a round
  -- returns the number of wanted slots, runs exactly those, each once and in the order of priority
  -- and then of slots, clears their ready flags, frees the one-shots and changes no other slot.
  pub run_once-IsRound :
      (m : Manager) (w : W) → AllHaveFn m.tasks → IsRound m w (run_once quiet (m, w))
  run_once-IsRound m w h = record {
    order = out.1;
    tasks = ran_all.tasks;
    returns =
        run_once-some m w _ ran_all.returns
        ∙ ap₂ (λ v n. some ((record m { tasks = ran_all.tasks }, v), n))
            (works-same m.tasks out.0 out.1 w (λ j v e. same_work j v))
            (length-snapshot (suc (length m.tasks)) m.tasks enough);
    exact = snap.exact;
    distinct = distinct;
    ordered = snap.ordered;
    slots =
        λ j. ran_all.slots j ∙ ground (arith, snap.exact j, snap.cleared j, kept (at m.tasks j));
  }
    where
      enough : wanted_count m.tasks < suc (length m.tasks)
      enough = omega (arith, wanted_count-le m.tasks)

      out : List Task × List ℕ
      out = snapshot (suc (length m.tasks)) m.tasks

      snap : IsSnapshot m.tasks out
      snap = snapshot-IsSnapshot (suc (length m.tasks)) m.tasks enough

      distinct : IsDistinct out.1
      distinct = IsOrdered-IsDistinct m.tasks out.1 snap.ordered

      kept :
          (t : Task)
          → ((clear_ready t).fn ≡ t.fn)
            × ((clear_ready t).arg ≡ t.arg)
            × ((clear_ready t).period ≡ t.period)
      kept t = unfold clear_ready in (refl, refl, refl)

      same_work : (j : ℕ) (v : W) → work_of (at out.0 j) v ≡ work_of (at m.tasks j) v
      same_work j v = elim (Bool-cases (wanted (at m.tasks j))) [
        | inl e ↦ rw (snap.cleared j, e) (unfold clear_ready in refl)
        | inr e ↦ rw (snap.cleared j, e) refl
      ]

      has_fn : (i : ℕ) → elem i out.1 ≡ true → HasFn out.0 i
      has_fn i e =
          let f = h i (ground (arith, snap.exact i)) in
          (f.0, ground (arith, snap.cleared i, kept (at m.tasks i), f.1))

      ran_all :
          Ran out.1
            (record m { tasks = out.0 })
            w
            (run_tasks quiet out.1 (record m { tasks = out.0 }, w))
      ran_all = run_tasks-Ran out.1 (record m { tasks = out.0 }) w distinct has_fn
