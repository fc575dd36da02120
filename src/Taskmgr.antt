-- ===== src/Taskmgr.antt =====
-- epic-taskmgr/src/task_manager.c: the cooperative scheduler. A task function and its argument are
-- numbers (addresses), `fn` being `none` for NULL; what a call of user code does to the manager and
-- to the rest of the world is a parameter. A critical section is one step of the model.
pub mod Scan
pub mod Order
pub mod Period
pub mod Slots
pub mod Round
pub mod Reach
mod Tests
use pic8_hal.Common.{
  ℕ, zero, suc, ◌+◌, ◌-◌, bit_and, bit_or, Bool, not, ◌&&◌, ◌||◌, Option, none, some, List, [], ◌∷◌,
  map, ltb, leb, ◌==◌, if◌then◌else◌, length, set, get_or, replicate, u8, u16,
}

-- `task_t`
pub record Task : Type 0 where
  pub fn : Option ℕ
  pub arg : ℕ
  pub period : ℕ
  pub countdown : ℕ
  pub priority : ℕ
  pub flags : ℕ

abbrev pub flag_used : ℕ
flag_used = 0x01

abbrev pub flag_enabled : ℕ
flag_enabled = 0x02

abbrev pub flag_ready : ℕ
flag_ready = 0x04

-- The bytes `~TM_FLAG_READY` and `~(TM_FLAG_ENABLED | TM_FLAG_READY)`
abbrev pub not_ready : ℕ
not_ready = 0xfb

abbrev pub not_enabled_ready : ℕ
not_enabled_ready = 0xf9

abbrev pub id_invalid : ℕ
id_invalid = 0xff

-- The statics `g_tasks` and `g_ticks`; the table has TASK_MGR_MAX_TASKS slots.
pub record Manager : Type 0 where
  pub tasks : List Task
  pub ticks : ℕ

-- A slot as `task_manager_init` leaves it; also what a read outside the table gives.
abbrev pub free_slot : Task
free_slot = record { fn = none; arg = 0; period = 0; countdown = 0; priority = 0; flags = 0 }

abbrev pub at : List Task → ℕ → Task
at tasks i = get_or tasks i free_slot

unfoldable pub has_flag : ℕ → ℕ → Bool
has_flag flags mask = not (bit_and flags mask == 0)

unfoldable pub arm_countdown : ℕ → ℕ
arm_countdown period = if period == 0 then 0 else u16 (period - 1)

-- `task_manager_init`, of a table of `slots` slots.
unfoldable pub init : ℕ → Manager
init slots = record { tasks = replicate slots free_slot; ticks = 0 }

-- The loop of `task_spawn`: the slots from `i` on, and the slot that was claimed.
unfoldable pub claim : Task → ℕ → List Task → List Task × ℕ
claim task i [] = ([], id_invalid)
claim task i (t ∷ ts) =
    let (ts', id) = claim task (i + 1) ts in
    if not (has_flag t.flags flag_used) then (task ∷ ts, u8 i) else (t ∷ ts', id)

unfoldable pub spawn : Manager → Option ℕ → ℕ → ℕ → ℕ → Manager × ℕ
unfolding claim
spawn m none arg period_ticks priority = (m, id_invalid)
spawn m (some fn) arg period_ticks priority =
    let task : Task = record {
      fn = some fn;
      arg = arg;
      period = period_ticks;
      countdown = arm_countdown period_ticks;
      priority = priority;
      flags = bit_or flag_used flag_enabled;
    } in
    let (tasks, id) = claim task 0 m.tasks in (record m { tasks = tasks }, id)

-- The mutators act on a slot in use, and on no other.
unfoldable pub modify : Manager → ℕ → (Task → Task) → Manager
modify m id f =
    if leb (length m.tasks) id
    then m
    else if has_flag (at m.tasks id).flags flag_used
    then record m { tasks = set m.tasks id (f (at m.tasks id)) }
    else m

-- The bodies of `task_start` and `task_reset` are the same.
unfoldable pub rearm : Task → Task
rearm t = record t {
  countdown = arm_countdown t.period;
  flags = bit_and (bit_or t.flags flag_enabled) not_ready;
}

unfoldable pub start : Manager → ℕ → Manager
unfolding modify rearm
start m id = modify m id rearm

unfoldable pub halt : Task → Task
halt t = record t { flags = bit_and t.flags not_enabled_ready }

unfoldable pub stop : Manager → ℕ → Manager
unfolding modify halt
stop m id = modify m id halt

unfoldable pub reset : Manager → ℕ → Manager
unfolding modify rearm
reset m id = modify m id rearm

unfoldable pub set_period : Manager → ℕ → ℕ → Manager
unfolding modify
set_period m id period_ticks = modify m id (λ t. record t { period = period_ticks })

-- One round of the loop of `task_manager_tick`.
unfoldable pub tick_task : Task → Task
tick_task t =
    if not (has_flag t.flags flag_used) || not (has_flag t.flags flag_enabled)
    then t
    else if t.countdown == 0
    then record t {
      flags = bit_or t.flags flag_ready;
      countdown = if not (t.period == 0) then arm_countdown t.period else t.countdown;
    }
    else record t { countdown = t.countdown - 1 }

unfoldable pub tick : Manager → Manager
unfolding tick_task
tick m = record { tasks = map tick_task m.tasks; ticks = u16 (m.ticks + 1) }

unfoldable pub get_ticks : Manager → ℕ
get_ticks m = m.ticks

-- The three flags that `task_manager_run_once` asks for.
unfoldable pub due : Task → Bool
due t = bit_and t.flags 0x07 == 0x07

-- The inner loop: the best slot among those from `i` on, given the best so far.
unfoldable pub pick : List Task → ℕ → Option ℕ → ℕ → Option ℕ
pick [] i best best_prio = best
pick (t ∷ ts) i best best_prio =
    let better = due t && ltb t.priority best_prio in
    pick ts (i + 1) (if better then some i else best) (if better then t.priority else best_prio)

unfoldable pub clear_ready : Task → Task
clear_ready t = record t { flags = bit_and t.flags not_ready }

-- The snapshot loop, with fuel: the tasks, their ready flags cleared, and the order to run.
unfoldable pub snapshot : ℕ → List Task → List Task × List ℕ
snapshot zero tasks = (tasks, [])
snapshot (suc fuel) tasks = elim (pick tasks 0 none 0xff) [
  | none ↦ (tasks, [])
  | some best ↦
      let (tasks', order) = snapshot fuel (set tasks best (clear_ready (at tasks best))) in
      (tasks', best ∷ order)
]

unfoldable pub free : Task → Task
free t = record t { flags = 0; fn = none }

module _ {W : Type 0} (call : ℕ → ℕ → Manager × W → Manager × W) where
  -- The second loop. A call through a NULL `fn` is a fault, `none`.
  unfoldable pub run_tasks : List ℕ → Manager × W → Option (Manager × W)
  run_tasks [] s = some s
  run_tasks (i ∷ order) (m, w) = elim (at m.tasks i).fn [
    | none ↦ none
    | some fn ↦
        let (m', w') = call fn (at m.tasks i).arg (m, w) in
        run_tasks order (
          if (at m'.tasks i).period == 0
              then record m' { tasks = set m'.tasks i (free (at m'.tasks i)) }
              else m',
          w',
        )
  ]

  -- `task_manager_run_once`: the number of tasks run, beside the state.
  unfoldable pub run_once : Manager × W → Option ((Manager × W) × ℕ)
  unfolding run_tasks
  run_once (m, w) =
      let (tasks, order) = snapshot (suc (length m.tasks)) m.tasks in
      elim (run_tasks order (record m { tasks = tasks }, w)) [
        | none ↦ none
        | some s ↦ some (s, length order)
      ]

-- `task_manager_count`
unfoldable pub count : List Task → ℕ
count [] = 0
count (t ∷ ts) = (if has_flag t.flags flag_used then 1 else 0) + count ts
