-- ===== src/Taskmgr/Tests.antt =====
-- Runs of the scheduler, and its theorems at concrete tables.
use pic8_hal.Common.{ℕ, ◌≡◌, refl, ◌⊎◌, true, none, some, List, [], ◌∷◌, arith, replicate}
use pic8_hal.Taskmgr.{
  Task, Manager, free_slot, init, spawn, tick, run_once, snapshot, pick, due, clear_ready,
  arm_countdown, has_flag, id_invalid, free,
}
use pic8_hal.Taskmgr.Slots.{armed, Spawned, IsFull, spawn-Spawned}
use pic8_hal.Taskmgr.Period.{fires, fires_iff}
use pic8_hal.Taskmgr.Round.{IsRound, quiet}
use pic8_hal.Taskmgr.Reach.{here, next, spawned, ticked, run_once-reached}

-- Task functions that write down their own number.
abbrev noted : ℕ → ℕ → List ℕ → List ℕ
noted fn arg log = fn ∷ log

-- Function 7 every second tick at priority 3, function 8 once at priority 1.
abbrev two_tasks : Manager
two_tasks = (spawn (spawn (init 6) (some 7) 0 2 3).0 (some 8) 0 0 1).0

abbrev later : Manager
later = tick (tick two_tasks)

later_round :
    run_once (quiet noted) (later, [])
    ≡ some (
      (
        record {
          tasks =
              record { fn = some 7; arg = 0; period = 2; countdown = 1; priority = 3; flags = 3 }
              ∷ record { fn = none; arg = 0; period = 0; countdown = 0; priority = 1; flags = 0 }
              ∷ replicate 4 free_slot;
          ticks = 2;
        },
        7 ∷ 8 ∷ [],
      ),
      2,
    )
unfolding run_once snapshot pick due clear_ready free tick init spawn arm_countdown has_flag
later_round = refl

-- A task at priority 255 becomes ready, and no round runs it.
lowest_priority :
    (run_once (quiet noted) (tick (spawn (init 6) (some 9) 0 1 255).0, []))
    ≡ some (
      (
        record {
          tasks =
              record { fn = some 9; arg = 0; period = 1; countdown = 0; priority = 255; flags = 7 }
              ∷ replicate 5 free_slot;
          ticks = 1;
        },
        [],
      ),
      0,
    )
unfolding run_once snapshot pick due clear_ready free tick init spawn arm_countdown has_flag
lowest_priority = refl

run_once-reached_example : IsRound noted later [] (run_once (quiet noted) (later, []))
run_once-reached_example = run_once-reached noted later [] (
    next
      (next (next (next here (spawned _ _ (some 7) 0 2 3)) (spawned _ _ (some 8) 0 0 1))
        (ticked _ _))
      (ticked _ _))

abbrev blink : Task
blink = armed 7 0 3 1

fires_iff_example : fires 5 blink ≡ true
unfolding has_flag due arm_countdown
fires_iff_example = fires_iff blink (refl, refl) refl (omega arith) (omega arith) refl 5

spawn-Spawned_example :
    Spawned (init 6) (armed 7 0 2 3) (spawn (init 6) (some 7) 0 2 3)
    ⊎ (IsFull (init 6).tasks × (spawn (init 6) (some 7) 0 2 3 ≡ (init 6, id_invalid)))
unfolding init
spawn-Spawned_example = spawn-Spawned (init 6) 7 0 2 3 (omega arith)
