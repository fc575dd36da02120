-- ===== src/Fsm/Tests.antt =====
-- A machine with a guarded row and a wildcard row.
use pic8_hal.Common.{ℕ, ◌+◌, ◌≡◌, refl, ◌⊎◌, true, false, none, some, List, [], ◌∷◌, ltb, replicate}
use pic8_hal.Fsm.{Row, Fsm, any_state, dispatch, allows, act, init_macro}
use pic8_hal.Fsm.First.{Fires, Ignores, dispatch-first_row}

-- From state 1 event 7 goes to 2 if the context is above 5; from any state it goes to 0.
abbrev door_rows : List (Row ℕ)
door_rows =
    record {
      state = 1;
      event = 7;
      guard = some (λ c. ltb 5 c);
      action = some (λ c. c + 1);
      next_state = 2;
    }
    ∷ record { state = any_state; event = 7; guard = none; action = none; next_state = 0 }
    ∷ []

abbrev door : ℕ → Fsm ℕ
door c = record { table = door_rows; table_len = 2; state = 1; ctx = c }

door_runs :
    (dispatch (door 9) 7 ≡ (record { table = door_rows; table_len = 2; state = 2; ctx = 10 }, true))
    × (dispatch (door 3) 7
        ≡ (record { table = door_rows; table_len = 2; state = 0; ctx = 3 }, true))
    × (dispatch (door 3) 8 ≡ (door 3, false))
unfolding dispatch allows act
door_runs = (refl, refl, refl)

-- The cast of `FSM_INIT`: a table of 257 rows is taken for one of a single row.
many_rows :
    (init_macro
      (replicate 257 (record { state = 0; event = 0; guard = none; action = none; next_state = 0 }))
      0
      (7 + 0)).table_len
    ≡ 1
unfolding init_macro
many_rows = refl

dispatch-first_row_example :
    Fires (door 3) 7 door_rows (dispatch (door 3) 7)
    ⊎ Ignores (door 3) 7 door_rows (dispatch (door 3) 7)
dispatch-first_row_example = dispatch-first_row (door 3) 7
