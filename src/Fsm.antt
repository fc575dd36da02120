-- ===== src/Fsm.antt =====
-- epic-fsm/src/fsm.c: the table-driven state machine engine. `C` is what `ctx` points to; a guard
-- only reads it, as its documentation asks, and an action replaces it.
mod First
mod Tests
use pic8_hal.Common.{
  ℕ, Bool, true, false, not, ◌&&◌, Option, none, some, List, [], ◌∷◌, ◌==◌, if◌then◌else◌, length,
  take, u8,
}

abbrev pub any_state : ℕ
any_state = 255

-- `fsm_transition_t`; a NULL pointer is `none`.
pub record Row {ℓ} (C : Type ℓ) : Type ℓ where
  pub state : ℕ
  pub event : ℕ
  pub guard : Option (C → Bool)
  pub action : Option (C → C)
  pub next_state : ℕ

-- `fsm_t`
pub record Fsm {ℓ} (C : Type ℓ) : Type ℓ where
  pub table : List (Row C)
  pub table_len : ℕ
  pub state : ℕ
  pub ctx : C

module _ {ℓ} {C : Type ℓ} where
  unfoldable pub init : List (Row C) → ℕ → ℕ → C → Fsm C
  init table table_len initial_state ctx = record {
    table = table;
    table_len = table_len;
    state = initial_state;
    ctx = ctx;
  }

  -- The macro `FSM_INIT`: the number of rows, cast to `uint8_t`.
  unfoldable pub init_macro : List (Row C) → ℕ → C → Fsm C
  unfolding init
  init_macro table initial_state ctx = init table (u8 (length table)) initial_state ctx

  unfoldable pub allows : Option (C → Bool) → C → Bool
  allows none c = true
  allows (some guard) c = guard c

  unfoldable pub act : Option (C → C) → C → C
  act none c = c
  act (some action) c = action c

  -- The loop of `fsm_dispatch` over the rows that are left.
  unfoldable pub scan : List (Row C) → Fsm C → ℕ → Fsm C × Bool
  scan [] fsm event = (fsm, false)
  scan (row ∷ rows) fsm event =
      let rest = scan rows fsm event in
      if not (row.state == fsm.state) && not (row.state == any_state)
      then rest
      else if not (row.event == event)
      then rest
      else if not (allows row.guard fsm.ctx)
      then rest
      else (record fsm { ctx = act row.action fsm.ctx; state = row.next_state }, true)

  unfoldable pub dispatch : Fsm C → ℕ → Fsm C × Bool
  unfolding scan
  dispatch fsm event = scan (take fsm.table_len fsm.table) fsm event

  unfoldable pub current : Fsm C → ℕ
  current fsm = fsm.state
