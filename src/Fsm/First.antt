-- ===== src/Fsm/First.antt =====
-- `fsm_dispatch` against the declarative reading of a table: the first row that applies fires.
use pic8_hal.Common.{
  ℕ, ◌≡◌, refl, ap, ◌∙◌, ◌⊎◌, inl, inr, Bool, true, false, not, ◌&&◌, List, [], ◌∷◌, ◌++◌, arith,
  ◌==◌, Bool-cases, take,
}
use pic8_hal.Fsm.{Row, Fsm, any_state, allows, act, scan, dispatch}

module _ {ℓ} {C : Type ℓ} where
  -- The row is for this state and event, and its guard, if it has one, holds.
  abbrev pub Applies : Fsm C → ℕ → Row C → Type 0
  Applies fsm event row =
      ((row.state ≡ fsm.state) ⊎ (row.state ≡ any_state))
      × (row.event ≡ event)
      × (allows row.guard fsm.ctx ≡ true)

  abbrev pub NoneApplies : Fsm C → ℕ → List (Row C) → Type 0
  NoneApplies fsm event [] = Unit
  NoneApplies fsm event (row ∷ rows) = (¬ Applies fsm event row) × NoneApplies fsm event rows

  -- The rows are some that do not apply, `row`, which applies, and some more.
  pub record FirstRow (fsm : Fsm C) (event : ℕ) (rows : List (Row C)) (row : Row C) : Type ℓ where
    pub before : List (Row C)
    pub behind : List (Row C)
    pub split : rows ≡ before ++ row ∷ behind
    pub skipped : NoneApplies fsm event before
    pub applies : Applies fsm event row

  -- The machine after `row` has fired.
  abbrev pub fire : Fsm C → Row C → Fsm C
  fire fsm row = record fsm { ctx = act row.action fsm.ctx; state = row.next_state }

  -- The scan takes the row if it applies, else it goes on.
  scan_step :
      (fsm : Fsm C) (event : ℕ) (row : Row C) (rows : List (Row C))
      → (Applies fsm event row × (scan (row ∷ rows) fsm event ≡ (fire fsm row, true)))
        ⊎ ((¬ Applies fsm event row) × (scan (row ∷ rows) fsm event ≡ scan rows fsm event))
  unfolding scan
  scan_step fsm event row rows =
      elim (Bool-cases (not (row.state == fsm.state) && not (row.state == any_state))) [
        | inl other ↦ inr ((λ a. ground arith), rw other)
        | inr here ↦ elim (Bool-cases (row.event == event)) [
          | inr different ↦ inr ((λ a. ground arith), rw (here, different))
          | inl same ↦ elim (Bool-cases (allows row.guard fsm.ctx)) [
            | inr refused ↦ inr ((λ a. ground arith), rw (here, same, refused))
            | inl allowed ↦ inl ((ground arith, ground arith, allowed), rw (here, same, allowed))
          ]
        ]
      ]

  -- What the loop does: it fires the first row that applies, or finds none.
  abbrev pub Fires : Fsm C → ℕ → List (Row C) → Fsm C × Bool → Type ℓ
  Fires fsm event rows out =
      (row : Row C) × FirstRow fsm event rows row × (out ≡ (fire fsm row, true))

  abbrev pub Ignores : Fsm C → ℕ → List (Row C) → Fsm C × Bool → Type ℓ
  Ignores fsm event rows out = NoneApplies fsm event rows × (out ≡ (fsm, false))

  scan_lem :
      (fsm : Fsm C) (event : ℕ) (rows : List (Row C))
      → Fires fsm event rows (scan rows fsm event) ⊎ Ignores fsm event rows (scan rows fsm event)
  scan_lem fsm event [] = inr (tt, unfold scan in refl)
  scan_lem fsm event (row ∷ rows) = elim (scan_step fsm event row rows) [
    | inl (a, e) ↦
        inl (row, record { before = []; behind = rows; split = refl; skipped = tt; applies = a }, e)
    | inr (na, e) ↦ elim (scan_lem fsm event rows) [
      | inl (r, f, e') ↦ inl (
        r,
        record {
          before = row ∷ f.before;
          behind = f.behind;
          split = ap (λ l. row ∷ l) f.split;
          skipped = (na, f.skipped);
          applies = f.applies;
        },
        e ∙ e',
      )
      | inr (none_applies, e') ↦ inr ((na, none_applies), e ∙ e')
    ]
  ]

  -- For every machine and event, `fsm_dispatch` either fires the first of the `table_len` rows that
  -- applies (it runs that row's action once, moves to its next state, keeps the table and returns
  -- true), or no row applies and it changes nothing and returns false.
  pub dispatch-first_row :
      (fsm : Fsm C) (event : ℕ)
      → Fires fsm event (take fsm.table_len fsm.table) (dispatch fsm event)
        ⊎ Ignores fsm event (take fsm.table_len fsm.table) (dispatch fsm event)
  unfolding dispatch
  dispatch-first_row fsm event = scan_lem fsm event (take fsm.table_len fsm.table)
