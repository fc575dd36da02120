-- ===== src/Taskmgr/Scan.antt =====
-- The inner loop of `task_manager_run_once`: it finds the due task that goes first.
use pic8_hal.Common.{
  ℕ, zero, suc, ◌+◌, ◌≤◌, ◌<◌, ◌≡◌, refl, ap, ◌∙◌, ◌⊎◌, inl, inr, true, ◌&&◌, Option, none, some,
  List, [], ◌∷◌, arith, ltb, Bool-cases,
}
use pic8_hal.Taskmgr.{Task, at, free_slot, due, pick}

-- Slot `i` goes before slot `j`, or is it: a lower priority number, or the same and not behind.
abbrev pub NotAfter : List Task → ℕ → ℕ → Type 0
NotAfter ts i j =
    ((at ts i).priority < (at ts j).priority)
    ⊎ (((at ts i).priority ≡ (at ts j).priority) × (i ≤ j))

-- Slot `k` is due, its priority number is below `bound`, and no due slot goes before it.
pub record IsBest (ts : List Task) (bound : ℕ) (k : ℕ) : Type 0 where
  pub is_due : due (at ts k) ≡ true
  pub below : (at ts k).priority < bound
  pub first : (j : ℕ) → due (at ts j) ≡ true → NotAfter ts k j

-- No slot is due at a priority number below `bound`.
abbrev pub NoneBelow : List Task → ℕ → Type 0
NoneBelow ts bound = (j : ℕ) → due (at ts j) ≡ true → bound ≤ (at ts j).priority

abbrev Picked : List Task → ℕ → Option ℕ → ℕ → Option ℕ → Type 0
Picked ts i best bound out =
    ((out ≡ best) × NoneBelow ts bound) ⊎ ((k : ℕ) × (out ≡ some (i + k)) × IsBest ts bound k)

NoneBelow-cons :
    (t : Task) (ts : List Task) (bound : ℕ)
    → (due t ≡ true → bound ≤ t.priority)
    → NoneBelow ts bound
    → NoneBelow (t ∷ ts) bound
NoneBelow-cons t ts bound h rest zero d = h d
NoneBelow-cons t ts bound h rest (suc j) d = rest j d

-- The head is the best if no slot behind it is due below its priority number.
IsBest-head :
    (t : Task) (ts : List Task) (bound : ℕ)
    → due t ≡ true
    → t.priority < bound
    → NoneBelow ts t.priority
    → IsBest (t ∷ ts) bound 0
IsBest-head t ts bound d lt rest = record { is_due = d; below = lt; first = first }
  where
    first : (j : ℕ) → due (at (t ∷ ts) j) ≡ true → NotAfter (t ∷ ts) 0 j
    first zero dj = omega arith
    first (suc j) dj = let le = rest j dj in omega arith

-- A best slot behind the head stays the best if the head does not go before it.
IsBest-tail :
    (t : Task) (ts : List Task) (small bound k : ℕ)
    → small ≤ bound
    → (due t ≡ true → small ≤ t.priority)
    → IsBest ts small k
    → IsBest (t ∷ ts) bound (suc k)
IsBest-tail t ts small bound k le head b = record {
  is_due = b.is_due;
  below = omega (arith, b.below);
  first = first;
}
  where
    first : (j : ℕ) → due (at (t ∷ ts) j) ≡ true → NotAfter (t ∷ ts) (suc k) j
    first zero dj = inl (omega (arith, b.below, head dj))
    first (suc j) dj = omega (arith, b.first j dj)

pick_lem :
    (ts : List Task) (i : ℕ) (best : Option ℕ) (bound : ℕ)
    → Picked ts i best bound (pick ts i best bound)
unfolding pick
pick_lem [] i best bound = inl (refl, λ j d. absurd (not_due d))
  where
    not_due : due free_slot ≡ true → ⊥
    not_due d = unfold due in ground arith
pick_lem (t ∷ ts) i best bound = elim (Bool-cases (due t && ltb t.priority bound)) [
  | inl better ↦ rw better (elim (pick_lem ts (i + 1) (some i) t.priority) [
    | inl (e, none_below) ↦ inr (
      0,
      e ∙ ap some (omega arith),
      IsBest-head t ts bound (ground arith) (ground arith) none_below,
    )
    | inr (k, e, b) ↦ inr (
      suc k,
      e ∙ ap some (omega arith),
      IsBest-tail t ts t.priority bound k (ground arith) (λ d. omega arith) b,
    )
  ])
  | inr worse ↦ rw worse (elim (pick_lem ts (i + 1) best bound) [
    | inl (e, none_below) ↦ inl (e, NoneBelow-cons t ts bound (λ d. ground arith) none_below)
    | inr (k, e, b) ↦ inr (
      suc k,
      e ∙ ap some (omega arith),
      IsBest-tail t ts bound bound k (omega arith) (λ d. ground arith) b,
    )
  ])
]

-- The scan from slot 0 with no best so far.
pub pick-IsBest :
    (ts : List Task)
    → ((pick ts 0 none 255 ≡ none) × NoneBelow ts 255)
      ⊎ ((k : ℕ) × (pick ts 0 none 255 ≡ some k) × IsBest ts 255 k)
pick-IsBest ts = elim (pick_lem ts 0 none 255) [
  | inl h ↦ inl h
  | inr (k, e, b) ↦ inr (k, e ∙ ap some (omega arith), b)
]
