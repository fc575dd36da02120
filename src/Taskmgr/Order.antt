-- ===== src/Taskmgr/Order.antt =====
-- The snapshot of `task_manager_run_once`: which tasks will run, and in which order.
use pic8_hal.Common.{
  ℕ, zero, suc, ◌+◌, ◌≤◌, ◌<◌, bit_and, ◌≡◌, refl, sym, ◌⊎◌, inl, inr, Bool, true, false, not, ◌&&◌,
  ◌||◌, List, [], ◌∷◌, arith, ltb, ◌==◌, if◌then◌else◌, length, set, get_or-set, get_or-out,
  bit_and_seven, bit_and_251,
}
use pic8_hal.Taskmgr.{Task, at, free_slot, due, clear_ready, snapshot}
use pic8_hal.Taskmgr.Scan.{NoneBelow, IsBest, pick-IsBest}

abbrev pub elem : ℕ → List ℕ → Bool
elem j [] = false
elem j (i ∷ order) = j == i || elem j order

-- The task is due, and its priority number is one that the scan can choose.
abbrev pub wanted : Task → Bool
wanted t = due t && ltb t.priority 255

-- A lower priority number, or the same in a lower slot.
abbrev pub Before : List Task → ℕ → ℕ → Type 0
Before ts i j =
    ((at ts i).priority < (at ts j).priority)
    ⊎ (((at ts i).priority ≡ (at ts j).priority) × (i < j))

-- Each slot of the order goes before all behind it.
abbrev pub IsOrdered : List Task → List ℕ → Type 0
IsOrdered ts [] = Unit
IsOrdered ts (i ∷ order) = ((j : ℕ) → elem j order ≡ true → Before ts i j) × IsOrdered ts order

-- How many slots are wanted.
abbrev pub wanted_count : List Task → ℕ
wanted_count [] = 0
wanted_count (t ∷ ts) = (if wanted t then 1 else 0) + wanted_count ts

pub wanted_count-le : (ts : List Task) → wanted_count ts ≤ length ts
wanted_count-le [] = omega arith
wanted_count-le (t ∷ ts) = ground (arith, wanted_count-le ts)

pub due-clear_ready : (t : Task) → due (clear_ready t) ≡ false
unfolding due clear_ready
due-clear_ready t = ground (arith, bit_and_seven (bit_and t.flags 251), bit_and_251 t.flags)

priority-clear_ready : (t : Task) → (clear_ready t).priority ≡ t.priority
unfolding clear_ready
priority-clear_ready t = refl

not-due-free_slot : due free_slot ≡ false
unfolding due
not-due-free_slot = refl

due-lt-length : (ts : List Task) (k : ℕ) → due (at ts k) ≡ true → k < length ts
due-lt-length ts k d = ground (arith, get_or-out ts k free_slot, not-due-free_slot)

wanted_count-set :
    (ts : List Task) (k : ℕ)
    → wanted (at ts k) ≡ true
    → suc (wanted_count (set ts k (clear_ready (at ts k)))) ≡ wanted_count ts
wanted_count-set [] k w = ground (arith, not-due-free_slot)
wanted_count-set (t ∷ ts) zero w = ground (arith, due-clear_ready t)
wanted_count-set (t ∷ ts) (suc k) w = ground (arith, wanted_count-set ts k w)

-- What the snapshot makes of the table `ts`.
pub record IsSnapshot (ts : List Task) (out : List Task × List ℕ) : Type 0 where
  pub exact : (j : ℕ) → elem j out.1 ≡ wanted (at ts j)
  pub cleared : (j : ℕ) → at out.0 j ≡ (if wanted (at ts j) then clear_ready (at ts j) else at ts j)
  pub ordered : IsOrdered ts out.1

IsOrdered-same :
    (ts us : List Task) (order : List ℕ)
    → ((j : ℕ) → (at us j).priority ≡ (at ts j).priority)
    → IsOrdered us order
    → IsOrdered ts order
IsOrdered-same ts us [] same h = tt
IsOrdered-same ts us (i ∷ order) same h = (
  λ j e. let b = h.0 j e in let pi = same i in let pj = same j in omega arith,
  IsOrdered-same ts us order same h.1,
)

-- One round of the loop, which takes the slot `k` and leaves the table `us`.
module _ (ts : List Task) (k : ℕ) (best : IsBest ts 255 k) where
  abbrev us : List Task
  us = set ts k (clear_ready (at ts k))

  at-us : (j : ℕ) → at us j ≡ (if k == j then clear_ready (at ts k) else at ts j)
  at-us j = get_or-set ts k j (clear_ready (at ts k)) free_slot (due-lt-length ts k best.is_due)

  priority-us : (j : ℕ) → (at us j).priority ≡ (at ts j).priority
  priority-us j = ground (arith, at-us j, priority-clear_ready (at ts k))

  wanted-us : (j : ℕ) → wanted (at us j) ≡ (not (j == k) && wanted (at ts j))
  wanted-us j = ground (arith, at-us j, due-clear_ready (at ts k))

  wanted-best : wanted (at ts k) ≡ true
  wanted-best = ground (arith, best.is_due, best.below)

  IsSnapshot-cons :
      (tasks : List Task) (order : List ℕ)
      → IsSnapshot us (tasks, order)
      → IsSnapshot ts (tasks, k ∷ order)
  IsSnapshot-cons tasks order s = record {
    exact = λ j. ground (arith, s.exact j, wanted-us j, wanted-best);
    cleared = λ j. ground (arith, s.cleared j, wanted-us j, at-us j, wanted-best);
    ordered = (
      λ j e. ground (arith, s.exact j, wanted-us j, best.first j),
      IsOrdered-same ts us order priority-us s.ordered,
    );
  }

pub snapshot-IsSnapshot :
    (fuel : ℕ) (ts : List Task) → wanted_count ts < fuel → IsSnapshot ts (snapshot fuel ts)
unfolding snapshot
snapshot-IsSnapshot zero ts h = absurd (omega arith)
snapshot-IsSnapshot (suc fuel) ts h = elim (pick-IsBest ts) [
  | inl (e, none_below) ↦
      rw (e, snapshot)
        (record {
          exact = λ j. ground (arith, none_below j);
          cleared = λ j. ground (arith, none_below j);
          ordered = tt;
        })
  | inr (k, e, best) ↦
      rw (e, snapshot)
        (IsSnapshot-cons ts k best _ _ (
          snapshot-IsSnapshot fuel (us ts k best)
            (omega (arith, wanted_count-set ts k (wanted-best ts k best)))))
]

wanted_count-zero : (ts : List Task) → NoneBelow ts 255 → wanted_count ts ≡ 0
wanted_count-zero [] h = refl
wanted_count-zero (t ∷ ts) h = ground (arith, h 0, wanted_count-zero ts (λ j d. h (suc j) d))

-- The order has each wanted slot once.
pub length-snapshot :
    (fuel : ℕ) (ts : List Task)
    → wanted_count ts < fuel
    → length (snapshot fuel ts).1 ≡ wanted_count ts
unfolding snapshot
length-snapshot zero ts h = absurd (omega arith)
length-snapshot (suc fuel) ts h = elim (pick-IsBest ts) [
  | inl (e, none_below) ↦ rw (e, snapshot) (sym (wanted_count-zero ts none_below))
  | inr (k, e, best) ↦
      let less = wanted_count-set ts k (wanted-best ts k best) in
      rw (e, snapshot)
        (omega (arith, length-snapshot fuel (us ts k best) (omega (arith, less)), less))
]

abbrev pub IsDistinct : List ℕ → Type 0
IsDistinct [] = Unit
IsDistinct (i ∷ order) = (elem i order ≡ false) × IsDistinct order

pub IsOrdered-IsDistinct : (ts : List Task) (order : List ℕ) → IsOrdered ts order → IsDistinct order
IsOrdered-IsDistinct ts [] h = tt
IsOrdered-IsDistinct ts (i ∷ order) h = (ground (arith, h.0 i), IsOrdered-IsDistinct ts order h.1)
