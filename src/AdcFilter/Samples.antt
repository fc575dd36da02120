-- ===== src/AdcFilter/Samples.antt =====
-- Lists of 16-bit samples, their sums, and a buffer read round from an index.
use pic8_hal.Common.{
  ℕ, zero, suc, ◌+◌, ◌*◌, ◌^◌, ◌≤◌, ◌<◌, ◌≡◌, refl, sym, ap, ◌∙◌, inl, inr, List, [], ◌∷◌, ◌++◌,
  append-nil, append_assoc, arith, leb, if◌then◌else◌, Bool-cases, length, set, get_or, take, drop,
  take_all,
}

abbrev pub total : List ℕ → ℕ
total [] = 0
total (x ∷ xs) = x + total xs

-- Each entry has 16 bits.
abbrev pub Small : List ℕ → Type 0
Small [] = Unit
Small (x ∷ xs) = (x < 2 ^ 16) × Small xs

-- A full buffer read from `k`, where the end is also the start.
abbrev pub turned : List ℕ → ℕ → List ℕ
turned xs k = drop k xs ++ take k xs

pub total-append : (xs : List ℕ) (x : ℕ) → total (xs ++ x ∷ []) ≡ total xs + x
total-append [] x = omega arith
total-append (y ∷ ys) x = omega (arith, total-append ys x)

pub append-Small : (xs : List ℕ) (x : ℕ) → Small xs → x < 2 ^ 16 → Small (xs ++ x ∷ [])
append-Small [] x s h = (h, tt)
append-Small (y ∷ ys) x s h = (s.0, append-Small ys x s.1 h)

pub total-Small : (xs : List ℕ) → Small xs → total xs ≤ 65535 * length xs
total-Small [] s = omega arith
total-Small (x ∷ xs) s = omega (arith, total-Small xs s.1, s.0)

pub take-set :
    (xs : List ℕ) (i x : ℕ) → i < length xs → take (suc i) (set xs i x) ≡ take i xs ++ x ∷ []
take-set [] i x h = absurd (omega arith)
take-set (y ∷ ys) zero x h = refl
take-set (y ∷ ys) (suc i) x h = ap (λ l. y ∷ l) (take-set ys i x (omega arith))

pub drop-set : (xs : List ℕ) (i x : ℕ) → drop (suc i) (set xs i x) ≡ drop (suc i) xs
drop-set [] i x = refl
drop-set (y ∷ ys) zero x = refl
drop-set (y ∷ ys) (suc i) x = drop-set ys i x

drop-get_or : (xs : List ℕ) (i : ℕ) → i < length xs → drop i xs ≡ get_or xs i 0 ∷ drop (suc i) xs
drop-get_or [] i h = absurd (omega arith)
drop-get_or (x ∷ xs) zero h = refl
drop-get_or (x ∷ xs) (suc i) h = drop-get_or xs i (omega arith)

pub drop-all : (xs : List ℕ) → drop (length xs) xs ≡ []
drop-all [] = refl
drop-all (x ∷ xs) = drop-all xs

pub turned-wraps :
    (xs : List ℕ) (n k : ℕ)
    → length xs ≡ n
    → k ≤ n
    → turned xs (if leb n k then 0 else k) ≡ turned xs k
turned-wraps xs n k e h = elim (Bool-cases (leb n k)) [
  | inr t ↦ rw t refl
  | inl t ↦
      let at : k ≡ length xs = ground (arith, t) in
      let all : turned xs k ≡ xs =
        ap (turned xs) {x = k} {y = length xs} at
        ∙ rw (drop-all xs, take_all (length xs) xs (omega arith)) refl in
      rw t (append-nil xs ∙ sym all)
]

pub turned-set :
    (xs : List ℕ) (i x : ℕ)
    → i < length xs
    → (turned (set xs i x) (suc i) ≡ drop 1 (turned xs i) ++ x ∷ [])
      × (turned xs i ≡ get_or xs i 0 ∷ drop 1 (turned xs i))
turned-set xs i x h = (
  rw (take-set xs i x h, drop-set xs i x, drop-get_or xs i h)
      (sym (append_assoc (drop (suc i) xs) (take i xs) (x ∷ []))),
  rw (drop-get_or xs i h) refl,
)
