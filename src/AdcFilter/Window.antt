-- ===== src/AdcFilter/Window.antt =====
-- The samples that the buffer of the moving average holds, and what a push does to them.
use pic8_hal.Common.{
  ℕ, suc, ◌+◌, ◌≤◌, ◌<◌, ◌≡◌, refl, sym, ap, ◌∙◌, inl, inr, true, false, List, [], ◌∷◌, ◌++◌, arith,
  ltb, leb, if◌then◌else◌, Bool-cases, length, set, take, drop, length-append, length-set,
  length-take, length-drop, u8,
}
use mathlib.Core.Path.{subst}
use pic8_hal.AdcFilter.Samples.{
  total, Small, turned, take-set, drop-set, drop-all, turned-wraps, turned-set,
}
use pic8_hal.AdcFilter.{Avg, avg_init, next}

-- The samples in the buffer, the oldest first.
abbrev pub window_of : List ℕ → ℕ → ℕ → ℕ → List ℕ
window_of buf count index filled = if ltb filled count then take filled buf else turned buf index

abbrev pub window : Avg → List ℕ
window f = window_of f.buf f.count f.index f.filled

pub record IsValid (f : Avg) : Type 0 where
  pub some_room : 0 < f.count
  pub byte : f.count < 256
  pub size : length f.buf ≡ f.count
  pub inside : f.index < f.count
  pub up_to : f.filled ≤ f.count
  pub in_step : f.filled < f.count → f.index ≡ f.filled
  pub small : Small (window f)
  pub summed : f.sum ≡ total (window f)

-- The window after a push, while it fills and when it is full.
pub window_filling :
    (buf : List ℕ) (n k x : ℕ)
    → length buf ≡ n
    → k < n
    → window_of (set buf k x) n (if leb n (suc k) then 0 else suc k) (suc k) ≡ take k buf ++ x ∷ []
window_filling buf n k x e h = elim (Bool-cases (ltb (suc k) n)) [
  | inl t ↦ rw t (take-set buf k x (omega arith))
  | inr t ↦
      let size : length (set buf k x) ≡ n = length-set buf k x ∙ e in
      let last : suc k ≡ length buf = ground (arith, t) in
      let none_left : drop (suc k) buf ≡ [] =
        ap (λ i. drop i buf) {x = suc k} {y = length buf} last ∙ drop-all buf in
      rw t (
        turned-wraps (set buf k x) n (suc k) size (omega arith)
        ∙ rw (drop-set buf k x, none_left, take-set buf k x (omega arith)) refl)
]

pub window_full :
    (buf : List ℕ) (n i x : ℕ)
    → length buf ≡ n
    → i < n
    → window_of (set buf i x) n (if leb n (suc i) then 0 else suc i) n
      ≡ drop 1 (turned buf i) ++ x ∷ []
window_full buf n i x e h =
    let full : ltb n n ≡ false = ground arith in
    rw full (
      turned-wraps (set buf i x) n (suc i) (length-set buf i x ∙ e) (omega arith)
      ∙ (turned-set buf i x (omega arith)).0)

pub length-window : (f : Avg) → IsValid f → length (window f) ≡ f.filled
length-window f v = elim (Bool-cases (ltb f.filled f.count)) [
  | inl t ↦ rw t (length-take f.filled f.buf ∙ omega (arith, v.size, v.up_to))
  | inr t ↦ rw t (
      length-append (drop f.index f.buf) (take f.index f.buf)
      ∙ ground (
        arith,
        length-take f.index f.buf,
        length-drop f.index f.buf,
        v.size,
        v.up_to,
        v.inside,
        t,
      ))
]

-- The samples of the window after a push: the oldest one goes when there is no room.
abbrev pub pushed : Avg → ℕ → List ℕ
pushed f x = if ltb f.filled f.count then window f ++ x ∷ [] else drop 1 (window f) ++ x ∷ []

pub next_lem :
    (f : Avg) → IsValid f → next f ≡ (if leb f.count (suc f.index) then 0 else suc f.index)
unfolding next
next_lem f v =
    let same : u8 (f.index + 1) ≡ suc f.index = omega (arith, v.byte, v.inside) in rw same refl

-- A new filter over a buffer of 1 to 255 entries is well formed, with an empty window.
pub avg_init-IsValid :
    (buf : List ℕ)
    → 0 < length buf
    → length buf < 256
    → IsValid (avg_init buf (length buf)) × (window (avg_init buf (length buf)) ≡ [])
unfolding avg_init
avg_init-IsValid buf h l =
    let some : ltb 0 (length buf) ≡ true = ground arith in
    let empty : window (avg_init buf (length buf)) ≡ [] = rw some refl in
    (
      record {
        some_room = h;
        byte = l;
        size = refl;
        inside = h;
        up_to = omega arith;
        in_step = λ m. refl;
        small = subst Small (sym empty) tt;
        summed = ap total {x = []} (sym empty);
      },
      empty,
    )
