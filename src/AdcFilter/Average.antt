-- ===== src/AdcFilter/Average.antt =====
-- The moving average is that of the last samples.
use pic8_hal.Common.{
  ℕ, suc, ◌+◌, ◌-◌, ◌*◌, ◌/◌, ◌^◌, ◌≤◌, ◌<◌, ◌≡◌, refl, sym, ap, ◌∙◌, inl, inr, true, false, List,
  [], ◌∷◌, ◌++◌, arith, ltb, leb, if◌then◌else◌, Bool-cases, length, set, get_or, take, drop,
  length-set, u8, u16, u32,
}
use mathlib.Core.Path.{subst}
use native.Mathlib.Nat.{div-lt_iff_lt-mul}
use pic8_hal.AdcFilter.Samples.{
  total, Small, turned, total-append, append-Small, total-Small, turned-set,
}
use pic8_hal.AdcFilter.{Avg, avg_push, next}
use pic8_hal.AdcFilter.Window.{
  window_of, window, IsValid, window_filling, window_full, length-window, pushed, next_lem,
}

-- The two branches of the push: the new window, and the state and average in terms of it.
record Pushed (f : Avg) (x : ℕ) (f' : Avg) (avg : ℕ) : Type 0 where
  holds : window f' ≡ pushed f x
  valid : IsValid f'
  mean : avg ≡ total (window f') / length (window f')

-- What of both branches is enough for that.
finish :
    (f : Avg) (x : ℕ) (f' : Avg) (avg : ℕ)
    → window f' ≡ pushed f x
    → Small (pushed f x)
    → f'.sum ≡ total (pushed f x)
    → avg ≡ u16 (f'.sum / f'.filled)
    → 0 < f'.filled
    → f'.count < 256
    → length f'.buf ≡ f'.count
    → f'.index < f'.count
    → f'.filled ≤ f'.count
    → (f'.filled < f'.count → f'.index ≡ f'.filled)
    → Pushed f x f' avg
finish f x f' avg holds small summed mean more byte size inside up_to in_step =
    let valid : IsValid f' = record {
      some_room = omega arith;
      byte = byte;
      size = size;
      inside = inside;
      up_to = up_to;
      in_step = in_step;
      small = subst Small (sym holds) small;
      summed = summed ∙ ap total (sym holds);
    } in
    let len : length (window f') ≡ f'.filled = length-window f' valid in
    let bound : f'.sum < 65536 * f'.filled =
      omega (arith, valid.summed, total-Small (window f') valid.small, len) in
    let fits : f'.sum / f'.filled < 65536 = (div-lt_iff_lt-mul more).1 (omega (arith, bound)) in
    let cast : u16 (f'.sum / f'.filled) ≡ f'.sum / f'.filled = omega arith in
    record {
      holds = holds;
      valid = valid;
      mean = mean ∙ cast ∙ quotient f'.sum f'.filled valid.summed len;
    }
  where
    quotient : (a b : ℕ) {c d : ℕ} → a ≡ c → d ≡ b → a / b ≡ c / d
    quotient a b {c} {d} p q = rw (p, q) refl

push_filling :
    (f : Avg) (x : ℕ)
    → IsValid f
    → x < 2 ^ 16
    → ltb f.filled f.count ≡ true
    → Pushed f x (avg_push f x).0 (avg_push f x).1
unfolding avg_push
push_filling f x v h t =
    let lt : f.filled < f.count = ground (arith, t) in
    let at : f.index ≡ f.filled = v.in_step lt in
    let more : u8 (f.filled + 1) ≡ suc f.filled = omega (arith, v.byte) in
    let step : next f ≡ (if leb f.count (suc f.filled) then 0 else suc f.filled) =
      next_lem f v
      ∙ ap (λ i. if leb f.count (suc i) then 0 else suc i) {x = f.index} {y = f.filled} at in
    let old : window f ≡ take f.filled f.buf = rw t refl in
    let new : window_of (set f.buf f.index x) f.count (next f) (u8 (f.filled + 1))
        ≡ take f.filled f.buf ++ x ∷ [] =
      filled_by f.buf f.count f.index f.filled (next f) (u8 (f.filled + 1)) x v.size lt at more
        step in
    let w = take f.filled f.buf in
    let is : pushed f x ≡ w ++ x ∷ [] = rw t refl in
    let small : Small w = subst Small old v.small in
    let sum : f.sum ≡ total w = v.summed ∙ ap total old in
    let size : length w ≡ f.filled = sym (ap length old) ∙ length-window f v in
    let fits : u32 (f.sum + x) ≡ f.sum + x =
      omega (arith, sum, size, total-Small w small, v.byte, v.up_to) in
    rw t (
      finish f x
        (record f {
          buf = set f.buf f.index x;
          sum = u32 (f.sum + x);
          filled = u8 (f.filled + 1);
          index = next f;
        })
        (u16 (u32 (f.sum + x) / u8 (f.filled + 1))) (new ∙ sym is)
        (subst Small (sym is) (append-Small w x small h))
        (fits ∙ omega (arith, sum, total-append w x) ∙ ap total {x = w ++ x ∷ []} (sym is)) refl
        (omega (arith, more)) v.byte (length-set f.buf f.index x ∙ v.size) (ground (arith, step))
        (omega (arith, more)) (ground (arith, step, more)))
  where
    filled_by :
        (buf : List ℕ) (n i k nx fl x : ℕ)
        → length buf ≡ n
        → k < n
        → i ≡ k
        → fl ≡ suc k
        → nx ≡ (if leb n (suc k) then 0 else suc k)
        → window_of (set buf i x) n nx fl ≡ take k buf ++ x ∷ []
    filled_by buf n i k nx fl x e h a b c = rw (a, b, c) (window_filling buf n k x e h)

push_full :
    (f : Avg) (x : ℕ)
    → IsValid f
    → x < 2 ^ 16
    → ltb f.filled f.count ≡ false
    → Pushed f x (avg_push f x).0 (avg_push f x).1
unfolding avg_push
push_full f x v h t =
    let all : f.filled ≡ f.count = ground (arith, t, v.up_to) in
    let step = next_lem f v in
    let w = turned f.buf f.index in
    let rest = drop 1 w in
    let old : window f ≡ w = rw t refl in
    let parts = turned-set f.buf f.index x (omega (arith, v.size, v.inside)) in
    let is : pushed f x ≡ rest ++ x ∷ [] = rw t refl in
    let small : Small (get_or f.buf f.index 0 ∷ rest) = subst Small (old ∙ parts.1) v.small in
    let sum : f.sum ≡ get_or f.buf f.index 0 + total rest = v.summed ∙ ap total (old ∙ parts.1) in
    let size : suc (length rest) ≡ f.filled = sym (ap length (old ∙ parts.1)) ∙ length-window f v in
    let fits : u32 (u32 (f.sum + 2 ^ 32 - get_or f.buf f.index 0) + x) ≡ total rest + x =
      omega (arith, sum, size, total-Small rest small.1, v.byte, v.up_to) in
    let new : window_of (set f.buf f.index x) f.count (next f) f.filled ≡ rest ++ x ∷ [] =
      full_by f.buf f.count f.index (next f) f.filled x v.size v.inside step all in
    let divisor : u16 (u32 (u32 (f.sum + 2 ^ 32 - get_or f.buf f.index 0) + x) / f.count)
        ≡ u16 (u32 (u32 (f.sum + 2 ^ 32 - get_or f.buf f.index 0) + x) / f.filled) =
      ap (λ n. u16 (u32 (u32 (f.sum + 2 ^ 32 - get_or f.buf f.index 0) + x) / n)) (sym all) in
    rw t (
      finish f x
        (record f {
          buf = set f.buf f.index x;
          sum = u32 (u32 (f.sum + 2 ^ 32 - get_or f.buf f.index 0) + x);
          index = next f;
        })
        (u16 (u32 (u32 (f.sum + 2 ^ 32 - get_or f.buf f.index 0) + x) / f.count)) (new ∙ sym is)
        (subst Small (sym is) (append-Small rest x small.1 h))
        (fits ∙ sym (total-append rest x) ∙ ap total {x = rest ++ x ∷ []} (sym is)) divisor
        (omega (arith, all, v.some_room)) v.byte (length-set f.buf f.index x ∙ v.size)
        (ground (arith, step, v.some_room)) v.up_to (λ l. absurd (omega (arith, all, l))))
  where
    full_by :
        (buf : List ℕ) (n i nx fl x : ℕ)
        → length buf ≡ n
        → i < n
        → nx ≡ (if leb n (suc i) then 0 else suc i)
        → fl ≡ n
        → window_of (set buf i x) n nx fl ≡ drop 1 (turned buf i) ++ x ∷ []
    full_by buf n i nx fl x e h a b = rw (a, b) (window_full buf n i x e h)

-- Pushing a sample onto a well-formed filter keeps it well formed. The sample joins the window, the
-- oldest one leaves it if the window was full, and the result is the average of the new window,
-- rounded down.
pub avg_push-window :
    (f : Avg) (sample : ℕ)
    → IsValid f
    → sample < 2 ^ 16
    → let (f', avg) = avg_push f sample in
      (window f' ≡ (
        if ltb (length (window f)) f.count
        then window f ++ sample ∷ []
        else drop 1 (window f) ++ sample ∷ []))
      × IsValid f'
      × (avg ≡ total (window f') / length (window f'))
avg_push-window f sample v h =
    let p =
      elim (Bool-cases (ltb f.filled f.count))
        as (λ b. Pushed f sample (avg_push f sample).0 (avg_push f sample).1) [
          | inl t ↦ push_filling f sample v h t
          | inr t ↦ push_full f sample v h t
        ] in
    (
      p.holds
          ∙ ap
              (λ n.
                if ltb n f.count then window f ++ sample ∷ [] else drop 1 (window f) ++ sample ∷ [])
              (sym (length-window f v)),
      p.valid,
      p.mean,
    )
