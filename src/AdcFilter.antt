-- ===== src/AdcFilter.antt =====
-- epic-adcfilter/src/epic_adcfilter.c: oversampling, and a moving average with a running sum.
mod Samples
pub mod Window
pub mod Average
mod Tests
use pic8_hal.Common.{
  ℕ, zero, suc, ◌+◌, ◌-◌, ◌*◌, ◌/◌, ◌^◌, List, ltb, leb, if◌then◌else◌, set, get_or, u8, u16, u32,
}

-- The loop over the samples, where `read` is called in order on the state of its context.
unfoldable pub add_samples : {C : Type 0} → (C → ℕ × C) → ℕ → ℕ → C → ℕ × C
add_samples read zero sum c = (sum, c)
add_samples read (suc left) sum c =
    let (sample, c') = read c in add_samples read left (u32 (sum + sample)) c'

unfoldable pub oversample : {C : Type 0} → (C → ℕ × C) → ℕ → C → ℕ × C
oversample read extra_bits c =
    let (sum, c') = add_samples read (u32 (2 ^ (extra_bits * 2))) 0 c in
    (u16 (sum / 2 ^ extra_bits), c')

pub record Avg : Type 0 where
  pub buf : List ℕ
  pub count : ℕ
  pub index : ℕ
  pub filled : ℕ
  pub sum : ℕ

unfoldable pub avg_init : List ℕ → ℕ → Avg
avg_init buf count = record { buf = buf; count = count; index = 0; filled = 0; sum = 0 }

-- The step of the index, back to 0 at the end of the window.
unfoldable pub next : Avg → ℕ
next f = if leb f.count (u8 (f.index + 1)) then 0 else u8 (f.index + 1)

-- The average is also of the new window.
unfoldable pub avg_push : Avg → ℕ → Avg × ℕ
avg_push f sample =
    let added = u32 (f.sum + sample) in
    let filled = u8 (f.filled + 1) in
    let moved = u32 (u32 (f.sum + 2 ^ 32 - get_or f.buf f.index 0) + sample) in
    let buf = set f.buf f.index sample in
    if ltb f.filled f.count
    then (
      record f { buf = buf; sum = added; filled = filled; index = next f },
      u16 (added / filled),
    )
    else (record f { buf = buf; sum = moved; index = next f }, u16 (moved / f.count))
