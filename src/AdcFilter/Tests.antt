-- ===== src/AdcFilter/Tests.antt =====
-- A moving average over three samples, and an oversampler of a counter.
use pic8_hal.Common.{◌+◌, ◌/◌, ◌≡◌, refl, [], ◌∷◌, ◌++◌, arith, ltb, if◌then◌else◌, length, drop}
use pic8_hal.AdcFilter.{Avg, add_samples, oversample, avg_init, avg_push}
use pic8_hal.AdcFilter.Samples.{total}
use pic8_hal.AdcFilter.Average.{avg_push-window}
use pic8_hal.AdcFilter.Window.{window, IsValid, avg_init-IsValid}

abbrev fresh : Avg
fresh = record { buf = 0 ∷ 0 ∷ 0 ∷ []; count = 3; index = 0; filled = 0; sum = 0 }

fresh-IsValid : IsValid fresh
unfolding avg_init
fresh-IsValid = (avg_init-IsValid (0 ∷ 0 ∷ 0 ∷ []) (omega arith) (omega arith)).0

-- The sixteen samples 0 to 15, with two more bits.
counter_oversampled : oversample (λ c. (c, c + 1)) 2 0 ≡ (30, 16)
unfolding oversample add_samples
counter_oversampled = refl

avg_push-window_example :
    let (f', avg) = avg_push fresh 700 in
    (window f' ≡ (
      if ltb (length (window fresh)) 3
      then window fresh ++ 700 ∷ []
      else drop 1 (window fresh) ++ 700 ∷ []))
    × IsValid f'
    × (avg ≡ total (window f') / length (window f'))
avg_push-window_example = avg_push-window fresh 700 fresh-IsValid (omega arith)
