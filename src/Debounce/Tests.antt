-- ===== src/Debounce/Tests.antt =====
-- Runs of the debouncer, and its theorems at concrete histories.
use pic8_hal.Common.{◌≡◌, refl, ◌↔◌, true, false, List, [], ◌∷◌}
use pic8_hal.Debounce.{
  Sample, pressed, init, poll, get_candidate, get_stable, set_candidate, set_stable,
}
use pic8_hal.Debounce.Held.{after, IsStableAt, event_iff}

abbrev idle : Sample
idle = record { raw = false; now = 0 }

-- The button goes down at 10 and stays down, the newest sample first.
abbrev bounces : List Sample
bounces = record { raw = true; now = 20 } ∷ record { raw = true; now = 10 } ∷ []

abbrev late : Sample
late = record { raw = true; now = 31 }

late_press : (poll (after 20 idle bounces) late).1 ≡ pressed
unfolding after init poll set_candidate set_stable get_candidate get_stable
late_press = refl

event_iff_example :
    ((poll (after 20 idle bounces) late).1 ≡ pressed) ↔ IsStableAt 20 idle true bounces late
event_iff_example = event_iff 20 idle true bounces late
