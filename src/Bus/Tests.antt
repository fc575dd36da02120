-- ===== src/Bus/Tests.antt =====
-- Transactions with a device, and the theorems at concrete ones.
use pic8_hal.Common.{ℕ, ◌≡◌, refl, Bool, true, false, none, some, List, [], ◌∷◌, arith, ltb, length}
use mathlib.Core.Option
use pic8_hal.Bus.{write_data, i2c_mem_write, i2c_mem_read}
use pic8_hal.Bus.Log.{Item, started, restarted, stopped, sent, got, logging, i2c_mem_read-log}

-- A device that acknowledges the first three bytes on the bus only.
abbrev three_only : List Item → Bool
three_only log = ltb (length log) 5

abbrev zeros : List Item → ℕ
zeros log = 0

write_nacked :
    i2c_mem_write (logging three_only zeros) 80 7 (1 ∷ 2 ∷ 3 ∷ []) []
    ≡ (none, started ∷ sent 160 ∷ sent 7 ∷ sent 1 ∷ sent 2 ∷ stopped ∷ [])
unfolding i2c_mem_write write_data
write_nacked = refl

i2c_mem_read-log_example :
    let (result, log) = i2c_mem_read (logging (λ log. true) zeros) 80 7 2 [] in
    (log ≡ started ∷ sent 160 ∷ sent 7 ∷ restarted ∷ sent 161 ∷ got true ∷ got false ∷ stopped ∷ [])
    × (Option.map length result ≡ some 2)
i2c_mem_read-log_example = i2c_mem_read-log (λ log. true) zeros 80 7 2 [] (omega arith)
