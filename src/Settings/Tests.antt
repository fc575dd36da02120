-- ===== src/Settings/Tests.antt =====
-- The checksum of epic-settings, and blobs in the memory of the host build.
use pic8_hal.Common.{ℕ, ◌+◌, ◌<◌, ◌≡◌, refl, true, some, [], ◌∷◌, arith, ltb, ◌==◌, if◌then◌else◌}
use pic8_hal.Settings.{crc16_from, crc16_update, crc16, save, load}
use pic8_hal.Settings.Host.{Device, host, NoError}
use pic8_hal.Settings.Load.{load-cells}
use pic8_hal.Settings.RoundTrip.{load-save}

-- The check value of CRC-16/CCITT-FALSE.
checksum_check : crc16 (49 ∷ 50 ∷ 51 ∷ 52 ∷ 53 ∷ 54 ∷ 55 ∷ 56 ∷ 57 ∷ []) ≡ 0x29b1
unfolding crc16_from crc16_update
checksum_check = refl

abbrev idle : Device → Device
idle d = d

-- Registers that are clear, and a memory that is erased.
abbrev erased : Device
erased = ((λ a. 0), (λ a. 255))

-- The digits 1 to 9 with their CRC at address 0.
abbrev digits : Device
digits = (
  (λ a. 0),
  (λ a. if ltb a 9 then a + 49 else if a == 9 then 0x29 else if a == 10 then 0xb1 else 255),
)

digits-small : (a : ℕ) → digits.1 a < 256
digits-small a = ground arith

load-cells_example :
    ((load (host idle) 0 9 digits).0 ≡ some (49 ∷ 50 ∷ 51 ∷ 52 ∷ 53 ∷ 54 ∷ 55 ∷ 56 ∷ 57 ∷ []))
    × ((load (host idle) 0 9 digits).1.1 ≡ digits.1)
unfolding crc16_from crc16_update
load-cells_example = load-cells idle 0 9 digits digits-small

load-save_example :
    (d' : Device) × (save (host idle) 3 16 (1 ∷ 2 ∷ 3 ∷ []) erased ≡ some (d', true))
    × ((load (host idle) 16 3 d').0 ≡ some (1 ∷ 2 ∷ 3 ∷ []))
    × NoError d'
load-save_example =
    load-save idle 3 16 (1 ∷ 2 ∷ 3 ∷ []) erased refl (λ a. omega arith)
      (omega arith, (omega arith, (omega arith, tt))) (omega arith)
