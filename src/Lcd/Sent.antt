-- ===== src/Lcd/Sent.antt =====
-- What the calls of the transport send.
use pic8_hal.Common.{ℕ, List, [], ◌∷◌}
use pic8_hal.Lcd.{Call, send, delay_us, delay_ms}

-- The bytes sent, with their register.
abbrev pub bytes_sent : List Call → List (ℕ × ℕ)
bytes_sent [] = []
bytes_sent (send reg byte ∷ calls) = (reg, byte) ∷ bytes_sent calls
bytes_sent (delay_us n ∷ calls) = bytes_sent calls
bytes_sent (delay_ms n ∷ calls) = bytes_sent calls
