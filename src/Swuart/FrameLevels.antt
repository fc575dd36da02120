-- ===== src/Swuart/FrameLevels.antt =====
-- The frames of a transmitter as levels in the middles of their bits.
use pic8_hal.Common.{
  ℕ, suc, ◌+◌, ◌*◌, ◌<◌, ◌≡◌, refl, sym, ap, ◌∙◌, inl, inr, Bool, true, false, not, List, [], ◌∷◌,
  ◌++◌, arith, ◌==◌, Bool-cases, u16, IsByte,
}
use pic8_hal.Common.Digits.{digit, every, every_lem}
use pic8_hal.Swuart.{Handle, Mode, compare_set, compare_clear}
use pic8_hal.Swuart.Transmit.{frame, frames, level}
use pic8_hal.Swuart.Receive.{byte_of, middle}
use pic8_hal.Swuart.Hear.{Shown}
use pic8_hal.Swuart.Line.{
  level_after, level_at, to_come, behind, spaced, Later, level_at-spaced, to_come-spaced,
  Later-next, Later-none,
}

level_after-level :
    (cycles_per_bit bit : ℕ) (high : Bool)
    → level_after (level cycles_per_bit bit) high ≡ not (bit == 0)
level_after-level cycles_per_bit bit high = elim (Bool-cases (bit == 0)) [
  | inl e ↦ rw e refl
  | inr e ↦ rw e refl
]

-- The bits of a byte, as levels.
abbrev pub bits_of : ℕ → List Bool
bits_of byte =
    not (digit byte 0 == 0)
    ∷ not (digit byte 1 == 0)
    ∷ not (digit byte 2 == 0)
    ∷ not (digit byte 3 == 0)
    ∷ not (digit byte 4 == 0)
    ∷ not (digit byte 5 == 0)
    ∷ not (digit byte 6 == 0)
    ∷ not (digit byte 7 == 0)
    ∷ []

agrees : every 256 (λ byte. byte_of (bits_of byte) == byte) ≡ true
unfolding digit
agrees = refl

pub byte_of-bits_of : (byte : ℕ) → IsByte byte → byte_of (bits_of byte) ≡ byte
byte_of-bits_of byte is_byte =
    ground (arith, every_lem 256 byte (λ b. byte_of (bits_of b) == b) agrees is_byte)

module _ (cycles_per_bit : ℕ) (some_cycles : 0 < cycles_per_bit)
    (fit : 10 * cycles_per_bit < 65536) where
  -- The modes of the ten matches of a frame.
  abbrev modes_of : ℕ → List Mode
  modes_of byte =
      compare_clear
      ∷ level cycles_per_bit (digit byte 0)
      ∷ level cycles_per_bit (digit byte 1)
      ∷ level cycles_per_bit (digit byte 2)
      ∷ level cycles_per_bit (digit byte 3)
      ∷ level cycles_per_bit (digit byte 4)
      ∷ level cycles_per_bit (digit byte 5)
      ∷ level cycles_per_bit (digit byte 6)
      ∷ level cycles_per_bit (digit byte 7)
      ∷ compare_set
      ∷ []

  module _ (t : ℕ) (word : t < 65536) where
    frame-spaced :
        (byte : ℕ)
        → spaced cycles_per_bit t some_cycles word 0 (modes_of byte) ≡ frame cycles_per_bit t byte
    frame-spaced byte =
        let start : u16 (t + 0 * cycles_per_bit) ≡ t = omega (arith, word) in rw start refl

    frames-Later :
        (bytes : List ℕ) (i : ℕ)
        → i < 10
        → Later cycles_per_bit t some_cycles word
            (frames cycles_per_bit (u16 (t + 10 * cycles_per_bit)) bytes)
            i
    frames-Later [] i h = Later-none cycles_per_bit t some_cycles word i
    frames-Later (byte ∷ bytes) i h =
        Later-next cycles_per_bit t some_cycles word _ compare_clear 10 i h fit

    -- The level in the middle of the bit `i`.
    seen :
        (byte : ℕ) (bytes : List ℕ) (i : ℕ)
        → i < 10
        → level_at t (frames cycles_per_bit t (byte ∷ bytes)) true (middle cycles_per_bit t i)
          ≡ behind true (modes_of byte) (suc i)
    seen byte bytes i h =
        let more = frames cycles_per_bit (u16 (t + 10 * cycles_per_bit)) bytes in
        ap (λ w. level_at t (w ++ more) true (middle cycles_per_bit t i)) (sym (frame-spaced byte))
        ∙ level_at-spaced cycles_per_bit t some_cycles word (modes_of byte) more 0 (suc i) i true
            (frames-Later bytes i h) (omega arith) (omega (arith, h)) (omega (arith, fit))

    pub all_passed :
        (byte : ℕ) (bytes : List ℕ)
        → to_come t (frames cycles_per_bit t (byte ∷ bytes)) (middle cycles_per_bit t 9)
          ≡ frames cycles_per_bit (u16 (t + 10 * cycles_per_bit)) bytes
    all_passed byte bytes =
        let more = frames cycles_per_bit (u16 (t + 10 * cycles_per_bit)) bytes in
        ap (λ w. to_come t (w ++ more) (middle cycles_per_bit t 9)) (sym (frame-spaced byte))
        ∙ to_come-spaced cycles_per_bit t some_cycles word (modes_of byte) more 0 9
            (frames-Later bytes 9 (omega arith)) (omega arith) fit

    -- The line has the bits of the byte, from the start bit to the stop bit.
    pub frame-Shown :
        (byte : ℕ) (bytes : List ℕ) (h : Handle)
        → Shown cycles_per_bit
            (level_at t (frames cycles_per_bit t (byte ∷ bytes)) true)
            t
            h
            0
            (false ∷ bits_of byte ++ true ∷ [])
    frame-Shown byte bytes h = (
      seen byte bytes 0 (omega arith),
      (
        seen byte bytes 1 (omega arith) ∙ level_after-level cycles_per_bit (digit byte 0) _,
        (
          seen byte bytes 2 (omega arith) ∙ level_after-level cycles_per_bit (digit byte 1) _,
          (
            seen byte bytes 3 (omega arith) ∙ level_after-level cycles_per_bit (digit byte 2) _,
            (
              seen byte bytes 4 (omega arith) ∙ level_after-level cycles_per_bit (digit byte 3) _,
              (
                seen byte bytes 5 (omega arith) ∙ level_after-level cycles_per_bit (digit byte 4) _,
                (
                  seen byte bytes 6 (omega arith)
                      ∙ level_after-level cycles_per_bit (digit byte 5) _,
                  (
                    seen byte bytes 7 (omega arith)
                        ∙ level_after-level cycles_per_bit (digit byte 6) _,
                    (
                      seen byte bytes 8 (omega arith)
                          ∙ level_after-level cycles_per_bit (digit byte 7) _,
                      (seen byte bytes 9 (omega arith), tt),
                    ),
                  ),
                ),
              ),
            ),
          ),
        ),
      ),
    )
