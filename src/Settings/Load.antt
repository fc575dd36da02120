-- ===== src/Settings/Load.antt =====
-- epic-settings in the host build for the PIC16F87XA: what is loaded.
use pic8_hal.Common.{
  ℕ, zero, suc, ◌+◌, ◌*◌, ◌^◌, ◌<◌, bit_or, ◌≡◌, refl, ap, ◌∙◌, inl, inr, none, some, List, [], ◌∷◌,
  arith, ◌==◌, if◌then◌else◌, Bool-cases, u8, u16, bit_or_bytes,
}
use pic8_hal.Settings.{crc_bit, crc16_update, crc16_from, crc16, read_bytes, load}
use pic8_hal.Settings.Host.{Device, host, read_byte, read_byte-memory}

crc_bit-lt : (crc : ℕ) → crc_bit crc < 2 ^ 16
unfolding crc_bit
crc_bit-lt crc = ground arith

pub crc16_from-lt : (crc : ℕ) (bytes : List ℕ) → crc < 2 ^ 16 → crc16_from crc bytes < 2 ^ 16
unfolding crc16_from
crc16_from-lt crc [] h = h
crc16_from-lt crc (b ∷ bytes) h = crc16_from-lt (crc16_update crc b) bytes (update-lt crc b)
  where
    update-lt : (c b : ℕ) → crc16_update c b < 2 ^ 16
    update-lt c b = unfold crc16_update in crc_bit-lt _

-- The bytes of a memory from an address on.
abbrev pub cells : (ℕ → ℕ) → ℕ → ℕ → List ℕ
cells memory addr zero = []
cells memory addr (suc size) = memory (u8 addr) ∷ cells memory (addr + 1) size

bytes-joined :
    (high low : ℕ) → high < 256 → low < 256 → bit_or (u16 (high * 256)) low ≡ high * 256 + low
bytes-joined high low h l =
    ap (λ x. bit_or x low) {x = u16 (high * 256)} {y = high * 256} (omega (arith, h))
    ∙ bit_or_bytes high low l

module _ (tick : Device → Device) where
  read_bytes-cells :
      (addr size : ℕ) (d : Device)
      → ((a : ℕ) → d.1 a < 256)
      → ((read_bytes (host tick) addr size d).0 ≡ cells d.1 addr size)
        × ((read_bytes (host tick) addr size d).1.1 ≡ d.1)
  unfolding read_bytes
  read_bytes-cells addr zero d small = (refl, refl)
  read_bytes-cells addr (suc size) d small =
      let (byte, same) = read_byte-memory d.0 d.1 (u8 addr) (small (u8 addr)) in
      let d' = (read_byte d (u8 addr)).1 in
      let (rest, kept) = read_bytes-cells (addr + 1) size d' (λ a. rw same (small a)) in
      (rw (byte, rest, same) refl, kept ∙ same)

  -- In the host build, over a memory of bytes, epic_settings_load leaves the memory as it is. It copies the
  -- bytes out where the two bytes behind them are their CRC, the high one first, and otherwise it fails.
  pub load-cells :
      (addr size : ℕ) (d : Device)
      → ((a : ℕ) → d.1 a < 256)
      → let (loaded, d') = load (host tick) addr size d in
        let blob = cells d.1 addr size in
        (loaded ≡ (
          if d.1 (u8 (addr + size)) * 256 + d.1 (u8 (addr + size + 1)) == crc16 blob
          then some blob
          else none))
        × (d'.1 ≡ d.1)
  unfolding load
  load-cells addr size d small =
      let memory = d.1 in
      let a = u8 (addr + size) in
      let b = u8 (addr + size + 1) in
      let (bytes, kept) = read_bytes-cells addr size d small in
      let d1 = (read_bytes (host tick) addr size d).1 in
      let small1 : (x : ℕ) → d1.1 x < 256 = λ x. rw kept (small x) in
      let (high, kept') = read_byte-memory d1.0 d1.1 a (small1 a) in
      let d2 = (read_byte d1 a).1 in
      let same2 : d2.1 ≡ memory = kept' ∙ kept in
      let small2 : (x : ℕ) → d2.1 x < 256 = λ x. rw same2 (small x) in
      let (low, kept'') = read_byte-memory d2.0 d2.1 b (small2 b) in
      let d3 = (read_byte d2 b).1 in
      let same3 : d3.1 ≡ memory = kept'' ∙ same2 in
      let (out, kept''') = read_bytes-cells addr size d3 (λ x. rw same3 (small x)) in
      let high' : (read_byte d1 a).0 ≡ memory a = high ∙ ap (λ m. m a) kept in
      let low' : (read_byte d2 b).0 ≡ memory b = low ∙ ap (λ m. m b) same2 in
      let out' : (read_bytes (host tick) addr size d3).0 ≡ cells memory addr size =
        out ∙ ap (λ m. cells m addr size) same3 in
      let joined = bytes-joined (memory a) (memory b) (small a) (small b) in
      elim (Bool-cases (memory a * 256 + memory b == crc16 (cells memory addr size))) [
        | inl e ↦ (
          rw (load, bytes, high', low', joined, e) (ap some out'),
          rw (load, bytes, high', low', joined, e) (kept''' ∙ same3),
        )
        | inr e ↦ (
          rw (load, bytes, high', low', joined, e) refl,
          rw (load, bytes, high', low', joined, e) same3,
        )
      ]
