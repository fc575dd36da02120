-- ===== src/Lcd/Shift.antt =====
-- The shift-register transport: what stands on the outputs of the 74HC595.
use pic8_hal.Common.{
  ℕ, ◌^◌, ◌<◌, bit_or, ◌≡◌, refl, ap, ◌∙◌, ◌≢◌, Bool, true, false, not, ◌&&◌, ◌||◌, List, [], ◌∷◌,
  ◌++◌, arith, ◌==◌, u8,
}
use pic8_hal.Common.Digits.{digit, digit_zero, digit-bit_or, digit-pow, digit-u8, digit-bound}
use pic8_hal.Lcd.Transport.{
  level, Layout, set_line, make_595_byte, Spi, shift, latch, spi_send_nibble,
}

-- The outputs after each rising edge of the latch pin, from the level of the pin and the byte shifted in
-- before. A pin that is high already has no edge.
abbrev pub outputs : Bool → ℕ → List Spi → List ℕ
outputs pin held [] = []
outputs pin held (shift byte ∷ calls) = outputs pin byte calls
outputs false held (latch true ∷ calls) = held ∷ outputs true held calls
outputs true held (latch true ∷ calls) = outputs true held calls
outputs pin held (latch false ∷ calls) = outputs false held calls

-- Every line has an output of its own.
pub record IsLayout (l : Layout) : Type 0 where
  pub rs_byte : l.rs_bit < 8
  pub e_byte : l.e_bit < 8
  pub db4_byte : l.db4_bit < 8
  pub db5_byte : l.db5_bit < 8
  pub db6_byte : l.db6_bit < 8
  pub db7_byte : l.db7_bit < 8
  pub rs_e : l.rs_bit ≢ l.e_bit
  pub rs_db4 : l.rs_bit ≢ l.db4_bit
  pub rs_db5 : l.rs_bit ≢ l.db5_bit
  pub rs_db6 : l.rs_bit ≢ l.db6_bit
  pub rs_db7 : l.rs_bit ≢ l.db7_bit
  pub e_db4 : l.e_bit ≢ l.db4_bit
  pub e_db5 : l.e_bit ≢ l.db5_bit
  pub e_db6 : l.e_bit ≢ l.db6_bit
  pub e_db7 : l.e_bit ≢ l.db7_bit
  pub db4_db5 : l.db4_bit ≢ l.db5_bit
  pub db4_db6 : l.db4_bit ≢ l.db6_bit
  pub db4_db7 : l.db4_bit ≢ l.db7_bit
  pub db5_db6 : l.db5_bit ≢ l.db6_bit
  pub db5_db7 : l.db5_bit ≢ l.db7_bit
  pub db6_db7 : l.db6_bit ≢ l.db7_bit

-- The level of output `k`.
abbrev pub output : ℕ → ℕ → Bool
output k byte = digit byte k == 1

output-or : (b j k : ℕ) → k < 8 → output k (u8 (bit_or b (2 ^ j))) ≡ ((j == k) || output k b)
output-or b j k h = ground (
  arith,
  digit-u8 (bit_or b (2 ^ j)) k h,
  digit-bit_or b (2 ^ j) k,
  digit-pow j k,
  digit-bound b k,
)

output-set_line :
    (t : Bool) (j b k : ℕ) → k < 8 → output k (set_line t j b) ≡ ((t && (j == k)) || output k b)
unfolding set_line
output-set_line true j b k h = ground (
  arith,
  digit-u8 (bit_or b (u8 (2 ^ j))) k h,
  digit-bit_or b (u8 (2 ^ j)) k,
  digit-u8 (2 ^ j) k h,
  digit-pow j k,
  digit-bound b k,
)
output-set_line false j b k h = refl

added :
    (t : Bool) (j b k : ℕ) {c : Bool}
    → k < 8
    → output k b ≡ c
    → output k (set_line t j b) ≡ ((t && (j == k)) || c)
added t j b k h e = output-set_line t j b k h ∙ ap (λ c'. (t && (j == k)) || c') e

first_line : (t : Bool) (j k : ℕ) → k < 8 → output k (set_line t j 0) ≡ (t && (j == k))
first_line t j k h = ground (arith, output-set_line t j 0 k h, digit_zero k)

output-make_595_byte :
    (l : Layout) (reg nibble : ℕ) (asserted : Bool) (k : ℕ)
    → k < 8
    → output k (make_595_byte l reg nibble asserted) ≡ (
        (level nibble 8 && (l.db7_bit == k))
        || ((level nibble 4 && (l.db6_bit == k))
            || ((level nibble 2 && (l.db5_bit == k))
                || ((level nibble 1 && (l.db4_bit == k))
                    || ((asserted && (l.e_bit == k)) || (not (reg == 0) && (l.rs_bit == k)))))))
unfolding make_595_byte
output-make_595_byte l reg nibble asserted k h = added (level nibble 8) l.db7_bit _ k h (
    added (level nibble 4) l.db6_bit _ k h (
      added (level nibble 2) l.db5_bit _ k h (
        added (level nibble 1) l.db4_bit _ k h
          (added asserted l.e_bit _ k h (first_line (not (reg == 0)) l.rs_bit k h)))))

-- The lines of the display as the outputs drive them.
pub record Shows (l : Layout) (reg nibble : ℕ) (asserted : Bool) (byte : ℕ) : Type 0 where
  pub at_rs : output l.rs_bit byte ≡ not (reg == 0)
  pub at_e : output l.e_bit byte ≡ asserted
  pub at_db4 : output l.db4_bit byte ≡ level nibble 1
  pub at_db5 : output l.db5_bit byte ≡ level nibble 2
  pub at_db6 : output l.db6_bit byte ≡ level nibble 4
  pub at_db7 : output l.db7_bit byte ≡ level nibble 8

make_595_byte-Shows :
    (l : Layout) (reg nibble : ℕ) (asserted : Bool)
    → IsLayout l
    → Shows l reg nibble asserted (make_595_byte l reg nibble asserted)
make_595_byte-Shows l reg nibble asserted v =
    let at = output-make_595_byte l reg nibble asserted in
    record {
      at_rs = ground (arith, at l.rs_bit v.rs_byte);
      at_e = ground (arith, at l.e_bit v.e_byte);
      at_db4 = ground (arith, at l.db4_bit v.db4_byte);
      at_db5 = ground (arith, at l.db5_bit v.db5_byte);
      at_db6 = ground (arith, at l.db6_bit v.db6_byte);
      at_db7 = ground (arith, at l.db7_bit v.db7_byte);
    }

-- Where every line has an output of its own and the latch pin is low, the outputs show, at three rising
-- edges of the pin, the register and the nibble with E low, then with E high, and then with E low again;
-- behind that the pin is low, whatever is called next.
pub spi_send_nibble-Shows :
    (l : Layout) (reg nibble held : ℕ) (next : List Spi)
    → IsLayout l
    → (before : ℕ) × (during : ℕ) × (outputs false held (spi_send_nibble l reg nibble ++ next)
        ≡ before ∷ during ∷ before ∷ outputs false before next)
      × Shows l reg nibble false before
      × Shows l reg nibble true during
unfolding spi_send_nibble
spi_send_nibble-Shows l reg nibble held next v =
    let base = make_595_byte l reg nibble false in
    let shown = make_595_byte-Shows l reg nibble false v in
    let or = output-or base l.e_bit in
    (
      base,
      u8 (bit_or base (2 ^ l.e_bit)),
      refl,
      shown,
      record {
        at_rs = or l.rs_bit v.rs_byte ∙ ground (arith, shown.at_rs);
        at_e = or l.e_bit v.e_byte ∙ ground arith;
        at_db4 = or l.db4_bit v.db4_byte ∙ ground (arith, shown.at_db4);
        at_db5 = or l.db5_bit v.db5_byte ∙ ground (arith, shown.at_db5);
        at_db6 = or l.db6_bit v.db6_byte ∙ ground (arith, shown.at_db6);
        at_db7 = or l.db7_bit v.db7_byte ∙ ground (arith, shown.at_db7);
      },
    )
