-- ===== src/Modbus/Answers.antt =====
-- What a Modbus slave sends, and when.
use pic8_hal.Common.{
  ℕ, suc, ◌+◌, ◌-◌, ◌/◌, ◌≤◌, ◌<◌, bit_and, ◌≡◌, refl, sym, ap, ◌∙◌, ◌≢◌, Bool, true, false, Option,
  none, some, List, [], ◌∷◌, ◌++◌, append-nil, arith, ◌==◌, if◌then◌else◌, length, get_or, take,
  replicate, length-append, length-replicate, u8, u16,
}
use pic8_hal.Modbus.{SlaveMap, State, be16, modbus_crc16, crc16_from}
use pic8_hal.Modbus.Requests.{
  build_exception, handle_read_bits, handle_read_regs, echo, handle_write_single_coil,
  handle_write_single_reg, handle_write_multiple_coils, handle_write_multiple_regs, respond,
}
use pic8_hal.Modbus.Slave.{crc_matches, seal, process_frame}
use pic8_hal.Modbus.Bits.{length-copy_bits}
use pic8_hal.Modbus.Words.{length-copy_regs}

-- A response without its CRC: nothing, or from the slave and short enough for the buffer.
record Fits (s : State) (pdu : List ℕ) : Type 0 where
  short : length pdu ≤ 62
  from : 0 < length pdu → (get_or pdu 0 0 ≡ s.slave_addr) × (2 < length pdu)

handle_read_bits-Fits :
    (s : State) (fc : ℕ) (table : Option (List ℕ)) (table_len : ℕ)
    → Fits s (handle_read_bits s fc table table_len)
unfolding handle_read_bits build_exception
handle_read_bits-Fits s fc none table_len = record { short = ground arith; from = ground arith }
handle_read_bits-Fits s fc (some bits) table_len =
    let start = be16 s.frame 2 in
    let qty = be16 s.frame 4 in
    let out = replicate {A = ℕ} (u16 ((qty + 7) / 8)) 0 in
    let size = length-copy_bits bits start qty out in
    let count = length-replicate {A = ℕ} (u16 ((qty + 7) / 8)) 0 in
    record { short = ground (arith, size, count); from = ground (arith, size, count) }

handle_read_regs-Fits :
    (s : State) (fc : ℕ) (table : Option (List ℕ)) (table_len : ℕ)
    → Fits s (handle_read_regs s fc table table_len)
unfolding handle_read_regs build_exception
handle_read_regs-Fits s fc none table_len = record { short = ground arith; from = ground arith }
handle_read_regs-Fits s fc (some regs) table_len =
    let start = be16 s.frame 2 in
    let qty = be16 s.frame 4 in
    let size = length-copy_regs regs start qty in
    record { short = ground (arith, size); from = ground (arith, size) }

handle_write_single_coil-Fits : (s : State) → Fits s (handle_write_single_coil s).1
unfolding handle_write_single_coil build_exception echo
handle_write_single_coil-Fits s = record { short = ground arith; from = ground arith }

handle_write_single_reg-Fits : (s : State) → Fits s (handle_write_single_reg s).1
unfolding handle_write_single_reg build_exception echo
handle_write_single_reg-Fits s = record { short = ground arith; from = ground arith }

handle_write_multiple_coils-Fits : (s : State) → Fits s (handle_write_multiple_coils s).1
unfolding handle_write_multiple_coils build_exception echo
handle_write_multiple_coils-Fits s = record { short = ground arith; from = ground arith }

handle_write_multiple_regs-Fits : (s : State) → Fits s (handle_write_multiple_regs s).1
unfolding handle_write_multiple_regs build_exception echo
handle_write_multiple_regs-Fits s = record { short = ground arith; from = ground arith }

-- A branch of the `switch`.
case-Fits :
    (s : State) (b : Bool) (x y : SlaveMap × List ℕ)
    → Fits s x.1
    → Fits s y.1
    → Fits s (if b then x else y).1
case-Fits s true x y f g = f
case-Fits s false x y f g = g

respond-Fits : (s : State) (fc : ℕ) → Fits s (respond s fc).1
unfolding respond build_exception
respond-Fits s fc =
    let m = s.slave_map in
    case-Fits s (fc == 0x01) _ _ (handle_read_bits-Fits s fc m.coils m.num_coils) (
      case-Fits s (fc == 0x02) _ _
        (handle_read_bits-Fits s fc m.discrete_inputs m.num_discrete_inputs)
        (case-Fits s (fc == 0x03) _ _ (handle_read_regs-Fits s fc m.holding_regs m.num_holding_regs)
          (case-Fits s (fc == 0x04) _ _ (handle_read_regs-Fits s fc m.input_regs m.num_input_regs) (
            case-Fits s (fc == 0x05) _ _ (handle_write_single_coil-Fits s) (
              case-Fits s (fc == 0x06) _ _ (handle_write_single_reg-Fits s) (
                case-Fits s (fc == 0x0f) _ _ (handle_write_multiple_coils-Fits s) (
                  case-Fits s (fc == 0x10) _ _ (handle_write_multiple_regs-Fits s)
                    (record { short = omega arith; from = λ h. (refl, omega arith) }))))))))

-- The CRC of a sealed response.
take-append : (xs ys : List ℕ) → take (length xs) (xs ++ ys) ≡ xs
take-append [] ys = refl
take-append (x ∷ xs) ys = ap (λ l. x ∷ l) (take-append xs ys)

get_or-append : (xs ys : List ℕ) (i : ℕ) → get_or (xs ++ ys) (length xs + i) 0 ≡ get_or ys i 0
get_or-append [] ys i = ap (λ k. get_or ys k 0) {x = 0 + i} {y = i} (omega arith)
get_or-append (x ∷ xs) ys i =
    ap (λ k. get_or (x ∷ xs ++ ys) k 0) {x = suc (length xs) + i} {y = suc (length xs + i)}
      (omega arith)
    ∙ get_or-append xs ys i

crc_matches_lem :
    (frame : List ℕ) (len low high : ℕ)
    → get_or frame (len - 2) 0 ≡ low
    → get_or frame (len - 1) 0 ≡ high
    → low ≡ u8 (bit_and (modbus_crc16 frame (u16 (len - 2))) 0xff)
    → high ≡ u8 (modbus_crc16 frame (u16 (len - 2)) / 256)
    → crc_matches frame len ≡ true
unfolding crc_matches
crc_matches_lem frame len low high e f g h = ground arith

same_crc :
    (pdu rest : List ℕ) → modbus_crc16 (pdu ++ rest) (length pdu) ≡ modbus_crc16 pdu (length pdu)
unfolding modbus_crc16
same_crc pdu rest =
    ap (crc16_from 0xffff)
      (take-append pdu rest ∙ sym (take-append pdu []) ∙ ap (take (length pdu)) (append-nil pdu))

length-seal : (pdu : List ℕ) → length (seal pdu) ≡ length pdu + 2
unfolding seal
length-seal pdu = length-append pdu _

from-seal : (pdu : List ℕ) → 0 < length pdu → get_or (seal pdu) 0 0 ≡ get_or pdu 0 0
unfolding seal
from-seal [] h = absurd (omega arith)
from-seal (x ∷ pdu) h = refl

seal-crc_matches :
    (pdu : List ℕ) → length pdu ≤ 62 → crc_matches (seal pdu) (length (seal pdu)) ≡ true
unfolding seal
seal-crc_matches pdu h =
    let crc = modbus_crc16 pdu (length pdu) in
    let low = u8 (bit_and crc 0xff) in
    let high = u8 (crc / 256) in
    let frame = pdu ++ low ∷ high ∷ [] in
    let size : length frame ≡ length pdu + 2 = length-append pdu (low ∷ high ∷ []) in
    let covered : u16 (length frame - 2) ≡ length pdu = omega arith in
    let same : modbus_crc16 frame (u16 (length frame - 2)) ≡ crc =
      ap (modbus_crc16 frame) {x = u16 (length frame - 2)} {y = length pdu} covered
      ∙ same_crc pdu (low ∷ high ∷ []) in
    crc_matches_lem frame (length frame) low high
      (ap (λ k. get_or frame k 0) {x = length frame - 2} {y = length pdu + 0} (omega arith)
        ∙ get_or-append pdu (low ∷ high ∷ []) 0)
      (ap (λ k. get_or frame k 0) {x = length frame - 1} {y = length pdu + 1} (omega arith)
        ∙ get_or-append pdu (low ∷ high ∷ []) 1)
      (ap (λ c. u8 (bit_and c 0xff)) (sym same)) (ap (λ c. u8 (c / 256)) (sym same))

-- What the answer to a frame says of the frame and of itself.
pub record Answers (s : State) (out : List ℕ) : Type 0 where
  pub whole : 4 ≤ s.frame_len
  pub intact : crc_matches s.frame s.frame_len ≡ true
  pub addressed : get_or s.frame 0 0 ≡ s.slave_addr
  pub own : get_or s.frame 0 0 ≢ 0
  pub sealed : crc_matches out (length out) ≡ true
  pub from : get_or out 0 0 ≡ s.slave_addr
  pub size : (5 ≤ length out) × (length out ≤ 64)

-- A slave answers only a whole frame with the right CRC that is addressed to it and is no
-- broadcast, and its answer has the right CRC, its address, and at most 64 bytes.
pub process_frame-Answers :
    (s : State) (out : List ℕ) → (process_frame s).1 ≡ some out → Answers s out
unfolding process_frame
process_frame-Answers s out e =
    let pdu = (respond s (get_or s.frame 1 0)).1 in
    let fits = respond-Fits s (get_or s.frame 1 0) in
    let some_pdu : 0 < length pdu = ground (arith, e) in
    let same : seal pdu ≡ out = ground (arith, e) in
    let from = fits.from some_pdu in
    record {
      whole = ground (arith, e);
      intact = ground (arith, e);
      addressed = ground (arith, e);
      own = ground (arith, e);
      sealed =
          ap (λ r. crc_matches r (length r)) {x = out} {y = seal pdu} (sym same)
          ∙ seal-crc_matches pdu fits.short;
      from =
          ap (λ r. get_or r 0 0) {x = out} {y = seal pdu} (sym same)
          ∙ from-seal pdu some_pdu
          ∙ from.0;
      size = omega (arith, ap length (sym same) ∙ length-seal pdu, fits.short, from.1);
    }
