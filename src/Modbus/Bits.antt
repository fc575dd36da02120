-- ===== src/Modbus/Bits.antt =====
-- The coils and the discrete inputs of a Modbus slave, packed eight to a byte.
use pic8_hal.Common.{
  ℕ, zero, suc, ◌+◌, ◌-◌, ◌*◌, ◌/◌, ◌%◌, ◌^◌, ◌≤◌, ◌<◌, bit_and, bit_or, ◌≡◌, refl, ap, ◌∙◌, inl,
  inr, Bool, true, false, ◌&&◌, ◌||◌, List, arith, ltb, leb, ◌==◌, if◌then◌else◌, Bool-cases,
  length, set, get_or, replicate, length-set, get_or-set, u8, u16, bit_and_one, bit_and_seven,
}
use pic8_hal.Common.Digits.{
  digit, digit_lem, digit-bit_or, digit-bit_and, digit-pow, digit-complement, digit-u8, digit-bound,
  digit_zero, pow-lt,
}
use pic8_hal.Modbus.{bit_get, bit_set}
use pic8_hal.Modbus.Requests.{store_coils, copy_bits, data_bit}

-- A bit as its digit in its byte.
bit_get-digit : (arr : List ℕ) (i : ℕ) → bit_get arr i ≡ (digit (get_or arr (i / 8) 0) (i % 8) == 1)
unfolding bit_get
bit_get-digit arr i =
    let byte = get_or arr (i / 8) 0 in
    rw (bit_and_seven i) (ground (arith, bit_and_one (byte / 2 ^ (i % 8)), digit_lem byte (i % 8)))

-- The byte with the bit `k` set, and with it reset.
set_digit :
    (byte k j : ℕ)
    → j < 8
    → digit (u8 (bit_or byte (u8 (2 ^ k)))) j ≡ (if k == j then 1 else digit byte j)
set_digit byte k j h = ground (
  arith,
  digit-u8 (bit_or byte (u8 (2 ^ k))) j h,
  digit-bit_or byte (u8 (2 ^ k)) j,
  digit-u8 (2 ^ k) j h,
  digit-pow k j,
  digit-bound byte j,
)

reset_digit :
    (byte k j : ℕ)
    → k < 8
    → j < 8
    → digit (u8 (bit_and byte (255 - u8 (2 ^ k)))) j ≡ (if k == j then 0 else digit byte j)
reset_digit byte k j l h =
    let small : u8 (2 ^ k) ≡ 2 ^ k = omega (arith, pow-lt k l) in
    ground (
      arith,
      digit-u8 (bit_and byte (255 - u8 (2 ^ k))) j h,
      digit-bit_and byte (255 - u8 (2 ^ k)) j,
      ap (λ m. digit (255 - m) j) small,
      digit-complement k j l h,
      digit-bound byte j,
    )

-- A bit that has been written reads back, and the others are as before.
pub bit_get-bit_set :
    (arr : List ℕ) (i j : ℕ) (v : Bool)
    → i / 8 < length arr
    → bit_get (bit_set arr i v) j ≡ (if i == j then v else bit_get arr j)
unfolding bit_set
bit_get-bit_set arr i j true h =
    let byte = u8 (bit_or (get_or arr (i / 8) 0) (u8 (2 ^ bit_and i 7))) in
    ground (
      arith,
      bit_get-digit (set arr (i / 8) byte) j,
      bit_get-digit arr j,
      get_or-set arr (i / 8) (j / 8) byte 0 h,
      bit_and_seven i,
      set_digit (get_or arr (i / 8) 0) (i % 8) (j % 8) (omega arith),
    )
bit_get-bit_set arr i j false h =
    let byte = u8 (bit_and (get_or arr (i / 8) 0) (255 - u8 (2 ^ bit_and i 7))) in
    ground (
      arith,
      bit_get-digit (set arr (i / 8) byte) j,
      bit_get-digit arr j,
      get_or-set arr (i / 8) (j / 8) byte 0 h,
      bit_and_seven i,
      reset_digit (get_or arr (i / 8) 0) (i % 8) (j % 8) (omega arith) (omega arith),
    )

pub length-bit_set : (arr : List ℕ) (i : ℕ) (v : Bool) → length (bit_set arr i v) ≡ length arr
unfolding bit_set
length-bit_set arr i true = length-set arr (i / 8) _
length-bit_set arr i false = length-set arr (i / 8) _

-- The loop that stores coils.
pub length-store_coils :
    (frame : List ℕ) (start qty : ℕ) (coils : List ℕ)
    → length (store_coils frame start qty coils) ≡ length coils
unfolding store_coils
length-store_coils frame start zero coils = refl
length-store_coils frame start (suc i) coils =
    length-bit_set (store_coils frame start i coils) (u16 (start + i)) _
    ∙ length-store_coils frame start i coils

pub bit_get-store_coils :
    (frame : List ℕ) (start qty : ℕ) (coils : List ℕ) (j : ℕ)
    → start + qty ≤ 8 * length coils
    → start + qty ≤ 65536
    → bit_get (store_coils frame start qty coils) j
      ≡ (if leb start j && ltb j (start + qty) then data_bit frame (j - start) else bit_get coils j)
unfolding store_coils
bit_get-store_coils frame start zero coils j h l = ground arith
bit_get-store_coils frame start (suc i) coils j h l =
    let done = store_coils frame start i coils in
    let same : u16 (start + i) ≡ start + i = omega arith in
    ground (
      arith,
      bit_get-store_coils frame start i coils j (omega arith) (omega arith),
      bit_get-bit_set done (u16 (start + i)) j (data_bit frame i)
          (omega (arith, length-store_coils frame start i coils)),
    )

-- The body of the loop that copies bits, on the bit `t`.
length-marked :
    (done : List ℕ) (i : ℕ) (t : Bool)
    → length (
        if t
        then set done (i / 8) (u8 (bit_or (get_or done (i / 8) 0) (u8 (2 ^ bit_and i 7))))
        else done)
      ≡ length done
length-marked done i true = length-set done (i / 8) _
length-marked done i false = refl

bit_get-marked :
    (done : List ℕ) (i j : ℕ) (t : Bool)
    → i / 8 < length done
    → bit_get
        (if t
          then set done (i / 8) (u8 (bit_or (get_or done (i / 8) 0) (u8 (2 ^ bit_and i 7))))
          else done)
        j
      ≡ (((i == j) && t) || bit_get done j)
unfolding bit_set
bit_get-marked done i j true h = bit_get-bit_set done i j true h ∙ ground arith
bit_get-marked done i j false h = ground arith

-- The loop that copies bits to a response sets the bits below `qty` that are set in the table.
pub length-copy_bits :
    (table : List ℕ) (start qty : ℕ) (out : List ℕ)
    → length (copy_bits table start qty out) ≡ length out
unfolding copy_bits
length-copy_bits table start zero out = refl
length-copy_bits table start (suc i) out =
    length-marked (copy_bits table start i out) i (bit_get table (u16 (start + i)))
    ∙ length-copy_bits table start i out

pub bit_get-copy_bits :
    (table : List ℕ) (start qty : ℕ) (out : List ℕ) (j : ℕ)
    → qty ≤ 8 * length out
    → start + qty ≤ 65536
    → bit_get (copy_bits table start qty out) j
      ≡ ((ltb j qty && bit_get table (start + j)) || bit_get out j)
unfolding copy_bits
bit_get-copy_bits table start zero out j h l = ground arith
bit_get-copy_bits table start (suc i) out j h l =
    let done = copy_bits table start i out in
    let same : bit_get table (u16 (start + i)) ≡ bit_get table (start + i) =
      ap (bit_get table) {x = u16 (start + i)} {y = start + i} (omega arith) in
    let step =
      bit_get-marked done i j (bit_get table (u16 (start + i)))
        (omega (arith, length-copy_bits table start i out)) in
    let ih = bit_get-copy_bits table start i out j (omega arith) (omega arith) in
    elim (Bool-cases (i == j)) [
      | inl e ↦
          let here : bit_get table (start + i) ≡ bit_get table (start + j) =
            ap (bit_get table) {x = start + i} {y = start + j} (ground (arith, e)) in
          step ∙ ground (arith, e, same, here, ih)
      | inr e ↦ step ∙ ground (arith, e, ih)
    ]

-- The bytes of a response start without bits.
get_or-replicate : (n i : ℕ) → get_or (replicate {A = ℕ} n 0) i 0 ≡ 0
get_or-replicate zero i = refl
get_or-replicate (suc n) zero = refl
get_or-replicate (suc n) (suc i) = get_or-replicate n i

pub bit_get-replicate : (n j : ℕ) → bit_get (replicate n 0) j ≡ false
bit_get-replicate n j = ground (
  arith,
  bit_get-digit (replicate n 0) j,
  ap (λ b. digit b (j % 8)) (get_or-replicate n (j / 8)),
  digit_zero (j % 8),
)
