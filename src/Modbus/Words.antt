-- ===== src/Modbus/Words.antt =====
-- The registers of a Modbus slave, and their two bytes in a frame.
use pic8_hal.Common.{
  ℕ, zero, suc, ◌+◌, ◌-◌, ◌*◌, ◌/◌, ◌≤◌, ◌<◌, bit_or, ◌≡◌, refl, sym, ap, ◌∙◌, inl, inr, ◌&&◌, List,
  ◌∷◌, arith, ltb, leb, ◌==◌, if◌then◌else◌, Bool-cases, length, get_or, length-set, get_or-set, u8,
  u16, bit_or_bytes,
}
use pic8_hal.Modbus.{be16}
use pic8_hal.Modbus.Requests.{store_regs, copy_regs}

-- The loop that stores registers.
pub length-store_regs :
    (frame : List ℕ) (start qty : ℕ) (regs : List ℕ)
    → length (store_regs frame start qty regs) ≡ length regs
unfolding store_regs
length-store_regs frame start zero regs = refl
length-store_regs frame start (suc i) regs =
    length-set (store_regs frame start i regs) (start + i) _ ∙ length-store_regs frame start i regs

pub get_or-store_regs :
    (frame : List ℕ) (start qty : ℕ) (regs : List ℕ) (j : ℕ)
    → start + qty ≤ length regs
    → get_or (store_regs frame start qty regs) j 0 ≡ (
        if leb start j && ltb j (start + qty)
        then be16 frame (7 + 2 * (j - start))
        else get_or regs j 0)
unfolding store_regs
get_or-store_regs frame start zero regs j h = ground arith
get_or-store_regs frame start (suc i) regs j h =
    let done = store_regs frame start i regs in
    let step =
      get_or-set done (start + i) j (be16 frame (7 + 2 * i)) 0
        (omega (arith, length-store_regs frame start i regs)) in
    let ih = get_or-store_regs frame start i regs j (omega arith) in
    elim (Bool-cases (start + i == j)) [
      | inl e ↦
          let here : be16 frame (7 + 2 * i) ≡ be16 frame (7 + 2 * (j - start)) =
            ap (be16 frame) {x = 7 + 2 * i} {y = 7 + 2 * (j - start)} (ground (arith, e)) in
          step ∙ ground (arith, e, here)
      | inr e ↦ step ∙ ground (arith, e, ih)
    ]

-- The loop that copies registers: two bytes for each, the high byte first.
pub length-copy_regs :
    (table : List ℕ) (start qty : ℕ) → length (copy_regs table start qty) ≡ 2 * qty
unfolding copy_regs
length-copy_regs table start zero = refl
length-copy_regs table start (suc i) = omega (arith, length-copy_regs table (start + 1) i)

be16_put : (rest : List ℕ) (v : ℕ) → v < 65536 → be16 (u8 (v / 256) ∷ u8 v ∷ rest) 0 ≡ v
unfolding be16
be16_put rest v h =
    let joined = bit_or_bytes (u8 (v / 256)) (u8 v) (omega arith) in ground (arith, joined)

be16_later :
    (high low : ℕ) (rest : List ℕ) (k : ℕ) → be16 (high ∷ low ∷ rest) (suc (suc k)) ≡ be16 rest k
unfolding be16
be16_later high low rest k =
    ap (λ m. u16 (bit_or (get_or rest k 0 * 256) (get_or (high ∷ low ∷ rest) m 0)))
      {x = suc (suc k) + 1} {y = suc (suc (k + 1))} (omega arith)

pub be16-copy_regs :
    (table : List ℕ) (start qty i : ℕ)
    → i < qty
    → get_or table (start + i) 0 < 65536
    → be16 (copy_regs table start qty) (2 * i) ≡ get_or table (start + i) 0
unfolding copy_regs
be16-copy_regs table start zero i h l = absurd (omega arith)
be16-copy_regs table start (suc n) zero h l =
    let here : get_or table (start + 0) 0 ≡ get_or table start 0 =
      ap (λ k. get_or table k 0) {x = start + 0} {y = start} (omega arith) in
    be16_put (copy_regs table (start + 1) n) (get_or table start 0) (omega (arith, here)) ∙ sym here
be16-copy_regs table start (suc n) (suc i) h l =
    let at : 2 * suc i ≡ suc (suc (2 * i)) = omega arith in
    let next : get_or table (start + 1 + i) 0 ≡ get_or table (start + suc i) 0 =
      ap (λ k. get_or table k 0) {x = start + 1 + i} {y = start + suc i} (omega arith) in
    ap (be16 (copy_regs table start (suc n))) {x = 2 * suc i} {y = suc (suc (2 * i))} at
    ∙ be16_later _ _ (copy_regs table (start + 1) n) (2 * i)
    ∙ be16-copy_regs table (start + 1) n i (omega arith) (omega (arith, next))
    ∙ next
