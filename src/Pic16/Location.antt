-- ===== src/Pic16/Location.antt =====
-- Single bits of the register file.
use pic8_hal.Common.{
  ℕ, zero, suc, ◌-◌, ◌*◌, ◌/◌, ◌%◌, ◌^◌, ◌<◌, bit_and, bit_or, ◌≡◌, refl, sym, ap, ◌∙◌, inl, inr,
  Bool, true, false, ◌&&◌, arith, ◌==◌, if◌then◌else◌, Bool-cases, bit_and_step, bit_and_one,
}
use pic8_hal.Common.Digits.{
  digit, digit-bit_or, digit-bit_and, digit-pow, digit-complement, digit-u8, digit-bound,
}
use native.Mathlib.Nat.{pow-suc, mul_assoc, one-le-pow}
use pic8_hal.Pic16.{Sfr, bit_set, bit_clr, bit_test}

pub record Location : Type 0 where
  pub addr : ℕ
  pub bit : ℕ

abbrev pub bit_at : Sfr → Location → ℕ
bit_at s l = digit (s l.addr) l.bit

abbrev pub same : Location → Location → Bool
same l m = l.addr == m.addr && l.bit == m.bit

module _ (s : Sfr) (l m : Location) (hl : l.bit < 8) (hm : m.bit < 8) where
  pub bit_at-bit_set :
      bit_at (bit_set s l.addr (2 ^ l.bit)) m ≡ (if same l m then 1 else bit_at s m)
  bit_at-bit_set = elim (Bool-cases (m.addr == l.addr)) [
    | inl e ↦
        let at : m.addr ≡ l.addr = ground (arith, e) in
        let e' : (l.addr == m.addr) ≡ true = ground (arith, e) in
        let here : digit (s m.addr) m.bit ≡ digit (s l.addr) m.bit =
          ap (λ a. digit (s a) m.bit) at in
        rw
          (
            e,
            e',
            digit-u8 (bit_or (s l.addr) (2 ^ l.bit)) m.bit hm,
            digit-bit_or (s l.addr) (2 ^ l.bit) m.bit,
            digit-pow l.bit m.bit,
          )
          (ground (arith, here, digit-bound (s l.addr) m.bit))
    | inr e ↦ let e' : (l.addr == m.addr) ≡ false = ground (arith, e) in rw (e, e') refl
  ]

  pub bit_at-bit_clr :
      bit_at (bit_clr s l.addr (2 ^ l.bit)) m ≡ (if same l m then 0 else bit_at s m)
  bit_at-bit_clr = elim (Bool-cases (m.addr == l.addr)) [
    | inl e ↦
        let at : m.addr ≡ l.addr = ground (arith, e) in
        let e' : (l.addr == m.addr) ≡ true = ground (arith, e) in
        let here : digit (s m.addr) m.bit ≡ digit (s l.addr) m.bit =
          ap (λ a. digit (s a) m.bit) at in
        rw
          (
            e,
            e',
            digit-u8 (bit_and (s l.addr) (255 - 2 ^ l.bit)) m.bit hm,
            digit-bit_and (s l.addr) (255 - 2 ^ l.bit) m.bit,
            digit-complement l.bit m.bit hl hm,
          )
          (ground (arith, here, digit-bound (s l.addr) m.bit))
    | inr e ↦ let e' : (l.addr == m.addr) ≡ false = ground (arith, e) in rw (e, e') refl
  ]

-- A mask of one bit picks the bit.
bit_and-pow : (k v : ℕ) → bit_and v (2 ^ k) ≡ digit v k * 2 ^ k
unfolding digit
bit_and-pow zero v = omega (arith, bit_and_one v)
bit_and-pow (suc k) v =
    let double = pow-suc 2 k in
    let half : 2 ^ suc k / 2 ≡ 2 ^ k = omega (arith, double) in
    let even : 2 ^ suc k % 2 ≡ 0 = omega (arith, double) in
    let step = bit_and_step v (2 ^ suc k) in
    let rest : bit_and (v / 2) (2 ^ suc k / 2) ≡ digit (v / 2) k * 2 ^ k =
      rw half (bit_and-pow k (v / 2)) in
    step
    ∙ omega (arith, rest, even)
    ∙ mul_assoc (digit (v / 2) k) (2 ^ k) 2
    ∙ ap (λ t. digit (v / 2) k * t) (sym double)

pub bit_test-pow : (v k : ℕ) → bit_test v (2 ^ k) ≡ (digit v k == 1)
bit_test-pow v k = elim (Bool-cases (digit v k == 1)) [
  | inl e ↦
      let one : digit v k ≡ 1 = ground (arith, e) in
      let whole : bit_and v (2 ^ k) ≡ 1 * 2 ^ k = bit_and-pow k v ∙ ap (λ d. d * 2 ^ k) one in
      rw e (ground (arith, whole, one-le-pow k 2 (omega arith)))
  | inr e ↦
      let none_set : digit v k ≡ 0 = ground (arith, e, digit-bound v k) in
      let nothing : bit_and v (2 ^ k) ≡ 0 * 2 ^ k =
        bit_and-pow k v ∙ ap (λ d. d * 2 ^ k) none_set in
      rw e (ground (arith, nothing))
]
