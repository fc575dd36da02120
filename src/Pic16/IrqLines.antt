-- ===== src/Pic16/IrqLines.antt =====
-- The interrupt sources as lines that are set and cleared one by one.
use pic8_hal.Common.{
  ℕ, ◌^◌, ◌<◌, ◌≡◌, refl, sym, ap, ◌∙◌, inl, inr, Bool, true, false, arith, leb, ◌==◌,
  if◌then◌else◌, Bool-cases,
}
use pic8_hal.Pic16.{Sfr, bit_set, bit_clr, bit_test}
use pic8_hal.Pic16.Location.{Location, bit_at, same, bit_at-bit_set, bit_at-bit_clr, bit_test-pow}
use pic8_hal.Pic16.Irq.{reg_intcon, intcon_peie, desc, enable, disable_src, clear_flag, get_flag}
use pic8_hal.Pic16.IrqTable.{flag_line, enable_line, peie_line, Entry, entry, pair}

-- The bit of an interrupt enable is set.
abbrev pub is_enabled : Sfr → ℕ → Bool
is_enabled s irq = bit_at s (enable_line irq) == 1

-- Whichever of two register files it is, the bit is the same.
either :
    (b : Bool) (s t : Sfr) (m : Location) {v : ℕ}
    → bit_at s m ≡ v
    → bit_at t m ≡ v
    → bit_at (if b then s else t) m ≡ v
either true s t m p q = p
either false s t m p q = q

-- A bit that is set or cleared under a test, read as a Boolean.
read_set : (b : Bool) (v : ℕ) → ((if b then 1 else v) == 1) ≡ (if b then true else v == 1)
read_set true v = refl
read_set false v = refl

read_cleared : (b : Bool) (v : ℕ) → ((if b then 0 else v) == 1) ≡ (if b then false else v == 1)
read_cleared true v = refl
read_cleared false v = refl

module _ (s : Sfr) (i : ℕ) (h : i < 15) where
  inside : leb 15 i ≡ false
  inside = ground arith

  row : Entry i
  row = entry i h

  clear_flag_lem : clear_flag s i ≡ bit_clr s (flag_line i).addr (2 ^ (flag_line i).bit)
  unfolding clear_flag
  clear_flag_lem = elim (Bool-cases (desc i).in_intcon) [
    | inl e ↦ rw (sym row.flag_mask_lem, inside, e, clear_flag) refl
    | inr e ↦ rw (sym row.flag_mask_lem, inside, e, clear_flag) refl
  ]

  disable_src_lem : disable_src s i ≡ bit_clr s (enable_line i).addr (2 ^ (enable_line i).bit)
  unfolding disable_src
  disable_src_lem = elim (Bool-cases (desc i).in_intcon) [
    | inl e ↦ rw (sym row.enable_mask_lem, inside, e, disable_src) refl
    | inr e ↦ rw (sym row.enable_mask_lem, inside, e, disable_src) refl
  ]

  get_flag_lem : get_flag s i ≡ (bit_at s (flag_line i) == 1)
  unfolding get_flag
  get_flag_lem =
      let tested : get_flag s i ≡ bit_test (s (flag_line i).addr) (2 ^ (flag_line i).bit) =
        elim (Bool-cases (desc i).in_intcon) [
          | inl e ↦ rw (sym row.flag_mask_lem, inside, e, get_flag) refl
          | inr e ↦ rw (sym row.flag_mask_lem, inside, e, get_flag) refl
        ] in
      tested ∙ bit_test-pow (s (flag_line i).addr) (flag_line i).bit

  enable_lem :
      let own = bit_set s (enable_line i).addr (2 ^ (enable_line i).bit) in
      enable s i ≡ (if (desc i).in_intcon then own else bit_set own reg_intcon intcon_peie)
  unfolding enable
  enable_lem = elim (Bool-cases (desc i).in_intcon) [
    | inl e ↦ rw (sym row.enable_mask_lem, inside, e, enable) refl
    | inr e ↦ rw (sym row.enable_mask_lem, inside, e, enable) refl
  ]

  -- What a line reads after an enable, if it is not the peripheral enable.
  bit_at-enable :
      (m : Location)
      → m.bit < 8
      → same peie_line m ≡ false
      → bit_at (enable s i) m ≡ (if same (enable_line i) m then 1 else bit_at s m)
  bit_at-enable m hm other =
      let own = bit_set s (enable_line i).addr (2 ^ (enable_line i).bit) in
      let set = bit_at-bit_set s (enable_line i) m row.enable_bit hm in
      let kept : bit_at (bit_set own reg_intcon intcon_peie) m ≡ bit_at own m =
        bit_at-bit_set own peie_line m (omega arith) hm ∙ rw other refl in
      ap (λ t. bit_at t m) enable_lem
      ∙ either (desc i).in_intcon own (bit_set own reg_intcon intcon_peie) m set (kept ∙ set)

module _ (s : Sfr) (i j : ℕ) (h : i < 15) (k : j < 15) where
  cleared_line :
      (t : Sfr) (l m : Location)
      → l.bit < 8
      → m.bit < 8
      → t ≡ bit_clr s l.addr (2 ^ l.bit)
      → (bit_at t m == 1) ≡ (if same l m then false else bit_at s m == 1)
  cleared_line t l m hl hm e =
      ap (λ t. bit_at t m == 1) e
      ∙ ap (λ v. v == 1) (bit_at-bit_clr s l m hl hm)
      ∙ read_cleared (same l m) (bit_at s m)

  enabled_line :
      (m : Location)
      → m.bit < 8
      → same peie_line m ≡ false
      → (bit_at (enable s i) m == 1) ≡ (if same (enable_line i) m then true else bit_at s m == 1)
  enabled_line m hm other =
      ap (λ v. v == 1) (bit_at-enable s i h m hm other)
      ∙ read_set (same (enable_line i) m) (bit_at s m)

  -- EPIC_IRQ_ClearFlag, EPIC_IRQ_Enable and EPIC_IRQ_DisableSrc on the source `i` change the flag, or the
  -- enable, of `i` as they say, and of any other source nothing.
  pub enable-lines :
      (get_flag (clear_flag s i) j ≡ (if i == j then false else get_flag s j))
      × (is_enabled (clear_flag s i) j ≡ is_enabled s j)
      × (is_enabled (enable s i) j ≡ (if i == j then true else is_enabled s j))
      × (get_flag (enable s i) j ≡ get_flag s j)
      × (is_enabled (disable_src s i) j ≡ (if i == j then false else is_enabled s j))
      × (get_flag (disable_src s i) j ≡ get_flag s j)
  enable-lines =
      let lines = pair i j h k in
      let mine = entry i h in
      let yours = entry j k in
      let flag = get_flag_lem s j k in
      let of_flag = cleared_line (clear_flag s i) (flag_line i) in
      let of_enable = cleared_line (disable_src s i) (enable_line i) in
      let cleared = clear_flag_lem s i h in
      let disabled = disable_src_lem s i h in
      (
        get_flag_lem (clear_flag s i) j k
            ∙ of_flag (flag_line j) mine.flag_bit yours.flag_bit cleared
            ∙ rw (lines.flags, flag) refl,
        of_flag (enable_line j) mine.flag_bit yours.enable_bit cleared ∙ rw lines.flag_enable refl,
        enabled_line (enable_line j) yours.enable_bit yours.enable_peie ∙ rw lines.enables refl,
        get_flag_lem (enable s i) j k
            ∙ enabled_line (flag_line j) yours.flag_bit yours.flag_peie
            ∙ rw (lines.enable_flag, flag) refl,
        of_enable (enable_line j) mine.enable_bit yours.enable_bit disabled ∙ rw lines.enables refl,
        get_flag_lem (disable_src s i) j k
            ∙ of_enable (flag_line j) mine.enable_bit yours.flag_bit disabled
            ∙ rw (lines.enable_flag, flag) refl,
      )
