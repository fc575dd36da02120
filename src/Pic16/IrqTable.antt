-- ===== src/Pic16/IrqTable.antt =====
-- The table of the interrupt sources, read as lines: a register and a bit.
use pic8_hal.Common.{
  ℕ, ◌^◌, ◌<◌, ◌≡◌, refl, Bool, true, false, not, ◌&&◌, ltb, ◌==◌, if◌then◌else◌, ltb→lt, ==_iff,
}
use pic8_hal.Common.Digits.{every, every_lem, and-true}
use pic8_hal.Pic16.Location.{Location, same}
use pic8_hal.Pic16.Irq.{reg_intcon, reg_pie, desc, pir_reg_addr}

-- The bit that a mask of one bit names.
abbrev pub log2 : ℕ → ℕ
log2 m =
    if m == 1
    then 0
    else if m == 2
    then 1
    else if m == 4
    then 2
    else if m == 8
    then 3
    else if m == 16
    then 4
    else if m == 32
    then 5
    else if m == 64
    then 6
    else 7

abbrev pub flag_line : ℕ → Location
flag_line irq = record {
  addr = if (desc irq).in_intcon then reg_intcon else pir_reg_addr (desc irq);
  bit = log2 (desc irq).flag_mask;
}

abbrev pub enable_line : ℕ → Location
enable_line irq = record {
  addr = if (desc irq).in_intcon then reg_intcon else reg_pie (desc irq).pir_is_pir2;
  bit = log2 (desc irq).enable_mask;
}

abbrev pub peie_line : Location
peie_line = record { addr = reg_intcon; bit = 6 }

-- The table, checked: every mask is one bit, no two sources share a line, and no flag is an enable.
abbrev table_entry : ℕ → Bool
table_entry i =
    (desc i).flag_mask == 2 ^ (flag_line i).bit
    && (desc i).enable_mask == 2 ^ (enable_line i).bit
    && ltb (flag_line i).bit 8
    && ltb (enable_line i).bit 8
    && not (same peie_line (flag_line i))
    && not (same peie_line (enable_line i))

abbrev table_pair : ℕ → ℕ → Bool
table_pair i j =
    (if same (flag_line i) (flag_line j) then i == j else not (i == j))
    && (if same (enable_line i) (enable_line j) then i == j else not (i == j))
    && not (same (flag_line i) (enable_line j))
    && not (same (enable_line i) (flag_line j))

table-every : every 15 (λ i. table_entry i && every 15 (table_pair i)) ≡ true
table-every = refl

not-true : (a : Bool) → not a ≡ true → a ≡ false
not-true true e = cc
not-true false e = refl

iff-true : (a b : Bool) → (if a then b else not b) ≡ true → a ≡ b
iff-true true true e = refl
iff-true true false e = cc
iff-true false true e = cc
iff-true false false e = refl

-- What the table says of one source.
pub record Entry (i : ℕ) : Type 0 where
  pub flag_mask_lem : (desc i).flag_mask ≡ 2 ^ (flag_line i).bit
  pub enable_mask_lem : (desc i).enable_mask ≡ 2 ^ (enable_line i).bit
  pub flag_bit : (flag_line i).bit < 8
  pub enable_bit : (enable_line i).bit < 8
  pub flag_peie : same peie_line (flag_line i) ≡ false
  pub enable_peie : same peie_line (enable_line i) ≡ false

pub entry : (i : ℕ) → i < 15 → Entry i
entry i h =
    let row =
      and-true _ _ (every_lem 15 i (λ k. table_entry k && every 15 (table_pair k)) table-every h) in
    let (e5, p5) = and-true _ _ (row.0) in
    let (e4, p4) = and-true _ _ e5 in
    let (e3, p3) = and-true _ _ e4 in
    let (e2, p2) = and-true _ _ e3 in
    let (e1, p1) = and-true _ _ e2 in
    record {
      flag_mask_lem = (==_iff _ _).0 e1;
      enable_mask_lem = (==_iff _ _).0 p1;
      flag_bit = ltb→lt _ _ p2;
      enable_bit = ltb→lt _ _ p3;
      flag_peie = not-true _ p4;
      enable_peie = not-true _ p5;
    }

-- What it says of two.
pub record Pair (i j : ℕ) : Type 0 where
  pub flags : same (flag_line i) (flag_line j) ≡ (i == j)
  pub enables : same (enable_line i) (enable_line j) ≡ (i == j)
  pub flag_enable : same (flag_line i) (enable_line j) ≡ false
  pub enable_flag : same (enable_line i) (flag_line j) ≡ false

pub pair : (i j : ℕ) → i < 15 → j < 15 → Pair i j
pair i j h k =
    let row =
      and-true _ _ (every_lem 15 i (λ k. table_entry k && every 15 (table_pair k)) table-every h) in
    let cell = every_lem 15 j (table_pair i) (row.1) k in
    let (e3, p3) = and-true _ _ cell in
    let (e2, p2) = and-true _ _ e3 in
    let (e1, p1) = and-true _ _ e2 in
    record {
      flags = iff-true _ _ e1;
      enables = iff-true _ _ p1;
      flag_enable = not-true _ p2;
      enable_flag = not-true _ p3;
    }
