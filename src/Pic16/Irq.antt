-- ===== src/Pic16/Irq.antt =====
-- pic16f87xa-hal/src/core/pic16_irq.c: the interrupt flags and enables, by the number of the source.
use pic8_hal.Common.{
  ℕ, ◌-◌, bit_and, Bool, true, false, List, [], ◌∷◌, leb, ◌==◌, if◌then◌else◌, get_or,
}
use pic8_hal.Pic16.{Sfr, poke, bit_set, bit_clr, bit_test}

abbrev pub reg_intcon : ℕ
reg_intcon = 0x0B

abbrev pub reg_pir1 : ℕ
reg_pir1 = 0x0C

abbrev pub reg_pir2 : ℕ
reg_pir2 = 0x0D

-- The registers of EPIC_PIE_ENABLE_BIT and EPIC_PIE_DISABLE_BIT.
abbrev pub reg_pie : Bool → ℕ
reg_pie is_pir2 = if is_pir2 then 0x8D else 0x8C

abbrev pub intcon_gie : ℕ
intcon_gie = 0x80

abbrev pub intcon_peie : ℕ
intcon_peie = 0x40

-- irq_desc_t
pub record Desc : Type 0 where
  pub flag_mask : ℕ
  pub enable_mask : ℕ
  pub in_intcon : Bool
  pub pir_is_pir2 : Bool

abbrev pub in_core : ℕ → ℕ → Desc
in_core flag enable = record {
  flag_mask = flag;
  enable_mask = enable;
  in_intcon = true;
  pir_is_pir2 = false;
}

abbrev pub in_pir1 : ℕ → Desc
in_pir1 mask = record {
  flag_mask = mask;
  enable_mask = mask;
  in_intcon = false;
  pir_is_pir2 = false;
}

abbrev pub in_pir2 : ℕ → Desc
in_pir2 mask = record {
  flag_mask = mask;
  enable_mask = mask;
  in_intcon = false;
  pir_is_pir2 = true;
}

-- irq_table, from PIC16_IRQ_RB on, on a device with a PSP.
abbrev pub irq_table : List Desc
irq_table =
    in_core 0x01 0x08
    ∷ in_core 0x02 0x10
    ∷ in_core 0x04 0x20
    ∷ in_pir1 0x01
    ∷ in_pir1 0x02
    ∷ in_pir1 0x04
    ∷ in_pir2 0x01
    ∷ in_pir1 0x08
    ∷ in_pir2 0x08
    ∷ in_pir1 0x10
    ∷ in_pir1 0x20
    ∷ in_pir1 0x40
    ∷ in_pir2 0x10
    ∷ in_pir2 0x40
    ∷ in_pir1 0x80
    ∷ []

abbrev pub desc : ℕ → Desc
desc irq = get_or irq_table irq (in_core 0 0)

abbrev pub table_size : ℕ
table_size = 15

abbrev pub pir_reg_addr : Desc → ℕ
pir_reg_addr d = if d.pir_is_pir2 then reg_pir2 else reg_pir1

-- EPIC_IRQ_Disable: the level before, and the registers.
unfoldable pub disable : Sfr → ℕ × Sfr
disable s = (
  if bit_test (s reg_intcon) intcon_gie then 1 else 0,
  poke s reg_intcon (bit_and (s reg_intcon) (255 - intcon_gie)),
)

-- EPIC_IRQ_Restore
unfoldable pub restore : Sfr → ℕ → Sfr
restore s prev_state =
    if prev_state == 0 then bit_clr s reg_intcon intcon_gie else bit_set s reg_intcon intcon_gie

-- EPIC_IRQ_Enable
unfoldable pub enable : Sfr → ℕ → Sfr
enable s irq =
    let d = desc irq in
    if leb table_size irq
    then s
    else if d.in_intcon
    then bit_set s reg_intcon d.enable_mask
    else bit_set (bit_set s (reg_pie d.pir_is_pir2) d.enable_mask) reg_intcon intcon_peie

-- EPIC_IRQ_DisableSrc
unfoldable pub disable_src : Sfr → ℕ → Sfr
disable_src s irq =
    let d = desc irq in
    if leb table_size irq
    then s
    else if d.in_intcon
    then bit_clr s reg_intcon d.enable_mask
    else bit_clr s (reg_pie d.pir_is_pir2) d.enable_mask

-- EPIC_IRQ_ClearFlag
unfoldable pub clear_flag : Sfr → ℕ → Sfr
clear_flag s irq =
    let d = desc irq in
    if leb table_size irq
    then s
    else if d.in_intcon
    then bit_clr s reg_intcon d.flag_mask
    else bit_clr s (pir_reg_addr d) d.flag_mask

-- EPIC_IRQ_GetFlag
unfoldable pub get_flag : Sfr → ℕ → Bool
get_flag s irq =
    let d = desc irq in
    let reg = if d.in_intcon then s reg_intcon else s (pir_reg_addr d) in
    if leb table_size irq then false else bit_test reg d.flag_mask
