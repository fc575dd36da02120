-- ===== src/Math.antt =====
-- epic-math/src/host and epic-math/src/common: the portable arithmetic, with a result beside the flag
-- that the C code stores through a pointer.
pub mod Sqrt
pub mod Bcd
pub mod Rand
mod Newton
mod Decimal
mod Period
mod Tests
use pic8_hal.Common.Int.{ℤ, pos, negsuc, pos_part, neg_part, sub_ℕ, ◌+ℤ◌, ◌-ℤ◌, ◌*ℤ◌, s16, s32}
use pic8_hal.Common.{
  ℕ, zero, suc, ◌+◌, ◌-◌, ◌*◌, ◌/◌, ◌%◌, ◌^◌, Bool, true, false, ltb, ◌==◌, if◌then◌else◌, u16, u32,
}

-- A 16-bit value, and whether the operation carried, borrowed or was defined.
pub record Flagged : Type 0 where
  pub value : ℕ
  pub flag : Bool

unfoldable pub add_u16 : ℕ → ℕ → Flagged
add_u16 a b = let s = a + b in record { value = u16 s; flag = ltb 0xffff s }

unfoldable pub sub_u16 : ℕ → ℕ → Flagged
sub_u16 a b = record { value = u16 (a + 2 ^ 16 - b); flag = ltb a b }

-- On bit patterns.
unfoldable pub negate_s16 : ℕ → ℕ
negate_s16 v = u16 (2 ^ 16 - v)

unfoldable pub negate_s32 : ℕ → ℕ
negate_s32 v = u32 (2 ^ 32 - v)

unfoldable pub mul_u8 : ℕ → ℕ → ℕ
mul_u8 a b = u16 (a * b)

unfoldable pub mul_u16 : ℕ → ℕ → ℕ
mul_u16 a b = u32 (a * b)

pub record Quotient : Type 0 where
  pub quotient : ℕ
  pub remainder : ℕ
  pub ok : Bool

unfoldable pub divmod_u16 : ℕ → ℕ → Quotient
divmod_u16 num den =
    if den == 0
    then record { quotient = 0; remainder = 0; ok = false }
    else record { quotient = u16 (num / den); remainder = u16 (num % den); ok = true }

-- The same code on a 32-bit numerator.
unfoldable pub divmod_u32_16 : ℕ → ℕ → Quotient
divmod_u32_16 num den =
    if den == 0
    then record { quotient = 0; remainder = 0; ok = false }
    else record { quotient = u16 (num / den); remainder = u16 (num % den); ok = true }

-- Division of integers that rounds to 0, as in C.
abbrev pub div_ℤ : ℤ → ℕ → ℤ
div_ℤ (pos n) d = pos (n / d)
div_ℤ (negsuc n) d = sub_ℕ 0 (suc n / d)

abbrev pub mod_ℤ : ℤ → ℕ → ℤ
mod_ℤ (pos n) d = pos (n % d)
mod_ℤ (negsuc n) d = sub_ℕ 0 (suc n % d)

abbrev pub negated : ℤ → ℤ
negated z = sub_ℕ (neg_part z) (pos_part z)

pub record SignedQuotient : Type 0 where
  pub quotient : ℤ
  pub remainder : ℤ
  pub ok : Bool

-- A division by a negative number negates the quotient, and the remainder has the sign of `num`.
unfoldable pub divmod_s16 : ℤ → ℤ → SignedQuotient
divmod_s16 num (pos zero) = record { quotient = pos 0; remainder = pos 0; ok = false }
divmod_s16 num (pos (suc d)) = record {
  quotient = s16 (div_ℤ num (suc d));
  remainder = s16 (mod_ℤ num (suc d));
  ok = true;
}
divmod_s16 num (negsuc d) = record {
  quotient = s16 (negated (div_ℤ num (suc d)));
  remainder = s16 (mod_ℤ num (suc d));
  ok = true;
}

unfoldable pub mul_s16 : ℤ → ℤ → ℤ
mul_s16 a b = s32 (a *ℤ b)

-- An overflow of int32_t, which C leaves undefined, wraps here and in the next function.
unfoldable pub diff3 : ℤ → ℤ → ℤ → ℤ → ℤ
diff3 x_prev2 x_prev1 x_now inv_2h_q8 = s16 (s32 ((x_now -ℤ x_prev2) *ℤ inv_2h_q8))

unfoldable pub integrate_simpson38 : ℤ → ℤ → ℤ → ℤ → ℤ → ℤ
integrate_simpson38 f0 f1 f2 f3 three_h_over_8_q16 =
    s32 (three_h_over_8_q16 *ℤ (f0 +ℤ pos 3 *ℤ f1 +ℤ pos 3 *ℤ f2 +ℤ f3))
