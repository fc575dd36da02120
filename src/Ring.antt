-- ===== src/Ring.antt =====
-- The byte rings of epic-serial and epic-swuart: a buffer of `sz` bytes, a power of two, with the
-- index of the next write, that of the next read, and the number of bytes held.
pub mod Queue
use pic8_hal.Common.{ℕ, ◌+◌, ◌-◌, bit_and, List, set, get_or, u8}

pub record Ring : Type 0 where
  pub buf : List ℕ
  pub head : ℕ
  pub tail : ℕ
  pub count : ℕ

-- `(uint8_t)((i + 1u) & MASK)`
abbrev pub advance : ℕ → ℕ → ℕ
advance sz i = u8 (bit_and (i + 1) (sz - 1))

-- The three statements that store a byte, behind the test for space.
unfoldable pub store : ℕ → Ring → ℕ → Ring
store sz r byte = record r {
  buf = set r.buf r.head byte;
  head = advance sz r.head;
  count = u8 (r.count + 1);
}

-- The three that take a byte out, behind the test for one.
unfoldable pub fetch : ℕ → Ring → ℕ × Ring
fetch sz r = (get_or r.buf r.tail 0, record r { tail = advance sz r.tail; count = r.count - 1 })
