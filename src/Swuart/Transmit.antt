-- ===== src/Swuart/Transmit.antt =====
-- The transmitter of a channel: what the compare unit puts on the line.
use pic8_hal.Common.{
  ℕ, zero, suc, ◌+◌, ◌*◌, ◌/◌, ◌<◌, ◌≡◌, refl, sym, ap, ◌∙◌, false, List, [], ◌∷◌, ◌++◌, arith,
  ◌==◌, if◌then◌else◌, length, get_or, take, drop, u16, bit_and_one, bit_and_seven,
}
use pic8_hal.Common.Digits.{digit}
use pic8_hal.Ring.{fetch}
use pic8_hal.Ring.Queue.{IsSize, IsValid, contents, fetch-contents, fetch-IsValid, length-contents}
use pic8_hal.Swuart.{
  Handle, Ccp, tx_idle, tx_data, Mode, mode_off, compare_set, compare_clear, ring_size, take_byte,
  arm_next, tx_compare_event,
}

pub eight-IsSize : IsSize 8
eight-IsSize = record { positive = omega arith; byte = omega arith; mask = bit_and_seven }

module _ (cycles_per_bit : ℕ) where
  -- The first `n` matches of the compare unit, each with the call of the handler: the times of
  -- Timer1 and the modes, which say what happens to the pin at them, then the state reached.
  unfoldable pub matches : ℕ → Handle → Ccp → List (ℕ × Mode) × Handle × Ccp
  matches zero h unit = ([], h, unit)
  matches (suc n) h unit =
      let (h', unit') = tx_compare_event cycles_per_bit h unit in
      let (rest, h'', unit'') = matches n h' unit' in
      ((unit.compare, unit.mode) ∷ rest, h'', unit'')

  abbrev pub level : ℕ → Mode
  level bit = if bit == 0 then compare_clear else compare_set

  -- A frame whose start bit begins at `t`: the start bit, the eight bits of the byte, the lowest
  -- first, and the stop bit, one bit period apart.
  abbrev pub frame : ℕ → ℕ → List (ℕ × Mode)
  frame t byte =
      (t, compare_clear)
      ∷ (u16 (t + 1 * cycles_per_bit), level (digit byte 0))
      ∷ (u16 (t + 2 * cycles_per_bit), level (digit byte 1))
      ∷ (u16 (t + 3 * cycles_per_bit), level (digit byte 2))
      ∷ (u16 (t + 4 * cycles_per_bit), level (digit byte 3))
      ∷ (u16 (t + 5 * cycles_per_bit), level (digit byte 4))
      ∷ (u16 (t + 6 * cycles_per_bit), level (digit byte 5))
      ∷ (u16 (t + 7 * cycles_per_bit), level (digit byte 6))
      ∷ (u16 (t + 8 * cycles_per_bit), level (digit byte 7))
      ∷ (u16 (t + 9 * cycles_per_bit), compare_set)
      ∷ []

  -- The start bit of `byte` is armed for `t`, as EPIC_SWUART_Write and the handler leave it.
  abbrev pub started : Handle → ℕ → ℕ → Handle
  started h t byte = record h {
    tx_state = tx_data;
    tx_shift = byte;
    tx_bit_index = 0;
    tx_deadline = t;
  }

  abbrev pub ended : Handle → ℕ → ℕ → Handle
  ended h t byte = record h {
    tx_state = tx_idle;
    tx_shift = byte / 2 / 2 / 2 / 2 / 2 / 2 / 2 / 2;
    tx_bit_index = 8;
    tx_deadline = u16 (t + 9 * cycles_per_bit);
  }

  next_time :
      (t k : ℕ)
      → u16 (u16 (t + k * cycles_per_bit) + cycles_per_bit) ≡ u16 (t + suc k * cycles_per_bit)
  next_time t k = omega arith

  abbrev pub armed : ℕ → Ccp
  armed t = record { compare = t; mode = compare_clear }

  abbrev pub stopping : ℕ → Ccp
  stopping t = record { compare = u16 (t + 9 * cycles_per_bit); mode = compare_set }

  ten_more : ℕ → ℕ
  ten_more n = suc (suc (suc (suc (suc (suc (suc (suc (suc (suc n)))))))))

  -- The matches up to the last bit of the byte; the stop bit is armed.
  pub matches_nine :
      (h : Handle) (t byte : ℕ)
      → matches 9 (started h t byte) (armed t) ≡ (take 9 (frame t byte), ended h t byte, stopping t)
  unfolding matches tx_compare_event arm_next digit
  matches_nine h t byte =
      let e1 : u16 (t + cycles_per_bit) ≡ u16 (t + 1 * cycles_per_bit) = omega arith in
      simp (
        bit_and_one,
        e1,
        next_time t 1,
        next_time t 2,
        next_time t 3,
        next_time t 4,
        next_time t 5,
        next_time t 6,
        next_time t 7,
        next_time t 8,
      )

  -- The ten matches of a frame, and what follows them.
  matches-started :
      (h : Handle) (t byte n : ℕ)
      → let (h', unit') = tx_compare_event cycles_per_bit (ended h t byte) (stopping t) in
        let (rest, h'', unit'') = matches n h' unit' in
        matches (ten_more n) (started h t byte) (armed t) ≡ (frame t byte ++ rest, h'', unit'')
  unfolding matches tx_compare_event arm_next digit ten_more
  matches-started h t byte n =
      let e1 : u16 (t + cycles_per_bit) ≡ u16 (t + 1 * cycles_per_bit) = omega arith in
      simp (
        bit_and_one,
        e1,
        next_time t 1,
        next_time t 2,
        next_time t 3,
        next_time t 4,
        next_time t 5,
        next_time t 6,
        next_time t 7,
        next_time t 8,
      )

  -- The frames of several bytes, each behind the stop bit of the one before.
  abbrev pub frames : ℕ → List ℕ → List (ℕ × Mode)
  frames t [] = []
  frames t (byte ∷ bytes) = frame t byte ++ frames (u16 (t + 10 * cycles_per_bit)) bytes

  -- What is left when all of the queue is on the line.
  pub record Idle (h : Handle) (unit : Ccp) : Type 0 where
    pub state : h.tx_state ≡ tx_idle
    pub off : unit.mode ≡ mode_off
    pub queue : contents ring_size h.tx ≡ []
    pub valid : IsValid ring_size h.tx

  event-empty :
      (h : Handle) (t byte : ℕ)
      → h.tx.count ≡ 0
      → tx_compare_event cycles_per_bit (ended h t byte) (stopping t)
        ≡ (ended h t byte, record { compare = u16 (t + 9 * cycles_per_bit); mode = mode_off })
  unfolding tx_compare_event
  event-empty h t byte e = rw e refl

  event-next :
      (h : Handle) (t byte : ℕ)
      → 0 < h.tx.count
      → let (next, ring) = fetch ring_size h.tx in
        let t' = u16 (t + 10 * cycles_per_bit) in
        tx_compare_event cycles_per_bit (ended h t byte) (stopping t)
        ≡ (started (record h { tx = ring }) t' next, armed t')
  unfolding tx_compare_event arm_next take_byte
  event-next h t byte some_left =
      let e : (h.tx.count == 0) ≡ false = ground arith in rw (e, next_time t 9) refl

  -- In `n` matches the line carries `wire`, and then all of the queue has been sent.
  abbrev pub Sends : ℕ → Handle → Ccp → List (ℕ × Mode) → Type 0
  Sends n h unit out = let (wire, h', unit') = matches n h unit in (wire ≡ out) × Idle h' unit'

  Sends-started :
      (h h' : Handle) (unit' : Ccp) (t byte m n : ℕ) (out : List (ℕ × Mode))
      → m ≡ ten_more n
      → tx_compare_event cycles_per_bit (ended h t byte) (stopping t) ≡ (h', unit')
      → Sends n h' unit' out
      → Sends m (started h t byte) (armed t) (frame t byte ++ out)
  Sends-started h h' unit' t byte m n out enough e sent =
      let first = matches-started h t byte n in
      simp (enough, first, e) (ap (λ l. frame t byte ++ l) sent.0, sent.1)

  -- From a start bit that is armed for `t`, the line carries the frame of that byte and of every
  -- byte that is queued.
  pub Sends-frames :
      (bytes : List ℕ) (h : Handle) (t byte : ℕ)
      → IsValid ring_size h.tx
      → contents ring_size h.tx ≡ bytes
      → Sends (10 * suc (length bytes)) (started h t byte) (armed t) (frames t (byte ∷ bytes))
  unfolding matches ten_more
  Sends-frames [] h t byte v e =
      let empty : h.tx.count ≡ 0 = sym (length-contents 8 h.tx) ∙ ap length e in
      (Sends-started h (ended h t byte)
        (record { compare = u16 (t + 9 * cycles_per_bit); mode = mode_off }) t byte 10 0 [] refl
        (event-empty h t byte empty)
        (refl, record { state = refl; off = refl; queue = e; valid = v }))
  Sends-frames (b ∷ bytes) h t byte v e =
      let some_left : 0 < h.tx.count = omega (arith, sym (length-contents 8 h.tx) ∙ ap length e) in
      let c = sym (fetch-contents 8 eight-IsSize h.tx v some_left) ∙ e in
      let ih =
        Sends-frames bytes (record h { tx = (fetch ring_size h.tx).1 })
          (u16 (t + 10 * cycles_per_bit)) b (fetch-IsValid 8 eight-IsSize h.tx v some_left)
          (ap (drop 1) c) in
      let same : (fetch ring_size h.tx).0 ≡ b = ap (λ l. get_or l 0 0) c in
      (Sends-started h
        (started (record h { tx = (fetch ring_size h.tx).1 }) (u16 (t + 10 * cycles_per_bit))
          (fetch ring_size h.tx).0)
        (armed (u16 (t + 10 * cycles_per_bit))) t byte (10 * suc (suc (length bytes)))
        (10 * suc (length bytes)) (frames (u16 (t + 10 * cycles_per_bit)) (b ∷ bytes)) (omega arith)
        (event-next h t byte some_left) (rw same ih))
