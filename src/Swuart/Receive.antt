-- ===== src/Swuart/Receive.antt =====
-- The receiver of a channel: what it makes of the levels at its samples.
use pic8_hal.Common.{
  ℕ, zero, suc, ◌+◌, ◌*◌, ◌/◌, ◌<◌, bit_or, ◌≡◌, refl, inl, inr, Bool, true, false, List, [], ◌∷◌,
  ◌++◌, arith, ltb, leb, ◌==◌, if◌then◌else◌, Bool-cases, length, u8, u16, bit_or-zero,
  bit_or_shift, bit_or_comm,
}
use pic8_hal.Swuart.{
  Handle, Ccp, compare_soft_if, rx_idle, rx_data0, rx_stop, capture_falling, rx_push,
  rx_capture_event, on_edge, on_confirm, on_sample,
}

abbrev pub bit : Bool → ℕ
bit high = if high then 1 else 0

-- The byte with these bits, the lowest first.
abbrev pub byte_of : List Bool → ℕ
byte_of [] = 0
byte_of (b ∷ bits) = bit b + 2 * byte_of bits

module _ (cycles_per_bit : ℕ) where
  -- The matches of the receiver's compare unit: their times, and the handler's effect at each, where
  -- the pin has the level of the list.
  unfoldable pub samples : List Bool → Handle → Ccp → List ℕ × Handle × Ccp
  samples [] h unit = ([], h, unit)
  samples (high ∷ levels) h unit =
      let (h', unit') = rx_capture_event cycles_per_bit 0 high h unit in
      let (times, h'', unit'') = samples levels h' unit' in (unit.compare ∷ times, h'', unit'')

  -- A falling edge at `edge`, and the samples behind it.
  unfoldable pub receive : ℕ → List Bool → Handle → Ccp → List ℕ × Handle × Ccp
  receive edge levels h unit =
      let (h', unit') = rx_capture_event cycles_per_bit edge false h unit in samples levels h' unit'

  -- The middle of the bit `k` of a frame that begins at `edge`.
  abbrev pub middle : ℕ → ℕ → ℕ
  middle edge k = u16 (edge + k * cycles_per_bit + cycles_per_bit / 2)

  -- The middles of `n` bits, from bit `k` on.
  abbrev pub middles : ℕ → ℕ → ℕ → List ℕ
  middles edge k zero = []
  middles edge k (suc n) = middle edge k ∷ middles edge (suc k) n

  pub next_middle : (edge k : ℕ) → u16 (middle edge k + cycles_per_bit) ≡ middle edge (suc k)
  next_middle edge k = omega arith

  -- What becomes of a byte behind which the line has the level `stop`.
  abbrev outcome : Handle → Bool → ℕ → Handle
  outcome h stop byte =
      if stop then rx_push h byte else record h { error_count = u16 (h.error_count + 1) }

shift_in :
    (s : ℕ) (b : Bool) → s < 256 → u8 (bit_or (s / 2) (if b then 128 else 0)) ≡ s / 2 + 128 * bit b
shift_in s true h = omega (arith, bit_or_comm (s / 2) 128, bit_or_shift 7 1 (s / 2) (omega arith))
shift_in s false h = omega (arith, bit_or-zero (s / 2))

-- The shift register after a bit.
abbrev pub into : ℕ → Bool → ℕ
into s b = u8 (bit_or (s / 2) (if b then 128 else 0))

bit-bound : (b : Bool) → bit b < 2
bit-bound b = ground arith

into-byte_of :
    (b0 b1 b2 b3 b4 b5 b6 b7 : Bool)
    → into (into (into (into (into (into (into (into 0 b0) b1) b2) b3) b4) b5) b6) b7
      ≡ byte_of (b0 ∷ b1 ∷ b2 ∷ b3 ∷ b4 ∷ b5 ∷ b6 ∷ b7 ∷ [])
into-byte_of b0 b1 b2 b3 b4 b5 b6 b7 =
    let s1 = into 0 b0 in
    let s2 = into s1 b1 in
    let s3 = into s2 b2 in
    let s4 = into s3 b3 in
    let s5 = into s4 b4 in
    let s6 = into s5 b5 in
    let s7 = into s6 b6 in
    omega (
      arith,
      shift_in 0 b0 (omega arith),
      shift_in s1 b1 (omega arith),
      shift_in s2 b2 (omega arith),
      shift_in s3 b3 (omega arith),
      shift_in s4 b4 (omega arith),
      shift_in s5 b5 (omega arith),
      shift_in s6 b6 (omega arith),
      shift_in s7 b7 (omega arith),
      bit-bound b0,
      bit-bound b1,
      bit-bound b2,
      bit-bound b3,
      bit-bound b4,
      bit-bound b5,
      bit-bound b6,
      bit-bound b7,
    )

-- The shift register after some bits.
abbrev pub shifted : ℕ → List Bool → ℕ
shifted s [] = s
shifted s (b ∷ bits) = shifted (into s b) bits

pub shifted-byte_of : (bits : List Bool) → length bits ≡ 8 → shifted 0 bits ≡ byte_of bits
shifted-byte_of [] e = absurd (omega (arith, e))
shifted-byte_of (b0 ∷ []) e = absurd (omega (arith, e))
shifted-byte_of (b0 ∷ b1 ∷ []) e = absurd (omega (arith, e))
shifted-byte_of (b0 ∷ b1 ∷ b2 ∷ []) e = absurd (omega (arith, e))
shifted-byte_of (b0 ∷ b1 ∷ b2 ∷ b3 ∷ []) e = absurd (omega (arith, e))
shifted-byte_of (b0 ∷ b1 ∷ b2 ∷ b3 ∷ b4 ∷ []) e = absurd (omega (arith, e))
shifted-byte_of (b0 ∷ b1 ∷ b2 ∷ b3 ∷ b4 ∷ b5 ∷ []) e = absurd (omega (arith, e))
shifted-byte_of (b0 ∷ b1 ∷ b2 ∷ b3 ∷ b4 ∷ b5 ∷ b6 ∷ []) e = absurd (omega (arith, e))
shifted-byte_of (b0 ∷ b1 ∷ b2 ∷ b3 ∷ b4 ∷ b5 ∷ b6 ∷ b7 ∷ []) e =
    into-byte_of b0 b1 b2 b3 b4 b5 b6 b7
shifted-byte_of (b0 ∷ b1 ∷ b2 ∷ b3 ∷ b4 ∷ b5 ∷ b6 ∷ b7 ∷ b8 ∷ more) e = absurd (omega (arith, e))

module _ (cycles_per_bit edge : ℕ) (h : Handle) where
  abbrev pub at : ℕ → ℕ
  at = middle cycles_per_bit edge

  -- The handle when `k` data bits have been taken, and the shift register is `s`.
  abbrev pub taken : ℕ → ℕ → Handle
  taken k s = record h {
    rx_state = if ltb k 8 then u8 (rx_data0 + k) else rx_stop;
    rx_shift = s;
    rx_bit_index = k;
    rx_deadline = at (suc k);
  }

  pub on_sample-taken :
      (k s : ℕ) (b : Bool) (unit : Ccp)
      → k < 8
      → rx_capture_event cycles_per_bit 0 b (taken k s) unit
        ≡ (taken (suc k) (into s b), record unit { compare = at (suc (suc k)) })
  unfolding rx_capture_event on_sample
  on_sample-taken k s b unit less =
      let e : (taken k s).rx_state ≡ k + 2 = ground arith in
      let e0 : (k + 2 == 0) ≡ false = ground arith in
      let e1 : (k + 2 == 1) ≡ false = ground arith in
      let e2 : (k + 2 == 10) ≡ false = ground arith in
      let e3 : u8 (k + 1) ≡ suc k = omega arith in
      let n = next_middle cycles_per_bit edge (suc k) in simp (e, e0, e1, e2, e3, n)

  -- The handle behind the stop bit.
  abbrev pub stopped : Bool → ℕ → Handle
  stopped stop s = record (outcome cycles_per_bit h stop s) {
    rx_state = rx_idle;
    rx_shift = s;
    rx_bit_index = 8;
    rx_deadline = at 9;
  }

  pub on_sample-stopped :
      (s : ℕ) (stop : Bool) (unit : Ccp)
      → rx_capture_event cycles_per_bit 0 stop (taken 8 s) unit
        ≡ (stopped stop s, record unit { mode = capture_falling })
  unfolding rx_capture_event on_sample rx_push
  on_sample-stopped s true unit = elim (Bool-cases (leb 8 h.rx.count)) [
    | inl e ↦ simp e
    | inr e ↦ simp e
  ]
  on_sample-stopped s false unit = refl

  samples-bits :
      (bits : List Bool) (k s : ℕ) (stop : Bool) (unit : Ccp)
      → k + length bits ≡ 8
      → unit.compare ≡ at (suc k)
      → samples cycles_per_bit (bits ++ stop ∷ []) (taken k s) unit ≡ (
        middles cycles_per_bit edge (suc k) (suc (length bits)),
        stopped stop (shifted s bits),
        record { compare = at 9; mode = capture_falling },
      )
  unfolding samples
  samples-bits [] k s stop unit e c =
      let all : k ≡ 8 = omega (arith, e) in simp (all, c, on_sample-stopped s stop unit)
  samples-bits (b ∷ bits) k s stop unit e c =
      let rest =
        samples-bits bits (suc k) (into s b) stop (record unit { compare = at (suc (suc k)) })
          (omega (arith, e)) refl in
      simp (on_sample-taken k s b unit (omega (arith, e)), c, rest)

  receive-started :
      (levels : List Bool) (unit : Ccp)
      → h.rx_state ≡ rx_idle
      → let soft : Ccp = record { compare = at 1; mode = compare_soft_if } in
        let (times, h', unit') = samples cycles_per_bit levels (taken 0 0) soft in
        receive cycles_per_bit edge (false ∷ levels) h unit ≡ (at 0 ∷ times, h', unit')
  unfolding receive samples rx_capture_event on_edge on_confirm
  receive-started levels unit idle =
      let first : u16 (edge + cycles_per_bit / 2) ≡ at 0 = omega arith in
      rw idle (simp (first, next_middle cycles_per_bit edge 0))

  -- Behind a start bit that is low in its middle, the handler samples the pin in the middle of each
  -- bit, and the byte of the eight data bits meets the outcome that the stop bit has.
  pub receive-levels :
      (bits : List Bool) (stop : Bool) (unit : Ccp)
      → h.rx_state ≡ rx_idle
      → length bits ≡ 8
      → receive cycles_per_bit edge (false ∷ bits ++ stop ∷ []) h unit ≡ (
        middles cycles_per_bit edge 0 10,
        stopped stop (byte_of bits),
        record { compare = at 9; mode = capture_falling },
      )
  receive-levels bits stop unit idle eight =
      let soft : Ccp = record { compare = at 1; mode = compare_soft_if } in
      let rest = samples-bits bits 0 0 stop soft (omega (arith, eight)) refl in
      let value = shifted-byte_of bits eight in
      simp (receive-started (bits ++ stop ∷ []) unit idle, rest, value, eight)
