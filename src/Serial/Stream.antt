-- ===== src/Serial/Stream.antt =====
-- The transmit side: what is written leaves through TXREG, in order and complete.
use pic8_hal.Common.{
  ℕ, zero, suc, ◌≤◌, ◌<◌, ◌≡◌, refl, sym, ap, ◌∙◌, inl, inr, true, Option, some, List, [], ◌∷◌,
  ◌++◌, append-nil, append_assoc, arith, ltb, leb, Bool-cases, bit_and_31,
}
use pic8_hal.Ring.Queue.{
  store-contents, store-IsValid, IsSize, IsValid, contents, fetch-contents, fetch-IsValid,
  fetch-count,
}
use pic8_hal.Serial.{store, write_byte, write, wait_space, flush, Serial, ring_size, on_tx}

pub thirty_two-IsSize : IsSize 32
thirty_two-IsSize = record { positive = omega arith; byte = omega arith; mask = bit_and_31 }

-- All that has been handed to the transmitter: what went to TXREG, then what is queued.
abbrev pub stream : Serial → List ℕ
stream s = s.sent ++ contents ring_size s.tx

abbrev pub TxValid : Serial → Type 0
TxValid s = IsValid ring_size s.tx

-- What the waits need of `epic_dispatch_all_irqs`: it moves queued bytes on to TXREG and nothing
-- else about them, and at least one while there are any.
pub record Drains (dispatch : Serial → Serial) : Type 0 where
  pub keeps_valid : (s : Serial) → TxValid s → TxValid (dispatch s)
  pub keeps_stream : (s : Serial) → TxValid s → stream (dispatch s) ≡ stream s
  pub progress : (s : Serial) → TxValid s → 0 < s.tx.count → (dispatch s).tx.count < s.tx.count

-- The transmit interrupt of this module is such a drain.
pub on_tx-Drains : Drains on_tx
unfolding on_tx
on_tx-Drains = record {
  keeps_valid = λ s v. elim (Bool-cases (ltb 0 s.tx.count)) [
    | inl e ↦ rw e (fetch-IsValid 32 thirty_two-IsSize s.tx v (ground (arith, e)))
    | inr e ↦ rw e v
  ];
  keeps_stream = λ s v. elim (Bool-cases (ltb 0 s.tx.count)) [
    | inl e ↦
        rw (e, append_assoc)
          (ap (λ l. s.sent ++ l)
            (sym (fetch-contents 32 thirty_two-IsSize s.tx v (ground (arith, e)))))
    | inr e ↦ rw e refl
  ];
  progress = λ s v h. ground (arith, fetch-count 32 thirty_two-IsSize s.tx v);
}

-- `out` is a state, and `P` holds of it.
abbrev pub Returns : Option Serial → (Serial → Type 0) → Type 0
Returns out P = (s : Serial) × (out ≡ some s) × P s

module _ (dispatch : Serial → Serial) (drains : Drains dispatch) where
  wait_space-Returns :
      (fuel : ℕ) (s : Serial)
      → TxValid s
      → Returns
          (wait_space dispatch (suc fuel) s)
          (λ t. (t.tx.count < 32) × TxValid t × (stream t ≡ stream s))
  unfolding wait_space
  wait_space-Returns fuel s v = elim (Bool-cases (leb 32 s.tx.count)) [
    | inr e ↦ (s, rw e refl, (ground (arith, e), v, refl))
    | inl full ↦
        let less : (dispatch s).tx.count < 32 = ground (arith, drains.progress s v, v.fits, full) in
        (
          dispatch s,
          rw full (at_once fuel (dispatch s) less),
          (less, drains.keeps_valid s v, drains.keeps_stream s v),
        )
  ]
    where
      at_once : (k : ℕ) (t : Serial) → t.tx.count < 32 → wait_space dispatch k t ≡ some t
      at_once zero t h = ground arith
      at_once (suc k) t h = ground arith

  write_byte-Returns :
      (fuel : ℕ) (s : Serial) (byte : ℕ)
      → TxValid s
      → Returns
          (write_byte dispatch (suc fuel) s byte)
          (λ t. TxValid t × (stream t ≡ stream s ++ byte ∷ []))
  unfolding write_byte
  write_byte-Returns fuel s byte v =
      let (t, e, w) = wait_space-Returns fuel s v in
      (
        record t { tx = store ring_size t.tx byte; tx_irq = true },
        rw (e, write_byte) refl,
        (
          store-IsValid 32 thirty_two-IsSize t.tx w.1 byte w.0,
          ap (λ l. t.sent ++ l) (store-contents 32 thirty_two-IsSize t.tx w.1 byte w.0)
              ∙ sym (append_assoc t.sent (contents ring_size t.tx) (byte ∷ []))
              ∙ ap (λ l. l ++ byte ∷ []) w.2,
        ),
      )

  -- With a dispatch that drains the transmitter, `epic_serial_write` returns, and has put its bytes
  -- behind all that was handed over before: nothing is lost, doubled or reordered.
  pub write-stream :
      (fuel : ℕ) (s : Serial) (bytes : List ℕ)
      → TxValid s
      → Returns
          (write dispatch (suc fuel) s bytes)
          (λ t. TxValid t × (stream t ≡ stream s ++ bytes))
  unfolding write
  write-stream fuel s [] v = (s, refl, (v, sym (append-nil (stream s))))
  write-stream fuel s (byte ∷ bytes) v =
      let (t, e, w) = write_byte-Returns fuel s byte v in
      let (u, e', w') = write-stream fuel t bytes w.0 in
      (
        u,
        rw (e, write) e',
        (w'.0, w'.1 ∙ ap (λ l. l ++ bytes) w.1 ∙ append_assoc (stream s) (byte ∷ []) bytes),
      )

  all_sent : (s : Serial) → s.tx.count ≡ 0 → s.sent ≡ stream s
  all_sent s e = rw e (sym (append-nil s.sent))

  -- `epic_serial_flush` with fuel for the bytes queued: the ring is empty, and all of the stream has
  -- gone to TXREG.
  flush-sent :
      (fuel : ℕ) (s : Serial)
      → TxValid s
      → s.tx.count ≤ fuel
      → Returns (flush dispatch fuel s) (λ t. (t.tx.count ≡ 0) × (t.sent ≡ stream s))
  unfolding flush
  flush-sent zero s v h =
      let none_left : s.tx.count ≡ 0 = omega arith in
      (s, ground arith, (none_left, all_sent s none_left))
  flush-sent (suc fuel) s v h = elim (Bool-cases (ltb 0 s.tx.count)) [
    | inr e ↦
        let none_left : s.tx.count ≡ 0 = ground (arith, e) in
        (s, rw (e, flush) refl, (none_left, all_sent s none_left))
    | inl e ↦
        let less = drains.progress s v (ground (arith, e)) in
        let (t, e', w) = flush-sent fuel (dispatch s) (drains.keeps_valid s v) (omega arith) in
        (t, rw (e, flush) e', (w.0, w.1 ∙ drains.keeps_stream s v))
  ]
