-- ===== src/Serial.antt =====
-- epic-serial/src/epic_serial.c: the two byte rings between a program and the USART. The state has
-- the rings, the interrupt enable of the transmitter, and what has been written to TXREG; what a
-- call of `epic_dispatch_all_irqs` does is a parameter. A critical section is one step.
pub mod Stream
pub mod Receive
mod Tests
use pic8_hal.Common.{
  ℕ, zero, suc, Bool, true, false, Option, none, some, List, [], ◌∷◌, ◌++◌, ltb, leb, if◌then◌else◌,
}
use pic8_hal.Ring.{Ring, store, fetch}

abbrev pub ring_size : ℕ
ring_size = 32

pub record Serial : Type 0 where
  pub tx : Ring
  pub rx : Ring
  pub tx_irq : Bool
  pub sent : List ℕ

abbrev pub cleared : Ring → Ring
cleared r = record r { head = 0; tail = 0; count = 0 }

-- `epic_serial_init`, less the set-up of the USART: the rings are emptied, the interrupt is off.
unfoldable pub init : Serial → Serial
init s = record s { tx = cleared s.tx; rx = cleared s.rx; tx_irq = false }

-- `epic_serial_on_rx`: a byte that finds the ring full is dropped.
unfoldable pub on_rx : Serial → ℕ → Serial
on_rx s byte = if ltb s.rx.count ring_size then record s { rx = store ring_size s.rx byte } else s

-- `epic_serial_on_tx`
unfoldable pub on_tx : Serial → Serial
on_tx s =
    if ltb 0 s.tx.count
    then record s { tx = (fetch ring_size s.tx).1; sent = s.sent ++ (fetch ring_size s.tx).0 ∷ [] }
    else record s { tx_irq = false }

module _ (dispatch : Serial → Serial) where
  -- The wait for space, with fuel; `none` is that it still waits.
  unfoldable pub wait_space : ℕ → Serial → Option Serial
  wait_space zero s = if leb ring_size s.tx.count then none else some s
  wait_space (suc fuel) s =
      let rest = wait_space fuel (dispatch s) in if leb ring_size s.tx.count then rest else some s

  -- One round of the loop of `epic_serial_write`.
  unfoldable pub write_byte : ℕ → Serial → ℕ → Option Serial
  write_byte fuel s byte = elim (wait_space fuel s) [
    | none ↦ none
    | some s' ↦ some (record s' { tx = store ring_size s'.tx byte; tx_irq = true })
  ]

  -- `epic_serial_write` returns `len`, here the length of the list, whenever it returns.
  unfoldable pub write : ℕ → Serial → List ℕ → Option Serial
  write fuel s [] = some s
  write fuel s (byte ∷ bytes) = elim (write_byte fuel s byte) [
    | none ↦ none
    | some s' ↦ write fuel s' bytes
  ]

  -- The first loop of `epic_serial_flush`; the second waits for the shift register.
  unfoldable pub flush : ℕ → Serial → Option Serial
  flush zero s = if ltb 0 s.tx.count then none else some s
  flush (suc fuel) s =
      let rest = flush fuel (dispatch s) in if ltb 0 s.tx.count then rest else some s

-- The loop of `epic_serial_read`, with `max - n` as its measure: the bytes in order, and the state.
unfoldable pub read : ℕ → Serial → List ℕ × Serial
read zero s = ([], s)
read (suc left) s =
    let (bytes, s') = read left (record s { rx = (fetch ring_size s.rx).1 }) in
    if ltb 0 s.rx.count then ((fetch ring_size s.rx).0 ∷ bytes, s') else ([], s)

unfoldable pub available : Serial → ℕ
available s = s.rx.count

unfoldable pub tx_pending : Serial → ℕ
tx_pending s = s.tx.count
