-- ===== src/Swuart/Delivery.antt =====
-- What the receiver makes of a frame, whole or broken, and of the frames that a transmitter sends.
use pic8_hal.Common.{
  ℕ, ◌+◌, ◌<◌, ◌≡◌, refl, inl, inr, Bool, true, false, ◌&&◌, List, [], ◌∷◌, ◌++◌, arith, ltb, leb,
  if◌then◌else◌, Bool-cases, length, u16,
}
use pic8_hal.Ring.Queue.{IsValid, contents, length-contents, store-contents, store-IsValid}
use pic8_hal.Swuart.{
  Handle, Ccp, rx_idle, capture_falling, ring_size, rx_push, rx_capture_event, on_edge, on_confirm,
}
use pic8_hal.Swuart.Transmit.{eight-IsSize}
use pic8_hal.Swuart.Receive.{byte_of, receive, samples, middles, stopped, receive-levels}

abbrev pub waiting : Handle → List ℕ
waiting h = contents ring_size h.rx

-- The receiver waits for an edge, and its ring is well formed.
pub record Listens (h : Handle) (unit : Ccp) : Type 0 where
  pub state : h.rx_state ≡ rx_idle
  pub mode : unit.mode ≡ capture_falling
  pub valid : IsValid ring_size h.rx

module _ (cycles_per_bit edge : ℕ) (h : Handle) (valid : IsValid ring_size h.rx) where
  pub stopped-waiting :
      (stop : Bool) (byte : ℕ)
      → let h' = stopped cycles_per_bit edge h stop byte in
        let good = stop && ltb h.rx.count 8 in
        IsValid ring_size h'.rx
        × (waiting h' ≡ (if good then waiting h ++ byte ∷ [] else waiting h))
        × (h'.error_count ≡ (if good then h.error_count else u16 (h.error_count + 1)))
  unfolding rx_push
  stopped-waiting false byte = (valid, refl, refl)
  stopped-waiting true byte = elim (Bool-cases (ltb h.rx.count 8)) [
    | inl e ↦
        let space : h.rx.count < 8 = ground (arith, e) in
        let e' : leb 8 h.rx.count ≡ false = ground arith in
        rw (e, e')
          (
            store-IsValid 8 eight-IsSize h.rx valid byte space,
            store-contents 8 eight-IsSize h.rx valid byte space,
            refl,
          )
    | inr e ↦ let e' : leb 8 h.rx.count ≡ true = ground (arith, e) in rw (e, e') (valid, refl, refl)
  ]

module _ (cycles_per_bit edge : ℕ) (h : Handle) (unit : Ccp) (ok : Listens h unit) where
  -- The handler samples the start bit, the eight data bits and the stop bit in their middles. The
  -- byte is queued if the stop bit is high and the ring has space; else it is dropped and counted.
  -- Then the receiver waits for the next edge.
  pub receive-waiting :
      (bits : List Bool) (stop : Bool)
      → length bits ≡ 8
      → let (times, h', unit') = receive cycles_per_bit edge (false ∷ bits ++ stop ∷ []) h unit in
        let good = stop && ltb (length (waiting h)) 8 in
        (times ≡ middles cycles_per_bit edge 0 10)
        × Listens h' unit'
        × (waiting h' ≡ (if good then waiting h ++ byte_of bits ∷ [] else waiting h))
        × (h'.error_count ≡ (if good then h.error_count else u16 (h.error_count + 1)))
  receive-waiting bits stop eight =
      let (v, w, errors) = stopped-waiting cycles_per_bit edge h ok.valid stop (byte_of bits) in
      rw
        (receive-levels cycles_per_bit edge h bits stop unit ok.state eight, length-contents 8 h.rx)
        (refl, record { state = refl; mode = refl; valid = v }, w, errors)

  -- A start bit that is high in its middle is noise: nothing is queued or counted.
  pub receive-noise :
      let (times, h', unit') = receive cycles_per_bit edge (true ∷ []) h unit in
      Listens h' unit' × (waiting h' ≡ waiting h) × (h'.error_count ≡ h.error_count)
  unfolding receive samples rx_capture_event on_edge on_confirm
  receive-noise = rw ok.state (record { state = refl; mode = refl; valid = ok.valid }, refl, refl)
