-- ===== src/Swuart/Loopback.antt =====
-- A transmitter on the line of a receiver.
use mathlib.Core.Path.{subst}
use pic8_hal.Common.{
  ℕ, zero, suc, ◌+◌, ◌*◌, ◌≤◌, ◌<◌, ◌≡◌, refl, sym, ap, ◌∙◌, true, List, [], ◌∷◌, ◌++◌, append-nil,
  append_assoc, arith, lt→ltb, length, take, length-append, u16, All, IsByte, take_all,
}
use pic8_hal.Ring.Queue.{IsValid, contents, length-contents}
use pic8_hal.Swuart.{Handle, Ccp, Mode, ring_size, write, tx_idle}
use pic8_hal.Swuart.Transmit.{frames, matches}
use pic8_hal.Swuart.Send.{write-frames}
use pic8_hal.Swuart.Receive.{byte_of, middle}
use pic8_hal.Swuart.Hear.{hear_frame, hear_frame-levels}
use pic8_hal.Swuart.Line.{level_at, to_come, from_edge, first_time}
use pic8_hal.Swuart.Delivery.{waiting, Listens, stopped-waiting}
use pic8_hal.Swuart.FrameLevels.{bits_of, byte_of-bits_of, all_passed, frame-Shown}

-- The receiver hears `n` frames of the line: from the falling edge on it samples the level that the line
-- has at each match of its own unit, and it misses what comes until it waits for the next edge.
unfoldable pub listen : ℕ → ℕ → List (ℕ × Mode) → Handle → Ccp → Handle × Ccp
listen cycles_per_bit zero wire h unit = (h, unit)
listen cycles_per_bit (suc n) wire h unit =
    let wire' = from_edge wire in
    let edge = first_time wire' in
    let (h', unit') = hear_frame cycles_per_bit (level_at edge wire' true) edge h unit in
    listen cycles_per_bit n (to_come edge wire' unit'.compare) h' unit'

module _ (cycles_per_bit : ℕ) (some_cycles : 0 < cycles_per_bit)
    (fit : 10 * cycles_per_bit < 65536) where
  module _ (t : ℕ) (word : t < 65536) where
    hear_frame-frames :
        (byte : ℕ) (bytes : List ℕ) (h : Handle) (unit : Ccp)
        → Listens h unit
        → IsByte byte
        → length (waiting h) < 8
        → let (h', unit') =
            hear_frame cycles_per_bit
              (level_at t (frames cycles_per_bit t (byte ∷ bytes)) true)
              t
              h
              unit in
          (Listens h' unit'
            × (waiting h' ≡ waiting h ++ byte ∷ [])
            × (h'.error_count ≡ h.error_count))
          × (unit'.compare ≡ middle cycles_per_bit t 9)
    hear_frame-frames byte bytes h unit ok is_byte space =
        let line = level_at t (frames cycles_per_bit t (byte ∷ bytes)) true in
        let shown = frame-Shown cycles_per_bit some_cycles fit t word byte bytes h in
        let heard =
          hear_frame-levels cycles_per_bit line t h (bits_of byte) true unit ok.state refl shown in
        let (v, w, errors) =
          stopped-waiting cycles_per_bit t h ok.valid true (byte_of (bits_of byte)) in
        let same = byte_of-bits_of byte is_byte in
        let gap = lt→ltb h.rx.count 8 (omega (arith, space, length-contents 8 h.rx)) in
        rw heard (
          (
            record { state = refl; mode = refl; valid = v },
            w ∙ rw (gap, same) refl,
            errors ∙ rw gap refl,
          ),
          refl,
        )

  -- The receiver queues the bytes of the frames, in order.
  listen-frames :
      (bytes : List ℕ) (t : ℕ) (h : Handle) (unit : Ccp)
      → t < 65536
      → Listens h unit
      → All IsByte bytes
      → length (waiting h) + length bytes ≤ 8
      → let (h', unit') =
          listen cycles_per_bit (length bytes) (frames cycles_per_bit t bytes) h unit in
        Listens h' unit' × (waiting h' ≡ waiting h ++ bytes) × (h'.error_count ≡ h.error_count)
  unfolding listen
  listen-frames [] t h unit word ok all room = (ok, sym (append-nil (waiting h)), refl)
  listen-frames (byte ∷ bytes) t h unit word ok all room =
      let line = level_at t (frames cycles_per_bit t (byte ∷ bytes)) true in
      let (h', unit') = hear_frame cycles_per_bit line t h unit in
      let ((ok', w, errors), at) =
        hear_frame-frames t word byte bytes h unit ok (all.0) (omega (arith, room)) in
      let t' = u16 (t + 10 * cycles_per_bit) in
      let rest : to_come t (frames cycles_per_bit t (byte ∷ bytes)) unit'.compare
          ≡ frames cycles_per_bit t' bytes =
        ap (λ time. to_come t (frames cycles_per_bit t (byte ∷ bytes)) time) at
        ∙ all_passed cycles_per_bit some_cycles fit t word byte bytes in
      let less : length (waiting h') + length bytes ≤ 8 =
        omega (arith, ap length w, length-append (waiting h) (byte ∷ []), room) in
      let (ok'', w', errors') = listen-frames bytes t' h' unit' (omega arith) ok' (all.1) less in
      subst
        (λ wire.
          let (h'', unit'') = listen cycles_per_bit (length bytes) wire h' unit' in
          Listens h'' unit''
          × (waiting h'' ≡ waiting h ++ byte ∷ bytes)
          × (h''.error_count ≡ h.error_count))
        (sym rest)
        (
          ok'',
          w' ∙ ap (λ l. l ++ bytes) w ∙ append_assoc (waiting h) (byte ∷ []) bytes,
          errors' ∙ errors,
        )

  -- Where a channel that is silent is on the line of a receiver that waits for an edge, with space
  -- for the bytes, all of them below 256, and ten bit periods fit into a turn of Timer1: the receiver, which
  -- samples the line at the times of its own matches, queues what EPIC_SWUART_Write takes, in order,
  -- without an error, and waits for an edge again.
  pub listen-write :
      (now : ℕ) (sender : Handle) (unit : Ccp) (receiver : Handle) (ear : Ccp) (byte : ℕ)
      (bytes : List ℕ)
      → IsValid ring_size sender.tx
      → sender.tx_state ≡ tx_idle
      → contents ring_size sender.tx ≡ []
      → Listens receiver ear
      → All IsByte (byte ∷ bytes)
      → length (waiting receiver) + length (byte ∷ bytes) ≤ 8
      → let (n, sender', unit') = write now sender unit (byte ∷ bytes) in
        let (wire, sender'', unit'') = matches cycles_per_bit (10 * n) sender' unit' in
        let (receiver', ear') = listen cycles_per_bit n wire receiver ear in
        (n ≡ length (byte ∷ bytes))
        × Listens receiver' ear'
        × (waiting receiver' ≡ waiting receiver ++ byte ∷ bytes)
        × (receiver'.error_count ≡ receiver.error_count)
  listen-write now sender unit receiver ear byte bytes v idle empty ok all room =
      let (n, (wire, rest)) = write-frames cycles_per_bit now sender unit byte bytes v idle empty in
      let many : (write now sender unit (byte ∷ bytes)).0 ≡ length (byte ∷ bytes) =
        omega (arith, n, room) in
      let whole : take 8 (byte ∷ bytes) ≡ byte ∷ bytes =
        take_all 8 (byte ∷ bytes) (omega (arith, room)) in
      let heard =
        listen-frames (byte ∷ bytes) (u16 (now + 120)) receiver ear (omega arith) ok all room in
      let line = wire ∙ ap (frames cycles_per_bit (u16 (now + 120))) whole in
      (many, rw (line, many) (heard.0), rw (line, many) (heard.1), rw (line, many) (heard.2))
