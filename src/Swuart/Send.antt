-- ===== src/Swuart/Send.antt =====
-- EPIC_SWUART_Write and the line: what is written to a channel that is silent, and what is written
-- while the last bit of a frame is on the line.
use pic8_hal.Common.{
  ℕ, zero, suc, ◌+◌, ◌-◌, ◌*◌, ◌<◌, min, ◌≡◌, refl, sym, ap, ◌∙◌, inl, inr, true, List, [], ◌∷◌,
  ◌++◌, append-nil, append_assoc, arith, ltb, Bool-cases, length, get_or, take, drop, length-take,
  u16,
}
use pic8_hal.Ring.{store, fetch}
use pic8_hal.Ring.Queue.{
  IsValid, contents, store-contents, store-IsValid, store-count, fetch-contents, fetch-IsValid,
  length-contents,
}
use pic8_hal.Swuart.{Handle, Ccp, tx_idle, ring_size, take_byte, fill, write}
use pic8_hal.Swuart.Transmit.{
  eight-IsSize, started, ended, armed, stopping, frame, frames, Sends, Sends-frames, matches,
  matches_nine,
}

-- The handle after the loop of EPIC_SWUART_Write differs from the one before in the ring only.
fill-tx : (bytes : List ℕ) (h : Handle) → (fill h bytes).1 ≡ record h { tx = (fill h bytes).1.tx }
unfolding fill
fill-tx [] h = refl
fill-tx (byte ∷ bytes) h = elim (Bool-cases (ltb h.tx.count 8)) [
  | inl e ↦ let ih = fill-tx bytes (record h { tx = store ring_size h.tx byte }) in rw e ih
  | inr e ↦ rw e refl
]

-- The loop takes the first bytes, as many as there is space for, and puts them behind the queue.
fill-contents :
    (bytes : List ℕ) (h : Handle)
    → IsValid ring_size h.tx
    → let (n, h') = fill h bytes in
      (n ≡ min (length bytes) (8 - h.tx.count))
      × (contents ring_size h'.tx ≡ contents ring_size h.tx ++ take n bytes)
      × IsValid ring_size h'.tx
unfolding fill
fill-contents [] h v = (omega arith, sym (append-nil (contents 8 h.tx)), v)
fill-contents (byte ∷ bytes) h v = elim (Bool-cases (ltb h.tx.count 8)) [
  | inl e ↦
      let space : h.tx.count < 8 = ground (arith, e) in
      let ih =
        fill-contents bytes (record h { tx = store ring_size h.tx byte })
          (store-IsValid 8 eight-IsSize h.tx v byte space) in
      let c = store-contents 8 eight-IsSize h.tx v byte space in
      let n = (fill (record h { tx = store ring_size h.tx byte }) bytes).0 in
      let one_more : suc n ≡ n + 1 = omega arith in
      rw e (
        omega (arith, ih.0, store-count 8 eight-IsSize h.tx v byte space),
        ih.1
            ∙ ap (λ l. l ++ take n bytes) c
            ∙ append_assoc (contents 8 h.tx) (byte ∷ []) (take n bytes)
            ∙ ap (λ k. contents 8 h.tx ++ take k (byte ∷ bytes)) one_more,
        ih.2,
      )
  | inr e ↦ rw e (ground (arith, e), sym (append-nil (contents 8 h.tx)), v)
]

take-nil {ℓ} : {A : Type ℓ} (n : ℕ) → take {A = A} n [] ≡ []
take-nil zero = refl
take-nil (suc n) = refl

-- To take no more than there are is to take as many as there are.
take-min {ℓ} : {A : Type ℓ} (n k : ℕ) (xs : List A) → n ≡ min (length xs) k → take n xs ≡ take k xs
take-min n k [] e = take-nil n ∙ sym (take-nil k)
take-min zero zero (x ∷ xs) e = refl
take-min zero (suc k) (x ∷ xs) e = absurd (omega (arith, e))
take-min (suc n) zero (x ∷ xs) e = absurd (omega (arith, e))
take-min (suc n) (suc k) (x ∷ xs) e =
    let less : n ≡ min (length xs) k = omega (arith, e) in ap (λ l. x ∷ l) (take-min n k xs less)

Sends-take_byte :
    (cycles_per_bit t n byte : ℕ) (bytes : List ℕ) (h : Handle)
    → IsValid ring_size h.tx
    → contents ring_size h.tx ≡ byte ∷ bytes
    → n ≡ suc (length bytes)
    → Sends cycles_per_bit
        (10 * n)
        (record (take_byte h) { tx_deadline = t })
        (armed cycles_per_bit t)
        (frames cycles_per_bit t (byte ∷ bytes))
unfolding take_byte
Sends-take_byte cycles_per_bit t n byte bytes h v e many =
    let some_left : 0 < h.tx.count = omega (arith, sym (length-contents 8 h.tx) ∙ ap length e) in
    let c = sym (fetch-contents 8 eight-IsSize h.tx v some_left) ∙ e in
    let same : (fetch ring_size h.tx).0 ≡ byte = ap (λ l. get_or l 0 0) c in
    rw (same, many)
      (Sends-frames cycles_per_bit bytes (record h { tx = (fetch ring_size h.tx).1 }) t byte
        (fetch-IsValid 8 eight-IsSize h.tx v some_left) (ap (drop 1) c))

module _ (cycles_per_bit now : ℕ) where
  -- On a channel that is silent, EPIC_SWUART_Write takes the first eight bytes, and the line carries
  -- their frames one behind the other, from 120 cycles on; then the channel is silent again.
  pub write-frames :
      (h : Handle) (unit : Ccp) (byte : ℕ) (bytes : List ℕ)
      → IsValid ring_size h.tx
      → h.tx_state ≡ tx_idle
      → contents ring_size h.tx ≡ []
      → let (n, h', unit') = write now h unit (byte ∷ bytes) in
        (n ≡ min 8 (length (byte ∷ bytes)))
        × Sends cycles_per_bit
            (10 * n)
            h'
            unit'
            (frames cycles_per_bit (u16 (now + 120)) (take 8 (byte ∷ bytes)))
  unfolding write take_byte
  write-frames h unit byte bytes v idle empty =
      let (n, c, v') = fill-contents (byte ∷ bytes) h v in
      let still : (fill h (byte ∷ bytes)).1.tx_state ≡ tx_idle =
        ap (λ k. k.tx_state) (fill-tx (byte ∷ bytes) h) ∙ idle in
      let some_in : ltb 0 (fill h (byte ∷ bytes)).0 ≡ true =
        ground (arith, n, sym (length-contents 8 h.tx) ∙ ap length empty) in
      let none_queued : h.tx.count ≡ 0 = sym (length-contents 8 h.tx) ∙ ap length empty in
      let many : (fill h (byte ∷ bytes)).0 ≡ min (length (byte ∷ bytes)) 8 =
        omega (arith, n, none_queued) in
      let queue : contents 8 (fill h (byte ∷ bytes)).1.tx ≡ byte ∷ take 7 bytes =
        c
        ∙ ap (λ l. l ++ take (fill h (byte ∷ bytes)).0 (byte ∷ bytes)) empty
        ∙ take-min (fill h (byte ∷ bytes)).0 8 (byte ∷ bytes) many in
      let enough : (fill h (byte ∷ bytes)).0 ≡ suc (length (take 7 bytes)) =
        omega (arith, many, length-take 7 bytes) in
      rw (some_in, still)
        (
          omega (arith, many),
          Sends-take_byte cycles_per_bit (u16 (now + 120)) (fill h (byte ∷ bytes)).0 byte
              (take 7 bytes) (fill h (byte ∷ bytes)).1 v' queue enough,
        )

  -- Where the channel is silent after the byte whose last bit is on the line, and the program writes
  -- one byte then, the stop bit is lost: the line carries the first nine bits of the first frame,
  -- and then the frame of the second byte.
  pub write-late :
      (h : Handle) (t first second : ℕ)
      → IsValid ring_size h.tx
      → contents ring_size h.tx ≡ []
      → let (wire, h', unit') =
          matches cycles_per_bit 9 (started cycles_per_bit h t first) (armed cycles_per_bit t) in
        let (n, h'', unit'') = write now h' unit' (second ∷ []) in
        (wire ≡ take 9 (frame cycles_per_bit t first))
        × Sends cycles_per_bit 10 h'' unit'' (frame cycles_per_bit (u16 (now + 120)) second)
  write-late h t first second v empty =
      let nine = matches_nine cycles_per_bit h t first in
      let h' = ended cycles_per_bit h t first in
      let sent = write-frames h' (stopping cycles_per_bit t) second [] v refl empty in
      let one : (write now h' (stopping cycles_per_bit t) (second ∷ [])).0 ≡ 1 =
        omega (arith, sent.0) in
      rw nine (refl, rw one at (sent.1))
