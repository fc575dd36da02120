-- ===== src/Serial/Receive.antt =====
-- The receive side: the program reads the bytes that came, in order, as long as the ring has space.
use pic8_hal.Common.{
  ℕ, zero, suc, ◌-◌, ◌≤◌, ◌<◌, ◌≡◌, refl, sym, ap, ◌∙◌, inl, inr, List, [], ◌∷◌, ◌++◌, append-nil,
  append_assoc, arith, ltb, if◌then◌else◌, Bool-cases, length, take, drop, take_all,
}
use pic8_hal.Ring.{fetch}
use pic8_hal.Ring.Queue.{
  bytes_from, IsValid, contents, length-contents, store-contents, store-IsValid, fetch-contents,
  fetch-IsValid, fetch-count,
}
use pic8_hal.Serial.{Serial, ring_size, on_rx, read, available}
use pic8_hal.Serial.Stream.{thirty_two-IsSize}

abbrev pub waiting : Serial → List ℕ
waiting s = contents ring_size s.rx

abbrev pub RxValid : Serial → Type 0
RxValid s = IsValid ring_size s.rx

-- The receive interrupt queues the byte, or drops it if 32 are waiting; the ring stays well formed.
on_rx-waiting :
    (s : Serial) (byte : ℕ)
    → RxValid s
    → (waiting (on_rx s byte)
        ≡ (if ltb (length (waiting s)) 32 then waiting s ++ byte ∷ [] else waiting s))
      × RxValid (on_rx s byte)
unfolding on_rx
on_rx-waiting s byte v = elim (Bool-cases (ltb s.rx.count 32)) [
  | inl e ↦
      rw (length-contents 32 s.rx, e)
        (
          store-contents 32 thirty_two-IsSize s.rx v byte (ground (arith, e)),
          store-IsValid 32 thirty_two-IsSize s.rx v byte (ground (arith, e)),
        )
  | inr e ↦ rw (length-contents 32 s.rx, e) (refl, v)
]

-- `epic_serial_read` of at most `max` bytes returns the first ones that are waiting, as many as
-- there are up to `max`, and leaves the others waiting; the number available falls accordingly.
pub read-waiting :
    (max : ℕ) (s : Serial)
    → RxValid s
    → let (bytes, s') = read max s in
      (bytes ≡ take max (waiting s))
      × (waiting s' ≡ drop max (waiting s))
      × RxValid s'
      × (available s' ≡ available s - max)
unfolding read available
read-waiting zero s v = (refl, refl, v, omega arith)
read-waiting (suc left) s v = elim (Bool-cases (ltb 0 s.rx.count)) [
  | inl e ↦
      let some_left : 0 < s.rx.count = ground (arith, e) in
      let rest : Serial = record s { rx = (fetch 32 s.rx).1 } in
      let ih = read-waiting left rest (fetch-IsValid 32 thirty_two-IsSize s.rx v some_left) in
      let c = fetch-contents 32 thirty_two-IsSize s.rx v some_left in
      rw (e, c)
        (
          ap (λ l. (fetch 32 s.rx).0 ∷ l) ih.0,
          ih.1,
          ih.2,
          ih.3 ∙ omega (arith, fetch-count 32 thirty_two-IsSize s.rx v),
        )
  | inr e ↦
      let empty : s.rx.count ≡ 0 = ground (arith, e) in
      let nothing : waiting s ≡ [] = ap (bytes_from 32 s.rx.buf s.rx.tail) empty in
      rw (e, nothing) (refl, refl, v, omega arith)
]

-- The receive interrupt at each of some bytes in turn.
abbrev pub on_rx_all : Serial → List ℕ → Serial
on_rx_all s [] = s
on_rx_all s (byte ∷ bytes) = on_rx_all (on_rx s byte) bytes

take-append : (n : ℕ) (xs ys : List ℕ) → n ≤ length xs → take n (xs ++ ys) ≡ take n xs
take-append zero xs ys h = refl
take-append (suc n) [] ys h = absurd (omega arith)
take-append (suc n) (x ∷ xs) ys h = ap (λ l. x ∷ l) (take-append n xs ys (omega arith))

on_rx_all-waiting :
    (bytes : List ℕ) (s : Serial)
    → RxValid s
    → (waiting (on_rx_all s bytes) ≡ take 32 (waiting s ++ bytes)) × RxValid (on_rx_all s bytes)
on_rx_all-waiting [] s v =
    let few : length (waiting s) ≤ 32 = omega (arith, length-contents 32 s.rx, v.fits) in
    (sym (ap (take 32) (append-nil (waiting s)) ∙ take_all 32 (waiting s) few), v)
on_rx_all-waiting (byte ∷ bytes) s v =
    let (queued, v') = on_rx-waiting s byte v in
    let (all, v'') = on_rx_all-waiting bytes (on_rx s byte) v' in
    let same : take 32 (waiting (on_rx s byte) ++ bytes) ≡ take 32 (waiting s ++ byte ∷ bytes) =
      elim (Bool-cases (ltb (length (waiting s)) 32)) [
        | inl space ↦
            ap (λ l. take 32 (l ++ bytes)) (queued ∙ rw space refl)
            ∙ ap (take 32) (append_assoc (waiting s) (byte ∷ []) bytes)
        | inr full ↦
            let many : 32 ≤ length (waiting s) = ground (arith, full) in
            ap (λ l. take 32 (l ++ bytes)) (queued ∙ rw full refl)
            ∙ take-append 32 (waiting s) bytes many
            ∙ sym (take-append 32 (waiting s) (byte ∷ bytes) many)
      ] in
    (all ∙ same, v'')

-- After the receive interrupt of some bytes, the first 32 of those that waited before and of these
-- are in the ring, and `epic_serial_read` of at most `max` bytes returns the first `max` of them, in
-- order, and leaves the others.
pub read-on_rx_all :
    (bytes : List ℕ) (max : ℕ) (s : Serial)
    → RxValid s
    → let (got, s') = read max (on_rx_all s bytes) in
      let queue = take 32 (waiting s ++ bytes) in
      (got ≡ take max queue) × (waiting s' ≡ drop max queue) × RxValid s'
read-on_rx_all bytes max s v =
    let (queue, v') = on_rx_all-waiting bytes s v in
    let (got, left, v'', count) = read-waiting max (on_rx_all s bytes) v' in
    (got ∙ ap (take max) queue, left ∙ ap (drop max) queue, v'')
