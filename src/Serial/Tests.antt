-- ===== src/Serial/Tests.antt =====
-- Runs of the two rings, and their theorems at concrete states.
use pic8_hal.Common.{◌≡◌, refl, false, [], ◌∷◌, arith, set, replicate}
use pic8_hal.Ring.{Ring, fetch}
use pic8_hal.Serial.{Serial, on_tx, write, read}
use pic8_hal.Serial.Stream.{Returns, TxValid, stream, on_tx-Drains, write-stream}
use pic8_hal.Serial.Receive.{waiting, RxValid, on_rx_all, read-on_rx_all}

abbrev empty_ring : Ring
empty_ring = record { buf = replicate 32 0; head = 0; tail = 0; count = 0 }

-- Two bytes, round the end of the buffer.
abbrev two_bytes : Ring
two_bytes = record { buf = set (set (replicate 32 0) 31 65) 0 66; head = 1; tail = 31; count = 2 }

abbrev port : Serial
port = record { tx = two_bytes; rx = two_bytes; tx_irq = false; sent = [] }

read_one : (read 1 port).0 ≡ 65 ∷ []
unfolding read fetch
read_one = refl

write-stream_example :
    Returns
      (write on_tx 1 port (67 ∷ 68 ∷ []))
      (λ t. TxValid t × (stream t ≡ 65 ∷ 66 ∷ 67 ∷ 68 ∷ []))
write-stream_example = write-stream on_tx on_tx-Drains 0 port (67 ∷ 68 ∷ []) (omega arith)

read-on_rx_all_example :
    let (got, s') = read 1 (on_rx_all port (67 ∷ 68 ∷ [])) in
    (got ≡ 65 ∷ []) × (waiting s' ≡ 66 ∷ 67 ∷ 68 ∷ []) × RxValid s'
read-on_rx_all_example = read-on_rx_all (67 ∷ 68 ∷ []) 1 port (omega arith)
