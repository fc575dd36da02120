-- ===== src/Bus/Log.antt =====
-- What stands on an I2C bus in a transaction, whatever the device answers.
use pic8_hal.Common.{
  ℕ, zero, suc, ◌+◌, ◌*◌, ◌<◌, bit_or, ◌≡◌, refl, sym, ap, inl, inr, Bool, true, false, none, some,
  List, [], ◌∷◌, ◌++◌, map, arith, ltb, if◌then◌else◌, Bool-cases, length, u8, bit_or-zero,
  bit_or_one,
}
use mathlib.Core.Option
use pic8_hal.Bus.{I2cOps, write_data, i2c_mem_write, read_data, i2c_mem_read}

pub data Item : Type 0 where
  started : Item
  restarted : Item
  stopped : Item
  sent : ℕ → Item
  got : Bool → Item

-- A bus that keeps a log. The device acknowledges and answers by what stood on the bus before.
abbrev pub logging : (List Item → Bool) → (List Item → ℕ) → I2cOps (List Item)
logging acks answers = record {
  start = λ log. log ++ started ∷ [];
  repeated_start = λ log. log ++ restarted ∷ [];
  stop = λ log. log ++ stopped ∷ [];
  write_byte = λ byte log. (acks (log ++ sent byte ∷ []), log ++ sent byte ∷ []);
  read_byte = λ ack log. (answers log, log ++ got ack ∷ []);
}

module _ (acks : List Item → Bool) where
  -- The log when items are put on the bus one after the other until the device does not acknowledge
  -- a byte, and whether it acknowledged all.
  abbrev pub until_nack : List Item → List Item → Bool × List Item
  until_nack log [] = (true, log)
  until_nack log (sent byte ∷ items) =
      let rest = until_nack (log ++ sent byte ∷ []) items in
      if acks (log ++ sent byte ∷ []) then rest else (false, log ++ sent byte ∷ [])
  until_nack log (started ∷ items) = until_nack (log ++ started ∷ []) items
  until_nack log (restarted ∷ items) = until_nack (log ++ restarted ∷ []) items
  until_nack log (stopped ∷ items) = until_nack (log ++ stopped ∷ []) items
  until_nack log (got ack ∷ items) = until_nack (log ++ got ack ∷ []) items

-- A master acknowledges every byte that it reads but the last.
abbrev pub reads : ℕ → List Item
reads zero = []
reads (suc zero) = got false ∷ []
reads (suc (suc n)) = got true ∷ reads (suc n)

module _ (acks : List Item → Bool) (answers : List Item → ℕ) where
  write_data-until_nack :
      (bytes : List ℕ) (log : List Item)
      → write_data (logging acks answers) bytes log ≡ until_nack acks log (map sent bytes)
  unfolding write_data
  write_data-until_nack [] log = refl
  write_data-until_nack (byte ∷ bytes) log =
      rw (write_data-until_nack bytes (log ++ sent byte ∷ [])) refl

  -- A write is the start condition, the address, the register and the data, cut off behind the
  -- first byte that is not acknowledged, and always the stop condition; it returns the number of
  -- bytes if all were acknowledged, and else -1.
  i2c_mem_write-log :
      (dev reg : ℕ) (bytes : List ℕ) (log : List Item)
      → dev < 128
      → let (all, log') =
          until_nack acks log (started ∷ sent (dev * 2) ∷ sent reg ∷ map sent bytes) in
        i2c_mem_write (logging acks answers) dev reg bytes log
        ≡ (if all then some (length bytes) else none, log' ++ stopped ∷ [])
  unfolding i2c_mem_write
  i2c_mem_write-log dev reg bytes log h =
      let address : u8 (bit_or (dev * 2) 0) ≡ dev * 2 = omega (arith, bit_or-zero (dev * 2)) in
      let loop =
        write_data-until_nack bytes
          (((log ++ started ∷ []) ++ sent (dev * 2) ∷ []) ++ sent reg ∷ []) in
      elim (Bool-cases (acks ((log ++ started ∷ []) ++ sent (dev * 2) ∷ []))) [
        | inr nack ↦ rw (address, nack) refl
        | inl ack ↦
            elim (Bool-cases
              (acks (((log ++ started ∷ []) ++ sent (dev * 2) ∷ []) ++ sent reg ∷ []))) [
                | inr nack ↦ rw (address, ack, nack) refl
                | inl ack' ↦ rw (address, ack, ack', loop) refl
              ]
      ]

  read_data-log :
      (n : ℕ) (log : List Item)
      → let (bytes, log') = read_data (logging acks answers) n log in
        (length bytes ≡ n) × ((true, log') ≡ until_nack acks log (reads n))
  unfolding read_data
  read_data-log zero log = (refl, refl)
  read_data-log (suc zero) log = (refl, refl)
  read_data-log (suc (suc n)) log =
      let (len, rest) = read_data-log (suc n) (log ++ got true ∷ []) in
      let more : ltb 0 (suc n) ≡ true = ground arith in rw more (ap suc len, rest)

  -- A read is the start condition, the address, the register, the repeated start, the address with
  -- the read bit, and the reads, all but the last of them acknowledged, cut off behind the first byte
  -- that the device does not acknowledge, and always the stop condition; the buffer has `n` bytes if
  -- all were acknowledged, and else the result is -1.
  pub i2c_mem_read-log :
      (dev reg n : ℕ) (log : List Item)
      → dev < 128
      → let (all, log') =
          until_nack acks log
            (started ∷ sent (dev * 2) ∷ sent reg ∷ restarted ∷ sent (dev * 2 + 1) ∷ reads n) in
        let (result, log'') = i2c_mem_read (logging acks answers) dev reg n log in
        (log'' ≡ log' ++ stopped ∷ []) × (Option.map length result ≡ (if all then some n else none))
  unfolding i2c_mem_read
  i2c_mem_read-log dev reg n log h =
      let address : u8 (bit_or (dev * 2) 0) ≡ dev * 2 = omega (arith, bit_or-zero (dev * 2)) in
      let address' : u8 (bit_or (dev * 2) 1) ≡ dev * 2 + 1 = omega (arith, bit_or_one (dev * 2)) in
      let log1 = (log ++ started ∷ []) ++ sent (dev * 2) ∷ [] in
      let log2 = log1 ++ sent reg ∷ [] in
      let log3 = (log2 ++ restarted ∷ []) ++ sent (dev * 2 + 1) ∷ [] in
      let (len, loop) = read_data-log n log3 in
      elim (Bool-cases (acks log1)) [
        | inr nack ↦ rw (address, nack) (refl, refl)
        | inl ack ↦ elim (Bool-cases (acks log2)) [
          | inr nack ↦ rw (address, ack, nack) (refl, refl)
          | inl ack' ↦ elim (Bool-cases (acks log3)) [
            | inr nack ↦ rw (address, address', ack, ack', nack) (refl, refl)
            | inl ack'' ↦ rw (address, address', ack, ack', ack'', sym loop) (refl, ap some len)
          ]
        ]
      ]
