-- ===== src/Bus.antt =====
-- epic-bus/src/epic_bus.c: register reads and writes over the two tables of bus operations. An
-- operation acts on the state of the bus and its device; the default operations, which drive the
-- registers of the MSSP, are not modelled, and a device is whatever the operations do.
pub mod Log
mod Tests
use pic8_hal.Common.{
  ℕ, zero, suc, ◌*◌, bit_or, Bool, true, false, not, Option, none, some, List, [], ◌∷◌, ltb,
  if◌then◌else◌, length, replicate, u8,
}

-- epic_bus_i2c_ops_t
pub record I2cOps (D : Type 0) : Type 0 where
  pub start : D → D
  pub repeated_start : D → D
  pub stop : D → D
  pub write_byte : ℕ → D → Bool × D
  pub read_byte : Bool → D → ℕ × D

-- epic_bus_spi_ops_t
pub record SpiOps (D : Type 0) : Type 0 where
  pub select : D → D
  pub deselect : D → D
  pub exchange : ℕ → D → ℕ × D

module _ {D : Type 0} (o : I2cOps D) where
  -- The loop of `epic_bus_i2c_mem_write`: whether every byte was acknowledged.
  unfoldable pub write_data : List ℕ → D → Bool × D
  write_data [] d = (true, d)
  write_data (byte ∷ data_left) d =
      let (ack, d') = o.write_byte byte d in
      let rest = write_data data_left d' in if ack then rest else (false, d')

  -- `epic_bus_i2c_mem_write` of the list, whose length is `n`; `none` is the return value -1.
  unfoldable pub i2c_mem_write : ℕ → ℕ → List ℕ → D → Option ℕ × D
  i2c_mem_write dev reg bytes d =
      let (ack, d1) = o.write_byte (u8 (bit_or (dev * 2) 0)) (o.start d) in
      let (ack', d2) = o.write_byte reg d1 in
      let (all, d3) = write_data bytes d2 in
      if not ack
      then (none, o.stop d1)
      else if not ack'
      then (none, o.stop d2)
      else (if all then some (length bytes) else none, o.stop d3)

  -- The loop of `epic_bus_i2c_mem_read` for the last `left` bytes; all but the last are acknowledged.
  unfoldable pub read_data : ℕ → D → List ℕ × D
  read_data zero d = ([], d)
  read_data (suc left) d =
      let (byte, d') = o.read_byte (ltb 0 left) d in
      let (bytes, d'') = read_data left d' in (byte ∷ bytes, d'')

  -- `epic_bus_i2c_mem_read`: the bytes that it puts into the buffer, whose number it returns.
  unfoldable pub i2c_mem_read : ℕ → ℕ → ℕ → D → Option (List ℕ) × D
  i2c_mem_read dev reg n d =
      let (ack, d1) = o.write_byte (u8 (bit_or (dev * 2) 0)) (o.start d) in
      let (ack', d2) = o.write_byte reg d1 in
      let (ack'', d3) = o.write_byte (u8 (bit_or (dev * 2) 1)) (o.repeated_start d2) in
      let (bytes, d4) = read_data n d3 in
      if not ack
      then (none, o.stop d1)
      else if not ack'
      then (none, o.stop d2)
      else if not ack''
      then (none, o.stop d3)
      else (some bytes, o.stop d4)

module _ {D : Type 0} (o : SpiOps D) where
  unfoldable pub exchange_all : List ℕ → D → List ℕ × D
  exchange_all [] d = ([], d)
  exchange_all (byte ∷ bytes) d =
      let (got, d') = o.exchange byte d in
      let (more, d'') = exchange_all bytes d' in (got ∷ more, d'')

  unfoldable pub spi_mem_write : ℕ → List ℕ → D → ℕ × D
  spi_mem_write reg bytes d =
      let (ignored, d1) = o.exchange reg (o.select d) in
      let (answers, d2) = exchange_all bytes d1 in (length bytes, o.deselect d2)

  unfoldable pub spi_mem_read : ℕ → ℕ → D → List ℕ × D
  spi_mem_read reg n d =
      let (ignored, d1) = o.exchange reg (o.select d) in
      let (bytes, d2) = exchange_all (replicate n 0) d1 in (bytes, o.deselect d2)
