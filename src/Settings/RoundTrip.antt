-- ===== src/Settings/RoundTrip.antt =====
-- epic-settings in the host build for the PIC16F87XA: what is saved is loaded again.
use pic8_hal.Common.{
  ℕ, zero, suc, ◌+◌, ◌*◌, ◌/◌, ◌^◌, ◌≤◌, ◌<◌, bit_and, ◌≡◌, refl, ap, ◌∙◌, ◌⊎◌, inl, inr, true,
  some, List, [], ◌∷◌, arith, ◌==◌, if◌then◌else◌, Bool-cases, length, get_or, u8, bit_and_255, All,
  IsByte,
}
use pic8_hal.Pic16.{Sfr}
use pic8_hal.Settings.{crc16, write_bytes, save, load}
use pic8_hal.Settings.Host.{
  Device, host, NoError, sim_complete, clear_it_flag, write_byte-started, sim_complete_done,
  clear_it_flag-NoError, wait_complete-done,
}
use pic8_hal.Settings.Load.{crc16_from-lt, cells, load-cells}

module _ (tick : Device → Device) (fuel : ℕ) where
  -- The device after one byte is written.
  abbrev after : Sfr → (ℕ → ℕ) → ℕ → ℕ → Device
  after s memory addr byte = clear_it_flag (sim_complete (s, memory) addr byte)

  after-memory :
      (s : Sfr) (memory : ℕ → ℕ) (addr byte x : ℕ)
      → (after s memory addr byte).1 x ≡ (if x == addr then byte else memory x)
  unfolding clear_it_flag sim_complete
  after-memory s memory addr byte x = refl

  -- One turn of the loop of `settings_write_bytes`.
  write_bytes-cons :
      (start byte : ℕ) (bytes : List ℕ) (s : Sfr) (memory : ℕ → ℕ)
      → start < 256
      → NoError (s, memory)
      → (s' : Sfr) × NoError (after s' memory start byte)
        × (write_bytes (host tick) fuel start (byte ∷ bytes) (s, memory)
            ≡ write_bytes (host tick) fuel (start + 1) bytes (after s' memory start byte))
  unfolding write_bytes
  write_bytes-cons start byte bytes s memory h e =
      let same : u8 start ≡ start = omega (arith, h) in
      let (s', accepts, at, last) = write_byte-started s memory start byte e in
      let done =
        wait_complete-done tick fuel (sim_complete (s', memory) start byte)
          (sim_complete_done s' memory start byte h at) in
      (
        s',
        clear_it_flag-NoError s' memory start byte last,
        rw (write_bytes, same, accepts, same, done) refl,
      )

  -- The device after the bytes have been written from `start` on.
  record Stored (d : Device) (start : ℕ) (bytes : List ℕ) : Type 0 where
    out : Device
    returns : write_bytes (host tick) fuel start bytes d ≡ some (out, true)
    ready : NoError out
    inside : cells out.1 start (length bytes) ≡ bytes
    outside : (x : ℕ) → (x < start) ⊎ (start + length bytes ≤ x) → out.1 x ≡ d.1 x
    small : ((x : ℕ) → d.1 x < 256) → (x : ℕ) → out.1 x < 256

  write_bytes-Stored :
      (bytes : List ℕ) (start : ℕ) (d : Device)
      → NoError d
      → All IsByte bytes
      → start + length bytes ≤ 256
      → Stored d start bytes
  write_bytes-Stored [] start d r a h = record {
    out = d;
    returns = unfold write_bytes in refl;
    ready = r;
    inside = refl;
    outside = λ x o. refl;
    small = λ f. f;
  }
  write_bytes-Stored (b ∷ bytes) start d r a h =
      let (s', ready, turn) = write_bytes-cons start b bytes d.0 d.1 (omega (arith, h)) r in
      let rest =
        write_bytes-Stored bytes (start + 1) (after s' d.1 start b) ready a.1 (omega (arith, h)) in
      let at : u8 start ≡ start = omega (arith, h) in
      let first : rest.out.1 start ≡ b =
        rest.outside start (inl (omega arith)) ∙ after-memory s' d.1 start b start ∙ ground arith in
      record {
        out = rest.out;
        returns = turn ∙ rest.returns;
        ready = rest.ready;
        inside = rw (at, first, rest.inside) refl;
        outside = λ x o.
            rest.outside x (omega (arith, o)) ∙ after-memory s' d.1 start b x ∙ ground (arith, o);
        small = λ f. rest.small (λ x. after-small s' d.1 start b f (a.0) x);
      }
    where
      after-small :
          (s : Sfr) (memory : ℕ → ℕ) (addr byte : ℕ)
          → ((x : ℕ) → memory x < 256)
          → byte < 256
          → (x : ℕ) → (after s memory addr byte).1 x < 256
      after-small s memory addr byte f h x =
          rw (after-memory s memory addr byte x)
            (elim (Bool-cases (x == addr)) [ inl e ↦ rw e h | inr e ↦ rw e (f x) ])

  cells-same :
      (m m' : ℕ → ℕ) (addr size : ℕ)
      → addr + size ≤ 256
      → ((x : ℕ) → x < addr + size → m x ≡ m' x)
      → cells m addr size ≡ cells m' addr size
  cells-same m m' addr zero h f = refl
  cells-same m m' addr (suc size) h f =
      let head : m (u8 addr) ≡ m' (u8 addr) = f (u8 addr) (omega (arith, h)) in
      rw
        (head, cells-same m m' (addr + 1) size (omega (arith, h)) (λ x lt. f x (omega (arith, lt))))
        refl

  save-written :
      (eeprom_addr : ℕ) (bytes : List ℕ) (d : Device)
      → (blob : Stored d eeprom_addr bytes)
      → (trailer : Stored blob.out
          (eeprom_addr + length bytes)
          (u8 (crc16 bytes / 256) ∷ bit_and (crc16 bytes) 0xff ∷ []))
      → u8 (eeprom_addr + length bytes) ≡ eeprom_addr + length bytes
      → save (host tick) fuel eeprom_addr bytes d ≡ some (trailer.out, true)
  unfolding save
  save-written eeprom_addr bytes d blob trailer same = rw (blob.returns, same, save) trailer.returns

  -- In the host build, where EECON1 has no write error, a blob of bytes that fits below address 256 with its two
  -- bytes of CRC is saved with the result true over any memory of bytes, and then loads as it was saved.
  pub load-save :
      (eeprom_addr : ℕ) (bytes : List ℕ) (d : Device)
      → NoError d
      → ((a : ℕ) → d.1 a < 256)
      → All IsByte bytes
      → eeprom_addr + length bytes + 2 ≤ 256
      → (d' : Device) × (save (host tick) fuel eeprom_addr bytes d ≡ some (d', true))
        × ((load (host tick) eeprom_addr (length bytes) d').0 ≡ some bytes)
        × NoError d'
  load-save eeprom_addr bytes d r f a h =
      let crc = crc16 bytes in
      let end = eeprom_addr + length bytes in
      let lt : crc < 2 ^ 16 = crc16_from-lt 0xffff bytes (omega arith) in
      let low : bit_and crc 0xff < 256 = omega (arith, bit_and_255 crc) in
      let blob = write_bytes-Stored bytes eeprom_addr d r a (omega (arith, h)) in
      let trailer =
        write_bytes-Stored (u8 (crc / 256) ∷ bit_and crc 0xff ∷ []) end blob.out blob.ready
          (omega arith, (low, tt)) (omega (arith, h)) in
      let memory = trailer.out.1 in
      let same : u8 end ≡ end = omega (arith, h) in
      let kept : cells memory eeprom_addr (length bytes) ≡ bytes =
        cells-same memory blob.out.1 eeprom_addr (length bytes) (omega (arith, h))
          (λ x lt. trailer.outside x (inl lt))
        ∙ blob.inside in
      let (loaded, unchanged) =
        load-cells tick eeprom_addr (length bytes) trailer.out (trailer.small (blob.small f)) in
      let high = ap (λ l. get_or l 0 0) trailer.inside in
      let low' = ap (λ l. get_or l 1 0) trailer.inside in
      let joined : u8 (crc / 256) * 256 + bit_and crc 0xff ≡ crc =
        omega (arith, lt, bit_and_255 crc) in
      let equal : (crc == crc) ≡ true = ground arith in
      (
        trailer.out,
        save-written eeprom_addr bytes d blob trailer same,
        loaded ∙ rw (high, low', kept, joined, equal) refl,
        trailer.ready,
      )
