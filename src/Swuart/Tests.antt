-- ===== src/Swuart/Tests.antt =====
-- Runs of a channel, and its theorems at concrete states.
use pic8_hal.Common.{
  ℕ, ◌*◌, ◌≡◌, refl, Bool, true, false, Option, none, some, List, [], ◌∷◌, ◌++◌, arith, take,
  replicate,
}
use pic8_hal.Ring.{Ring}
use pic8_hal.Ring.Queue.{IsValid}
use pic8_hal.Swuart.{
  Ccp, Handle, capture_falling, compare_clear, compute_cycles_per_bit, fill, mode_off, take_byte,
  tx_idle, write,
}
use pic8_hal.Swuart.Transmit.{matches, Sends, frame, frames, started, armed}
use pic8_hal.Swuart.Send.{write-frames, write-late}
use pic8_hal.Swuart.Receive.{receive, middles}
use pic8_hal.Swuart.Delivery.{Listens, receive-waiting, waiting}
use pic8_hal.Swuart.Loopback.{listen, listen-write}
use pic8_hal.Swuart.Registry.{
  Board, write_on, fresh, set_up, find_slot, slot_a_pins, slot_b_pins, init,
}
use pic8_hal.Swuart.Slots.{Consistent, Reaches, by_init, at_start, Reaches-Consistent}

abbrev no_bytes : Ring
no_bytes = record { buf = replicate 8 0; head = 5; tail = 5; count = 0 }

abbrev silent : Handle
silent = record {
  tx_state = tx_idle;
  tx_shift = 0;
  tx_bit_index = 8;
  tx_deadline = 0;
  tx = no_bytes;
  rx_state = 0;
  rx_shift = 0;
  rx_bit_index = 0;
  rx_deadline = 0;
  rx = no_bytes;
  error_count = 65535;
}

abbrev off : Ccp
off = record { compare = 0; mode = mode_off }

abbrev capturing : Ccp
capturing = record { compare = 0; mode = capture_falling }

-- 9600 baud from 20 MHz.
bit_of_9600 : compute_cycles_per_bit 20000000 9600 ≡ 521
unfolding compute_cycles_per_bit
bit_of_9600 = refl

no_bytes-IsValid : IsValid 8 no_bytes
no_bytes-IsValid = record {
  storage = refl;
  tail_in = omega arith;
  fits = omega arith;
  head_at = refl;
}

silent-Listens : Listens silent capturing
silent-Listens = record { state = refl; mode = refl; valid = no_bytes-IsValid }

abbrev letters : List ℕ
letters = 66 ∷ 67 ∷ []

write-frames_example :
    ((write 65500 silent off (65 ∷ letters)).0 ≡ 3)
    × Sends 521
        (10 * (write 65500 silent off (65 ∷ letters)).0)
        (write 65500 silent off (65 ∷ letters)).1
        (write 65500 silent off (65 ∷ letters)).2
        (frames 521 84 (65 ∷ letters))
write-frames_example = write-frames 521 65500 silent off 65 letters no_bytes-IsValid refl refl

write-late_example :
    let (wire, h', unit') = matches 521 9 (started 521 silent 84 65) (armed 521 84) in
    let (n, h'', unit'') = write 4500 h' unit' (66 ∷ []) in
    (wire ≡ take 9 (frame 521 84 65)) × Sends 521 10 h'' unit'' (frame 521 4620 66)
write-late_example = write-late 521 4500 silent 84 65 66 no_bytes-IsValid refl

abbrev bits_of_65 : List Bool
bits_of_65 = true ∷ false ∷ false ∷ false ∷ false ∷ false ∷ true ∷ false ∷ []

receive-waiting_example :
    let (times, h', unit') = receive 521 84 (false ∷ bits_of_65 ++ false ∷ []) silent capturing in
    (times ≡ middles 521 84 0 10) × Listens h' unit' × (waiting h' ≡ []) × (h'.error_count ≡ 0)
receive-waiting_example =
    receive-waiting 521 84 silent capturing silent-Listens bits_of_65 false refl

listen-write_example :
    let (n, sender', unit') = write 65500 silent off (65 ∷ letters) in
    let (wire, sender'', unit'') = matches 521 (10 * n) sender' unit' in
    let (receiver', ear') = listen 521 n wire silent capturing in
    (n ≡ 3)
    × Listens receiver' ear'
    × (waiting receiver' ≡ 65 ∷ letters)
    × (receiver'.error_count ≡ 65535)
listen-write_example =
    listen-write 521 (omega arith) (omega arith) 65500 silent off silent capturing 65 letters
      no_bytes-IsValid refl refl silent-Listens (omega arith, (omega arith, (omega arith, tt)))
      (omega arith)

abbrev bare : Board
bare = record {
  handles = λ h. silent;
  pins = λ h. slot_a_pins;
  chan_a = none;
  chan_b = none;
  cycles_per_bit = 0;
  units = λ k. off;
  timer_on = false;
  gpio = [];
}

abbrev or_bare : Option Board → Board
or_bare none = bare
or_bare (some board) = board

abbrev both : Board
both =
    or_bare
      (init true (or_bare (init true bare 7 slot_a_pins 20000000 9600)) 8 slot_b_pins 20000000 9600)

both-Reaches : Reaches true bare both
unfolding init set_up find_slot
both-Reaches =
    by_init (or_bare (init true bare 7 slot_a_pins 20000000 9600)) both 8 slot_b_pins 20000000 9600
      (by_init bare (or_bare (init true bare 7 slot_a_pins 20000000 9600)) 7 slot_a_pins 20000000
        9600 at_start refl)
      refl

bare-Consistent : Consistent true bare
bare-Consistent = record {
  timer = refl;
  second = λ e. refl;
  off_a = λ e. (refl, refl);
  off_b = λ e. (refl, refl);
}

Reaches-Consistent_example : Consistent true both
Reaches-Consistent_example = Reaches-Consistent true bare both bare-Consistent both-Reaches

-- A byte written on the second channel arms the unit of that channel, and no other.
abbrev written : Board
written = (write_on true 100 both 8 (65 ∷ [])).1

written_units :
    ((written.units 4).compare ≡ 220)
    × ((written.units 4).mode ≡ compare_clear)
    × (written.units 2 ≡ both.units 2)
unfolding write_on write fill take_byte init set_up find_slot fresh
written_units = (refl, refl, refl)
