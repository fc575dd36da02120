-- ===== src/Debounce.antt =====
-- epic-debounce/src/debounce.c: a poll-driven debouncer for one input. The callback's reading and
-- the tick of a poll come in as a sample; one call reads each at most once.
mod Held
mod Tests
use pic8_hal.Common.{ℕ, bit_and, bit_or, Bool, true, false, not, ◌&&◌, leb, ◌==◌, if◌then◌else◌}
use pic8_hal.Tick.{elapsed}

-- `debounce_event_t`
pub data Event : Type 0 where
  none pressed released : Event

abbrev pub flag_stable : ℕ
flag_stable = 0x01

abbrev pub flag_candidate : ℕ
flag_candidate = 0x02

-- `debounce_t`, less the callback and its context.
pub record Debounce : Type 0 where
  pub debounce_ms : ℕ
  pub candidate_since : ℕ
  pub flags : ℕ

-- What the read callback and `epic_tick_get` return during one call.
pub record Sample : Type 0 where
  pub raw : Bool
  pub now : ℕ

unfoldable pub get_candidate : ℕ → Bool
get_candidate flags = not (bit_and flags flag_candidate == 0)

unfoldable pub get_stable : ℕ → Bool
get_stable flags = not (bit_and flags flag_stable == 0)

unfoldable pub set_candidate : ℕ → Bool → ℕ
set_candidate flags val = if val then bit_or flags flag_candidate else bit_and flags 0xfd

unfoldable pub set_stable : ℕ → Bool → ℕ
set_stable flags val = if val then bit_or flags flag_stable else bit_and flags 0xfe

-- `!=` on `bool`
abbrev pub differ : Bool → Bool → Bool
differ true b = not b
differ false b = b

unfoldable pub init : ℕ → Sample → Debounce
init debounce_ms s = record {
  debounce_ms = debounce_ms;
  candidate_since = s.now;
  flags = set_candidate (set_stable 0 s.raw) s.raw;
}

unfoldable pub poll : Debounce → Sample → Debounce × Event
poll db s =
    if differ s.raw (get_candidate db.flags)
    then (record db { flags = set_candidate db.flags s.raw; candidate_since = s.now }, none)
    else if differ s.raw (get_stable db.flags)
        && leb db.debounce_ms (elapsed s.now db.candidate_since)
    then (record db { flags = set_stable db.flags s.raw }, if s.raw then pressed else released)
    else (db, none)

unfoldable pub is_active : Debounce → Bool
is_active db = get_stable db.flags
