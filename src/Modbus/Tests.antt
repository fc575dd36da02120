-- ===== src/Modbus/Tests.antt =====
-- A slave with the address 17 and small tables, and the check value of the checksum.
use pic8_hal.Common.{
  ℕ, ◌+◌, ◌-◌, ◌<◌, ◌≡◌, refl, false, ◌&&◌, none, some, List, [], ◌∷◌, arith, ltb, leb,
  if◌then◌else◌, length,
}
use pic8_hal.Modbus.{SlaveMap, State, crc_bit, crc16_from, modbus_crc16, bit_get, be16}
use pic8_hal.Modbus.Requests.{
  handle_read_bits, copy_regs, handle_read_regs, echo, data_bit, handle_write_multiple_coils,
  respond,
}
use pic8_hal.Modbus.Slave.{crc_matches, seal, process_frame}
use pic8_hal.Modbus.Tables.{
  ReadRequest, WriteRequest, handle_read_bits_answers, handle_write_multiple_coils_stores,
}
use pic8_hal.Modbus.Answers.{Answers, process_frame-Answers}

abbrev tables : SlaveMap
tables = record {
  coils = some (0xa5 ∷ 0x03 ∷ []);
  num_coils = 10;
  discrete_inputs = none;
  num_discrete_inputs = 0;
  holding_regs = some (100 ∷ 200 ∷ 300 ∷ []);
  num_holding_regs = 3;
  input_regs = none;
  num_input_regs = 0;
}

abbrev slave : List ℕ → State
slave frame = record {
  frame = frame;
  frame_len = length frame;
  last_rx_tick = 0;
  slave_addr = 17;
  slave_map = tables;
  t3_5_ms = 5;
  dir_port = 0;
  dir_pin = 0;
  dir_configured = false;
}

-- The check value of CRC-16/MODBUS.
checksum_check : crc16_from 0xffff (49 ∷ 50 ∷ 51 ∷ 52 ∷ 53 ∷ 54 ∷ 55 ∷ 56 ∷ 57 ∷ []) ≡ 0x4b37
unfolding crc16_from crc_bit
checksum_check = refl

abbrev question : List ℕ
question = 17 ∷ 3 ∷ 0 ∷ 1 ∷ 0 ∷ 2 ∷ 151 ∷ 91 ∷ []

abbrev answer : List ℕ
answer = 17 ∷ 3 ∷ 4 ∷ 0 ∷ 200 ∷ 1 ∷ 44 ∷ 106 ∷ 65 ∷ []

question_answered : (process_frame (slave question)).1 ≡ some answer
unfolding process_frame seal crc_matches modbus_crc16 crc16_from crc_bit respond handle_read_regs
    copy_regs be16
question_answered = refl

process_frame-Answers_example : Answers (slave question) answer
process_frame-Answers_example = process_frame-Answers (slave question) answer question_answered

abbrev bits_wanted : State
bits_wanted = slave (17 ∷ 1 ∷ 0 ∷ 3 ∷ 0 ∷ 6 ∷ 0 ∷ 0 ∷ [])

bits_wanted-ReadRequest : ReadRequest bits_wanted 3 6
unfolding be16
bits_wanted-ReadRequest = record {
  eight = refl;
  from = refl;
  some_entries = omega arith;
  entries = refl;
}

handle_read_bits_answers_example :
    (out : List ℕ) × (handle_read_bits bits_wanted 1 (some (0xa5 ∷ 0x03 ∷ [])) 10
      ≡ 17 ∷ 1 ∷ 1 ∷ out)
    × (length out ≡ 1)
    × ((j : ℕ) → j < 6 → bit_get out j ≡ bit_get (0xa5 ∷ 0x03 ∷ []) (3 + j))
handle_read_bits_answers_example =
    handle_read_bits_answers bits_wanted 1 (0xa5 ∷ 0x03 ∷ []) 10 3 6 bits_wanted-ReadRequest
      (omega arith) (omega arith) (omega arith)

abbrev regs_wanted : State
regs_wanted = slave question

regs_wanted-ReadRequest : ReadRequest regs_wanted 1 2
unfolding be16
regs_wanted-ReadRequest = record {
  eight = refl;
  from = refl;
  some_entries = omega arith;
  entries = refl;
}

abbrev coils_given : State
coils_given = slave (17 ∷ 15 ∷ 0 ∷ 3 ∷ 0 ∷ 6 ∷ 1 ∷ 45 ∷ 26 ∷ 71 ∷ [])

coils_given-WriteRequest : WriteRequest coils_given 3 6 1
unfolding be16
coils_given-WriteRequest = record {
  filled = refl;
  from = refl;
  some_entries = omega arith;
  entries = refl;
  bytes = refl;
}

handle_write_multiple_coils_stores_example :
    (out : List ℕ) × (handle_write_multiple_coils coils_given
      ≡ (record tables { coils = some out }, echo coils_given 0x0f))
    × (length out ≡ 2)
    × ((j : ℕ)
        → bit_get out j ≡ (
            if leb 3 j && ltb j 9
            then data_bit coils_given.frame (j - 3)
            else bit_get (0xa5 ∷ 0x03 ∷ []) j))
handle_write_multiple_coils_stores_example =
    handle_write_multiple_coils_stores coils_given (0xa5 ∷ 0x03 ∷ []) 3 6 coils_given-WriteRequest
      refl (omega arith) (omega arith) (omega arith) (omega arith)

abbrev regs_given : State
regs_given = slave (17 ∷ 16 ∷ 0 ∷ 1 ∷ 0 ∷ 2 ∷ 4 ∷ 0 ∷ 7 ∷ 1 ∷ 0 ∷ 214 ∷ 242 ∷ [])

regs_given-WriteRequest : WriteRequest regs_given 1 2 4
unfolding be16
regs_given-WriteRequest = record {
  filled = refl;
  from = refl;
  some_entries = omega arith;
  entries = refl;
  bytes = refl;
}
