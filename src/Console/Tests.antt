-- ===== src/Console/Tests.antt =====
-- Runs of the console, and its theorems at concrete states.
use pic8_hal.Common.{
  ℕ, ◌+◌, ◌≡◌, refl, inl, inr, false, none, some, List, [], ◌∷◌, ◌++◌, arith, ltb, Bool-cases,
  length, replicate,
}
use pic8_hal.Ring.{Ring}
use pic8_hal.Serial.{Serial, on_tx}
use pic8_hal.Serial.Stream.{stream, TxValid, on_tx-Drains}
use pic8_hal.Serial.Receive.{waiting, RxValid}
use pic8_hal.Console.{Console, Cmd, poll, tokenize}
use pic8_hal.Console.Edit.{view, IsValid}
use pic8_hal.Console.Words.{Spaced, spell, tokenize-spell}
use pic8_hal.Console.Poll.{edit_all, KeepsRx, Ends, poll-edit}

-- A command `go` that counts its arguments.
abbrev go : Cmd ℕ
go = record { name = 103 ∷ 111 ∷ []; help = none; handler = some (λ argv n. n + length argv) }

abbrev prompt : Console ℕ
prompt = record {
  table = go ∷ [];
  ctx = 0;
  line = replicate 32 0;
  line_len = 0;
  last_was_cr = false;
}

abbrev no_bytes : Ring
no_bytes = record { buf = replicate 32 0; head = 0; tail = 0; count = 0 }

-- The line `gp<backspace>o 1`, and CR LF.
abbrev typing : List ℕ
typing = 103 ∷ 112 ∷ 8 ∷ 111 ∷ 32 ∷ 49 ∷ 13 ∷ 10 ∷ []

abbrev port : Serial
port = record {
  tx = no_bytes;
  rx = record { buf = typing ++ replicate 24 0; head = 8; tail = 0; count = 8 };
  tx_irq = false;
  sent = [];
}

tx-IsValid : TxValid port
tx-IsValid = record { storage = refl; tail_in = omega arith; fits = omega arith; head_at = refl }

rx-IsValid : RxValid port
rx-IsValid = record { storage = refl; tail_in = omega arith; fits = omega arith; head_at = refl }

prompt-IsValid : IsValid prompt
prompt-IsValid = record { storage = refl; room = omega arith }

on_tx-KeepsRx : KeepsRx on_tx
unfolding on_tx
on_tx-KeepsRx s = elim (Bool-cases (ltb 0 s.tx.count)) [ inl e ↦ rw e refl | inr e ↦ rw e refl ]

poll-edit_example :
    let (e, shown) = edit_all prompt.table (view prompt) typing in
    Ends (poll on_tx 8 1 prompt port) (λ con' s'.
      (view con' ≡ e)
      × (stream s' ≡ stream port ++ shown)
      × (waiting s' ≡ [])
      × IsValid con'
      × TxValid s'
      × RxValid s')
poll-edit_example =
    poll-edit on_tx on_tx-Drains on_tx-KeepsRx typing 8 0 prompt port prompt-IsValid tx-IsValid
      rx-IsValid refl (omega arith)

abbrev two_words : List Spaced
two_words =
    (record { gap = 9 ∷ []; first = 103; others = 111 ∷ [] })
    ∷ (record { gap = 32 ∷ 32 ∷ []; first = 49; others = [] })
    ∷ []

tokenize-spell_example : tokenize (spell two_words (32 ∷ [])) ≡ (103 ∷ 111 ∷ []) ∷ (49 ∷ []) ∷ []
tokenize-spell_example =
    tokenize-spell two_words (32 ∷ [])
      ((refl, tt), refl, (refl, tt), refl, ((refl, (refl, tt)), refl, tt, refl, (refl, tt)))
