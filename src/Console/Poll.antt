-- ===== src/Console/Poll.antt =====
-- `epic_console_poll` on the rings of epic-serial.
use pic8_hal.Common.{
  ℕ, zero, suc, ◌≤◌, ◌≡◌, refl, sym, ap, ◌∙◌, inl, inr, true, false, Option, some, List, [], ◌∷◌,
  ◌++◌, append-nil, append_assoc, arith, ltb, leb, Bool-cases, Option-cases, length, take, drop,
}
use mathlib.Core.Option.{none-ne-some, some-injective}
use pic8_hal.Serial
use pic8_hal.Serial.{Serial, ring_size, wait_space, write_byte, available}
use pic8_hal.Serial.Stream.{TxValid, stream, Drains, write-stream}
use pic8_hal.Serial.Receive.{RxValid, waiting, read-waiting}
use pic8_hal.Ring
use pic8_hal.Ring.Queue.{length-contents}
use pic8_hal.Console.{Console, Cmd, on_char, round, poll}
use pic8_hal.Console.Edit.{Editor, view, edit, IsValid, on_char-edit}

-- The editor at each of some characters in turn, and all that the terminal shows.
abbrev pub edit_all : {C : Type 0} → List (Cmd C) → Editor C → List ℕ → Editor C × List ℕ
edit_all table e [] = (e, [])
edit_all table e (ch ∷ chars) =
    let (e', out) = edit table e ch in
    let (e'', more) = edit_all table e' chars in (e'', out ++ more)

-- A dispatch that receives nothing.
abbrev pub KeepsRx : (Serial → Serial) → Type 0
KeepsRx dispatch = (s : Serial) → (dispatch s).rx ≡ s.rx

-- `out` is a console and a port, and `P` holds of them.
abbrev pub Ends :
    {C : Type 0} → Option (Console C × Serial) → (Console C → Serial → Type 0) → Type 0
Ends {C = C} out P = (con : Console C) × (s : Serial) × (out ≡ some (con, s)) × P con s

module _ (dispatch : Serial → Serial) (drains : Drains dispatch) (keeps : KeepsRx dispatch) where
  wait_space-rx : (fuel : ℕ) (s t : Serial) → wait_space dispatch fuel s ≡ some t → t.rx ≡ s.rx
  unfolding wait_space
  wait_space-rx zero s t e = elim (Bool-cases (leb 32 s.tx.count)) [
    | inl full ↦ absurd (none-ne-some t (rw full at e))
    | inr space ↦ ap (λ k. k.rx) (sym (some-injective s t (rw space at e)))
  ]
  wait_space-rx (suc fuel) s t e = elim (Bool-cases (leb 32 s.tx.count)) [
    | inl full ↦ wait_space-rx fuel (dispatch s) t (rw full at e) ∙ keeps s
    | inr space ↦ ap (λ k. k.rx) (sym (some-injective s t (rw space at e)))
  ]

  write-rx :
      (bytes : List ℕ) (fuel : ℕ) (s t : Serial)
      → Serial.write dispatch fuel s bytes ≡ some t
      → t.rx ≡ s.rx
  unfolding Serial.write write_byte
  write-rx [] fuel s t e = ap (λ k. k.rx) (sym (some-injective s t e))
  write-rx (byte ∷ bytes) fuel s t e = elim (Option-cases (wait_space dispatch fuel s)) [
    | inl none_left ↦ absurd (none-ne-some t (rw (none_left, Serial.write, write_byte) at e))
    | inr (u, found) ↦
        let sent : Serial = record u { tx = Ring.store ring_size u.tx byte; tx_irq = true } in
        write-rx bytes fuel sent t (rw (found, Serial.write, write_byte) at e)
        ∙ wait_space-rx fuel s u found
  ]

  module _ {C : Type 0} where
    -- One round: the character acts on the console, and what it shows is queued.
    round-Returns :
        (fuel : ℕ) (con : Console C) (s : Serial) (ch : ℕ)
        → TxValid s
        → (t : Serial) × (round dispatch (suc fuel) con s ch ≡ some ((on_char con ch).0, t))
          × (t.rx ≡ s.rx)
          × TxValid t
          × (stream t ≡ stream s ++ (on_char con ch).1)
    unfolding round
    round-Returns fuel con s ch tx =
        let out = (on_char con ch).1 in
        let (t, e, (v, w)) = write-stream dispatch drains fuel s out tx in
        (t, rw (e, round) refl, write-rx out (suc fuel) s t e, v, w)

    edit_all-on_char :
        (con : Console C) (ch : ℕ) (chars : List ℕ)
        → IsValid con
        → let (con', out) = on_char con ch in
          let (e, more) = edit_all con'.table (view con') chars in
          edit_all con.table (view con) (ch ∷ chars) ≡ (e, out ++ more)
    edit_all-on_char con ch chars ok =
        let (step, v, table) = on_char-edit con ok ch in rw (sym step, table) refl

  read_one :
      (s : Serial) (ch : ℕ) (chars : List ℕ)
      → RxValid s
      → waiting s ≡ ch ∷ chars
      → let (got, s') = Serial.read 1 s in
        (got ≡ ch ∷ [])
        × (waiting s' ≡ chars)
        × RxValid s'
        × (s'.tx ≡ s.tx)
        × (stream s' ≡ stream s)
  unfolding Serial.read
  read_one s ch chars rx w =
      let (got, left, rx', n) = read-waiting 1 s rx in
      let some_left : ltb 0 s.rx.count ≡ true =
        ground (arith, sym (length-contents 32 s.rx) ∙ ap length w) in
      (got ∙ ap (take 1) w, left ∙ ap (drop 1) w, rx', rw some_left refl, rw some_left refl)

  module _ {C : Type 0} where
    -- Where the dispatch drains the transmitter and receives nothing, and there is fuel for a round per
    -- waiting character, `epic_console_poll` returns; it has read every character, and the editor and
    -- the terminal are as after these characters in turn.
    pub poll-edit :
        (chars : List ℕ) (rounds fuel : ℕ) (con : Console C) (s : Serial)
        → IsValid con
        → TxValid s
        → RxValid s
        → waiting s ≡ chars
        → length chars ≤ rounds
        → let (e, shown) = edit_all con.table (view con) chars in
          Ends (poll dispatch rounds (suc fuel) con s) (λ con' s'.
            (view con' ≡ e)
            × (stream s' ≡ stream s ++ shown)
            × (waiting s' ≡ [])
            × IsValid con'
            × TxValid s'
            × RxValid s')
    unfolding poll available
    poll-edit [] rounds fuel con s ok tx rx w enough =
        let idle : ltb 0 s.rx.count ≡ false =
          ground (arith, sym (length-contents 32 s.rx) ∙ ap length w) in
        (con, s, at_rest rounds idle, (refl, sym (append-nil (stream s)), w, ok, tx, rx))
      where
        at_rest :
            (k : ℕ) → ltb 0 s.rx.count ≡ false → poll dispatch k (suc fuel) con s ≡ some (con, s)
        at_rest zero idle = rw (idle, poll) refl
        at_rest (suc k) idle = rw (idle, poll) refl
    poll-edit (ch ∷ chars) zero fuel con s ok tx rx w enough = absurd (omega (arith, enough))
    poll-edit (ch ∷ chars) (suc rounds) fuel con s ok tx rx w enough =
        let more : ltb 0 s.rx.count ≡ true =
          ground (arith, sym (length-contents 32 s.rx) ∙ ap length w) in
        let s' = (Serial.read 1 s).1 in
        let (got, left, rx', same_tx, same) = read_one s ch chars rx w in
        let tx' : TxValid s' = rw same_tx tx in
        let (t, e, same_rx, tx'', shown) = round-Returns fuel con s' ch tx' in
        let (step, ok', table) = on_char-edit con ok ch in
        let rx'' : RxValid t = rw same_rx rx' in
        let left' : waiting t ≡ chars = rw same_rx left in
        let (con'', u, ends, (v, out, w'', rest, tx0, rx0)) =
          poll-edit chars rounds fuel ((on_char con ch).0) t ok' tx'' rx'' left'
            (omega (arith, enough)) in
        let now = (on_char con ch).1 in
        let later = (edit_all (on_char con ch).0.table (view (on_char con ch).0) chars).1 in
        let all = edit_all-on_char con ch chars ok in
        (
          con'',
          u,
          rw (more, got, e, poll) ends,
          (
            v ∙ ap (λ r. r.0) (sym all),
            out
                ∙ ap (λ l. l ++ later) (shown ∙ ap (λ l. l ++ now) same)
                ∙ append_assoc (stream s) now later
                ∙ ap (λ r. stream s ++ r.1) (sym all),
            w'',
            rest,
            tx0,
            rx0,
          ),
        )
