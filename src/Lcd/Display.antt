-- ===== src/Lcd/Display.antt =====
-- The three switches of the display control, and what the display is told of them.
use pic8_hal.Common.{
  ℕ, ◌+◌, bit_and, bit_or, ◌≡◌, refl, ap, ◌∙◌, Bool, true, false, List, [], ◌∷◌, ◌++◌,
}
use pic8_hal.Lcd.{
  Call, send, delay_us, delay_ms, Config, Lcd, init, set_ctrl, display_on, cursor_on, cursor_blink,
}
use pic8_hal.Lcd.Sent.{bytes_sent}

pub data Switch : Type 0 where
  display cursor blink : Switch

-- The switches as independent Booleans.
pub record Switches : Type 0 where
  pub shown : Bool
  pub underlined : Bool
  pub blinking : Bool

abbrev pub turn : Switches → Switch → Bool → Switches
turn s display v = record s { shown = v }
turn s cursor v = record s { underlined = v }
turn s blink v = record s { blinking = v }

abbrev pub turn_all : Switches → List (Switch × Bool) → Switches
turn_all s [] = s
turn_all s ((w, v) ∷ rest) = turn_all (turn s w v) rest

abbrev pub bit : ℕ → Bool → ℕ
bit w true = w
bit w false = 0

abbrev pub encode : Switches → ℕ
encode s = bit 4 s.shown + bit 2 s.underlined + bit 1 s.blinking

-- A call of the operation for a switch, and calls in a row.
unfoldable pub operate : Lcd → Switch → Bool → Lcd × List Call
operate lcd display v = display_on lcd v
operate lcd cursor v = cursor_on lcd v
operate lcd blink v = cursor_blink lcd v

unfoldable pub operate_all : Lcd → List (Switch × Bool) → Lcd × List Call
operate_all lcd [] = (lcd, [])
operate_all lcd ((w, v) ∷ rest) =
    let (lcd', calls) = operate lcd w v in
    let (lcd'', later) = operate_all lcd' rest in (lcd'', calls ++ later)

-- What the commands sent in between say: each is 8 with the switches after its call.
abbrev pub told : Switches → List (Switch × Bool) → List (ℕ × ℕ)
told s [] = []
told s ((w, v) ∷ rest) = (0, 8 + encode (turn s w v)) ∷ told (turn s w v) rest

-- A fact of the eight states of the switches.
each_state :
    (P : Bool → Bool → Bool → Type 0)
    → P true true true
    → P true true false
    → P true false true
    → P true false false
    → P false true true
    → P false true false
    → P false false true
    → P false false false
    → (a b c : Bool) → P a b c
each_state P p1 p2 p3 p4 p5 p6 p7 p8 true true true = p1
each_state P p1 p2 p3 p4 p5 p6 p7 p8 true true false = p2
each_state P p1 p2 p3 p4 p5 p6 p7 p8 true false true = p3
each_state P p1 p2 p3 p4 p5 p6 p7 p8 true false false = p4
each_state P p1 p2 p3 p4 p5 p6 p7 p8 false true true = p5
each_state P p1 p2 p3 p4 p5 p6 p7 p8 false true false = p6
each_state P p1 p2 p3 p4 p5 p6 p7 p8 false false true = p7
each_state P p1 p2 p3 p4 p5 p6 p7 p8 false false false = p8

-- The bits that a call leaves, for each switch and level.
abbrev ctrl_after : Switch → Bool → ℕ → ℕ
ctrl_after display true c = bit_or c 0x04
ctrl_after display false c = bit_and c 0xfb
ctrl_after cursor true c = bit_or c 0x02
ctrl_after cursor false c = bit_and c 0xfd
ctrl_after blink true c = bit_or c 0x01
ctrl_after blink false c = bit_and c 0xfe

abbrev Agrees : Switch → Bool → Switches → Type 0
Agrees w v s =
    (ctrl_after w v (encode s) ≡ encode (turn s w v))
    × (bit_or 0x08 (encode (turn s w v)) ≡ 8 + encode (turn s w v))

-- The same by the parts of the state.
abbrev AgreesAt : Switch → Bool → Bool → Bool → Bool → Type 0
AgreesAt w v a b c = Agrees w v (record { shown = a; underlined = b; blinking = c })

each_agrees : (w : Switch) (v a b c : Bool) → AgreesAt w v a b c
each_agrees display true =
    each_state (AgreesAt display true) (refl, refl) (refl, refl) (refl, refl) (refl, refl)
      (refl, refl) (refl, refl) (refl, refl) (refl, refl)
each_agrees display false =
    each_state (AgreesAt display false) (refl, refl) (refl, refl) (refl, refl) (refl, refl)
      (refl, refl) (refl, refl) (refl, refl) (refl, refl)
each_agrees cursor true =
    each_state (AgreesAt cursor true) (refl, refl) (refl, refl) (refl, refl) (refl, refl)
      (refl, refl) (refl, refl) (refl, refl) (refl, refl)
each_agrees cursor false =
    each_state (AgreesAt cursor false) (refl, refl) (refl, refl) (refl, refl) (refl, refl)
      (refl, refl) (refl, refl) (refl, refl) (refl, refl)
each_agrees blink true =
    each_state (AgreesAt blink true) (refl, refl) (refl, refl) (refl, refl) (refl, refl)
      (refl, refl) (refl, refl) (refl, refl) (refl, refl)
each_agrees blink false =
    each_state (AgreesAt blink false) (refl, refl) (refl, refl) (refl, refl) (refl, refl)
      (refl, refl) (refl, refl) (refl, refl) (refl, refl)

bytes_sent-append : (xs ys : List Call) → bytes_sent (xs ++ ys) ≡ bytes_sent xs ++ bytes_sent ys
bytes_sent-append [] ys = refl
bytes_sent-append (send reg byte ∷ xs) ys = ap (λ l. (reg, byte) ∷ l) (bytes_sent-append xs ys)
bytes_sent-append (delay_us n ∷ xs) ys = bytes_sent-append xs ys
bytes_sent-append (delay_ms n ∷ xs) ys = bytes_sent-append xs ys

operate_lem :
    (s : Switches) (lcd : Lcd) (w : Switch) (v : Bool)
    → lcd.display_ctrl ≡ encode s
    → ((operate lcd w v).0.display_ctrl ≡ encode (turn s w v))
      × (bytes_sent (operate lcd w v).1 ≡ (0, 8 + encode (turn s w v)) ∷ [])
unfolding operate display_on cursor_on cursor_blink set_ctrl
operate_lem s lcd w v e =
    let all = each_agrees w v s.shown s.underlined s.blinking in
    let ctrl : ctrl_after w v lcd.display_ctrl ≡ encode (turn s w v) =
      ap (ctrl_after w v) e ∙ all.0 in
    by_switch w v ctrl (ap (bit_or 0x08) ctrl ∙ all.1)
  where
    by_switch :
        (w : Switch) (v : Bool) {c n : ℕ}
        → ctrl_after w v lcd.display_ctrl ≡ c
        → bit_or 0x08 (ctrl_after w v lcd.display_ctrl) ≡ n
        → ((operate lcd w v).0.display_ctrl ≡ c) × (bytes_sent (operate lcd w v).1 ≡ (0, n) ∷ [])
    by_switch display true p q = (p, ap (λ k. (0, k) ∷ []) q)
    by_switch display false p q = (p, ap (λ k. (0, k) ∷ []) q)
    by_switch cursor true p q = (p, ap (λ k. (0, k) ∷ []) q)
    by_switch cursor false p q = (p, ap (λ k. (0, k) ∷ []) q)
    by_switch blink true p q = (p, ap (λ k. (0, k) ∷ []) q)
    by_switch blink false p q = (p, ap (λ k. (0, k) ∷ []) q)

operate_all_lem :
    (s : Switches) (lcd : Lcd) (ws : List (Switch × Bool))
    → lcd.display_ctrl ≡ encode s
    → ((operate_all lcd ws).0.display_ctrl ≡ encode (turn_all s ws))
      × (bytes_sent (operate_all lcd ws).1 ≡ told s ws)
unfolding operate_all
operate_all_lem s lcd [] e = (e, refl)
operate_all_lem s lcd ((w, v) ∷ rest) e =
    let step = operate_lem s lcd w v e in
    let later = operate_all_lem (turn s w v) (operate lcd w v).0 rest step.0 in
    (
      later.0,
      bytes_sent-append (operate lcd w v).1 (operate_all (operate lcd w v).0 rest).1
          ∙ rw (step.1, later.1) refl,
    )

-- After epic_lcd_init and any calls of the three switches, the cached byte says how each switch was
-- last turned (at first the display is shown, without a cursor), and each call has told the display
-- the state of all three.
pub init-operate_all :
    (config : Config) (ws : List (Switch × Bool))
    → let start : Switches = record { shown = true; underlined = false; blinking = false } in
      let (lcd, calls) = operate_all (init config).0 ws in
      (lcd.display_ctrl ≡ encode (turn_all start ws)) × (bytes_sent calls ≡ told start ws)
init-operate_all config ws =
    operate_all_lem (record { shown = true; underlined = false; blinking = false }) (init config).0
      ws (unfold init in refl)
