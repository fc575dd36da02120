-- ===== src/Lcd/Strobes.antt =====
-- The parallel transports against a display that reads its data lines when E falls.
use pic8_hal.Common.{
  ℕ, ◌+◌, ◌/◌, ◌%◌, ◌<◌, bit_and, ◌≡◌, refl, ap, ◌∙◌, Bool, true, false, not, ◌&&◌, List, [], ◌∷◌,
  arith, ◌==◌, if◌then◌else◌, ==_iff, u8,
}
use pic8_hal.Common.Digits.{every_lem}
use pic8_hal.Lcd.Transport.{
  Pin, rs, e, db0, db1, db2, db3, db4, db5, db6, db7, level, gpio4_nibble, gpio4_send, gpio8_send,
}

-- The levels of the lines.
pub record Lines : Type 0 where
  pub at_rs : Bool
  pub at_e : Bool
  pub at_db0 : Bool
  pub at_db1 : Bool
  pub at_db2 : Bool
  pub at_db3 : Bool
  pub at_db4 : Bool
  pub at_db5 : Bool
  pub at_db6 : Bool
  pub at_db7 : Bool

abbrev pub drive : Pin → Bool → Lines → Lines
drive rs v l = record l { at_rs = v }
drive e v l = record l { at_e = v }
drive db0 v l = record l { at_db0 = v }
drive db1 v l = record l { at_db1 = v }
drive db2 v l = record l { at_db2 = v }
drive db3 v l = record l { at_db3 = v }
drive db4 v l = record l { at_db4 = v }
drive db5 v l = record l { at_db5 = v }
drive db6 v l = record l { at_db6 = v }
drive db7 v l = record l { at_db7 = v }

abbrev pub weight : ℕ → Bool → ℕ
weight w true = w
weight w false = 0

-- The number on the four upper data lines, and that on all eight.
abbrev pub upper : Lines → ℕ
upper l = weight 1 l.at_db4 + weight 2 l.at_db5 + weight 4 l.at_db6 + weight 8 l.at_db7

abbrev pub whole : Lines → ℕ
whole l =
    weight 1 l.at_db0
    + weight 2 l.at_db1
    + weight 4 l.at_db2
    + weight 8 l.at_db3
    + weight 16 l.at_db4
    + weight 32 l.at_db5
    + weight 64 l.at_db6
    + weight 128 l.at_db7

abbrev pub falls : Pin → Bool → Lines → Bool
falls e v l = not v && l.at_e
falls _ v l = false

-- What a display reads with `number` at the falling edges of E: the level of RS, and the number.
abbrev pub strobes : (Lines → ℕ) → Lines → List (Pin × Bool) → List (Bool × ℕ)
strobes number l [] = []
strobes number l ((p, v) ∷ writes) =
    let rest = strobes number (drive p v l) writes in
    if falls p v l then (l.at_rs, number l) ∷ rest else rest

abbrev four : ℕ → ℕ
four n = weight 1 (level n 1) + weight 2 (level n 2) + weight 4 (level n 4) + weight 8 (level n 8)

abbrev eight : ℕ → ℕ
eight n =
    weight 1 (level n 1)
    + weight 2 (level n 2)
    + weight 4 (level n 4)
    + weight 8 (level n 8)
    + weight 16 (level n 16)
    + weight 32 (level n 32)
    + weight 64 (level n 64)
    + weight 128 (level n 128)

four_lem : (n : ℕ) → n < 16 → four n ≡ n
four_lem n h = (==_iff (four n) n).0 (every_lem 16 n (λ k. four k == k) refl h)

eight_lem : (n : ℕ) → n < 256 → eight n ≡ n
eight_lem n h = (==_iff (eight n) n).0 (every_lem 256 n (λ k. eight k == k) refl h)

low_nibble : (n : ℕ) → n < 256 → u8 (bit_and n 15) ≡ n % 16
low_nibble n h =
    (==_iff (u8 (bit_and n 15)) (n % 16)).0
      (every_lem 256 n (λ k. u8 (bit_and k 15) == k % 16) refl h)

read_one : (r : Bool) {a c : ℕ} → a ≡ c → ◌≡◌ {A = List (Bool × ℕ)} ((r, a) ∷ []) ((r, c) ∷ [])
read_one r p = ap (λ n. (r, n) ∷ []) p

read_two :
    (r : Bool) {a b c d : ℕ}
    → a ≡ c
    → b ≡ d
    → ◌≡◌ {A = List (Bool × ℕ)} ((r, a) ∷ (r, b) ∷ []) ((r, c) ∷ (r, d) ∷ [])
read_two r p q = rw (p, q) refl

-- A display that takes four bits at a time reads the two halves of the byte, the upper one first,
-- both with the level of RS that was asked for.
pub gpio4_send-strobes :
    (l : Lines) (reg byte : ℕ)
    → byte < 256
    → strobes upper l (gpio4_send reg byte)
      ≡ (not (reg == 0), byte / 16) ∷ (not (reg == 0), byte % 16) ∷ []
unfolding gpio4_send gpio4_nibble
gpio4_send-strobes l reg byte h =
    read_two (not (reg == 0)) (four_lem (u8 (byte / 16)) (omega arith) ∙ omega arith)
      (four_lem (u8 (bit_and byte 15)) (omega (arith, low_nibble byte h)) ∙ low_nibble byte h)

-- A display that takes eight bits reads the byte, with that level of RS.
pub gpio8_send-strobes :
    (l : Lines) (reg byte : ℕ)
    → byte < 256
    → strobes whole l (gpio8_send reg byte) ≡ (not (reg == 0), byte) ∷ []
unfolding gpio8_send
gpio8_send-strobes l reg byte h = read_one (not (reg == 0)) (eight_lem byte h)
