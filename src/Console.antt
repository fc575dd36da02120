-- ===== src/Console.antt =====
-- epic-console/src/epic_console.c: the line editor and the command table over epic-serial. A string
-- is the list of its characters; a command's handler is a function of its arguments and of the
-- context, which it may change.
mod Edit
mod Words
mod Poll
mod Tests
use pic8_hal.Common.{
  ℕ, zero, suc, ◌+◌, ◌-◌, Bool, true, false, ◌&&◌, ◌||◌, Option, none, some, List, [], ◌∷◌, ltb,
  ◌==◌, if◌then◌else◌, set,
}
use pic8_hal.Serial
use pic8_hal.Serial.{Serial, available}

abbrev pub line_max : ℕ
line_max = 32

abbrev pub max_args : ℕ
max_args = 8

pub record Cmd (C : Type 0) : Type 0 where
  pub name : List ℕ
  pub help : Option (List ℕ)
  pub handler : Option (List (List ℕ) → C → C)

pub record Console (C : Type 0) : Type 0 where
  pub table : List (Cmd C)
  pub ctx : C
  pub line : List ℕ
  pub line_len : ℕ
  pub last_was_cr : Bool

abbrev pub is_blank : ℕ → Bool
is_blank c = c == 32 || c == 9

-- The characters of a buffer before its first NUL.
abbrev pub c_string : List ℕ → List ℕ
c_string [] = []
c_string (c ∷ cs) = if c == 0 then [] else c ∷ c_string cs

-- `strcmp(a, b) == 0`
abbrev pub same_string : List ℕ → List ℕ → Bool
same_string [] [] = true
same_string [] (b ∷ bs) = false
same_string (a ∷ rest) [] = false
same_string (a ∷ rest) (b ∷ bs) = a == b && same_string rest bs

-- The two inner loops of `console_tokenize`: `p` behind the blanks, the word there, and `p` behind it.
unfoldable pub skip_blanks : List ℕ → List ℕ
skip_blanks [] = []
skip_blanks (c ∷ cs) = if is_blank c then skip_blanks cs else c ∷ cs

unfoldable pub word : List ℕ → List ℕ
word [] = []
word (c ∷ cs) = if is_blank c then [] else c ∷ word cs

unfoldable pub after_word : List ℕ → List ℕ
after_word [] = []
after_word (c ∷ cs) = if is_blank c then c ∷ cs else after_word cs

-- The loop of `console_tokenize` where `left` arguments may still be stored. Every blank becomes a
-- NUL there or in the last loop, and so it ends the word before it.
unfoldable pub tokenize_from : ℕ → List ℕ → List (List ℕ)
tokenize_from zero p = []
tokenize_from (suc left) p =
    let rest = tokenize_from left (after_word (skip_blanks p)) in
    elim (skip_blanks p) [ [] ↦ [] | c ∷ cs ↦ word (c ∷ cs) ∷ rest ]

unfoldable pub tokenize : List ℕ → List (List ℕ)
tokenize line = tokenize_from max_args line

-- What `console_tokenize` leaves in the buffer: the blanks before the NUL are overwritten.
abbrev pub cut_blanks : List ℕ → List ℕ
cut_blanks [] = []
cut_blanks (c ∷ cs) = if c == 0 then c ∷ cs else (if is_blank c then 0 else c) ∷ cut_blanks cs

unfoldable pub help_of : Option (List ℕ) → List ℕ
help_of none = []
help_of (some text) = text

module _ {C : Type 0} where
  -- The loop over the table; `argv[0]` is the first argument of it.
  unfoldable pub run_command : List (Cmd C) → List ℕ → List (List ℕ) → C → C
  run_command [] first argv ctx = ctx
  run_command (cmd ∷ table) first argv ctx =
      if same_string first cmd.name
      then elim cmd.handler [ none ↦ ctx | some handler ↦ handler argv ctx ]
      else run_command table first argv ctx

  unfoldable pub dispatch_argv : List (Cmd C) → List (List ℕ) → C → C
  dispatch_argv table [] ctx = ctx
  dispatch_argv table (first ∷ others) ctx = run_command table first (first ∷ others) ctx

  unfoldable pub dispatch : Console C → Console C
  dispatch con =
      let ended = set con.line con.line_len 0 in
      record con {
        ctx = dispatch_argv con.table (tokenize (c_string ended)) con.ctx;
        line = cut_blanks ended;
        line_len = 0;
      }

  unfoldable pub init : Console C → List (Cmd C) → C → Console C
  init con table ctx = record con {
    table = table;
    ctx = ctx;
    line_len = 0;
    last_was_cr = false;
    line = set con.line 0 0;
  }

  -- The body of the loop of `epic_console_poll` behind the read of `ch`: the console, and what is
  -- written to the serial port.
  unfoldable pub on_char : Console C → ℕ → Console C × List ℕ
  on_char con ch =
      let shown = record con { last_was_cr = false } in
      let back = con.line_len - 1 in
      if ch == 13 || ch == 10
      then (if ch == 10 && con.last_was_cr
          then (shown, [])
          else (record (dispatch con) { last_was_cr = ch == 13 }, 13 ∷ 10 ∷ []))
      else if ch == 8 || ch == 127
      then (if ltb 0 con.line_len
          then (record shown { line_len = back; line = set con.line back 0 }, 8 ∷ 32 ∷ 8 ∷ [])
          else (shown, []))
      else if ltb con.line_len (line_max - 1)
      then (
        record shown {
          line = set (set con.line con.line_len ch) (con.line_len + 1) 0;
          line_len = con.line_len + 1;
        },
        ch ∷ [],
      )
      else (shown, [])

  -- `epic_console_print_help`: the strings that it writes, in order.
  unfoldable pub print_help : List (Cmd C) → List (List ℕ)
  print_help [] = []
  print_help (cmd ∷ table) =
      cmd.name ∷ (32 ∷ 45 ∷ 32 ∷ []) ∷ help_of cmd.help ∷ (13 ∷ 10 ∷ []) ∷ print_help table

module _ {C : Type 0} (dispatch_irqs : Serial → Serial) where
  -- The rest of a round of the loop, where the port is `s` after the read.
  unfoldable pub round : ℕ → Console C → Serial → ℕ → Option (Console C × Serial)
  round fuel con s ch =
      let (con', out) = on_char con ch in
      elim (Serial.write dispatch_irqs fuel s out) [ none ↦ none | some s' ↦ some (con', s') ]

  -- `epic_console_poll` with fuel for the rounds and for the waits in `epic_serial_write`; `none`
  -- is that it still runs.
  unfoldable pub poll : ℕ → ℕ → Console C → Serial → Option (Console C × Serial)
  poll zero fuel con s = if ltb 0 (available s) then none else some (con, s)
  poll (suc rounds) fuel con s =
      let (got, s') = Serial.read 1 s in
      if ltb 0 (available s)
      then elim got [
        | [] ↦ some (con, s')
        | ch ∷ more ↦ elim (round fuel con s' ch) [
          | none ↦ none
          | some (con', s'') ↦ poll rounds fuel con' s''
        ]
      ]
      else some (con, s)
