-- ===== src/Console/Edit.antt =====
-- The line editor: the buffer, its length and its NUL as the list of the characters typed.
use pic8_hal.Common.{
  ℕ, zero, suc, ◌+◌, ◌-◌, ◌≤◌, ◌<◌, ◌≡◌, refl, sym, ap, ◌∙◌, inl, inr, Bool, false, ◌&&◌, ◌||◌,
  List, [], ◌∷◌, ◌++◌, arith, ltb, ◌==◌, if◌then◌else◌, Bool-cases, length, set, take, length-set,
  length-take,
}
use pic8_hal.Console.{
  Console, Cmd, line_max, c_string, tokenize, dispatch_argv, dispatch, cut_blanks, on_char,
}

-- What a user of the line knows of the console.
pub record Editor (C : Type 0) : Type 0 where
  pub ctx : C
  pub typed : List ℕ
  pub after_cr : Bool

module _ {C : Type 0} where
  abbrev pub view : Console C → Editor C
  view con = record {
    ctx = con.ctx;
    typed = take con.line_len con.line;
    after_cr = con.last_was_cr;
  }

  -- A line ends at CR, at LF, and at CR LF; backspace takes back a character; a character behind the
  -- 31st is ignored. The second component is what the terminal shows.
  abbrev pub edit : List (Cmd C) → Editor C → ℕ → Editor C × List ℕ
  edit table e ch =
      let quiet = record e { after_cr = false } in
      let words = tokenize (c_string e.typed) in
      if ch == 13 || ch == 10
      then (if ch == 10 && e.after_cr then (quiet, []) else (
        record { ctx = dispatch_argv table words e.ctx; typed = []; after_cr = ch == 13 },
        13 ∷ 10 ∷ [],
      ))
      else if ch == 8 || ch == 127
      then (if ltb 0 (length e.typed)
          then (record quiet { typed = take (length e.typed - 1) e.typed }, 8 ∷ 32 ∷ 8 ∷ [])
          else (quiet, []))
      else if ltb (length e.typed) 31
      then (record quiet { typed = e.typed ++ ch ∷ [] }, ch ∷ [])
      else (quiet, [])

  -- The line always has room for its NUL.
  pub record IsValid (con : Console C) : Type 0 where
    pub storage : length con.line ≡ line_max
    pub room : con.line_len < line_max

c_string-set :
    (line : List ℕ) (n : ℕ) → n < length line → c_string (set line n 0) ≡ c_string (take n line)
c_string-set [] n h = absurd (omega arith)
c_string-set (c ∷ cs) zero h = refl
c_string-set (c ∷ cs) (suc n) h = rw (c_string-set cs n (omega arith)) refl

take-set : (line : List ℕ) (n c : ℕ) → take n (set line n c) ≡ take n line
take-set [] n c = refl
take-set (x ∷ line) zero c = refl
take-set (x ∷ line) (suc n) c = ap (λ l. x ∷ l) (take-set line n c)

take_more :
    (line : List ℕ) (n c : ℕ)
    → n < length line
    → take (suc n) (set line n c) ≡ take n line ++ c ∷ []
take_more [] n c h = absurd (omega arith)
take_more (x ∷ line) zero c h = refl
take_more (x ∷ line) (suc n) c h = ap (λ l. x ∷ l) (take_more line n c (omega arith))

take-take : (line : List ℕ) (m n : ℕ) → m ≤ n → take m (take n line) ≡ take m line
take-take line zero n h = refl
take-take [] (suc m) zero h = absurd (omega arith)
take-take [] (suc m) (suc n) h = refl
take-take (x ∷ line) (suc m) zero h = absurd (omega arith)
take-take (x ∷ line) (suc m) (suc n) h = ap (λ l. x ∷ l) (take-take line m n (omega arith))

length-cut_blanks : (line : List ℕ) → length (cut_blanks line) ≡ length line
length-cut_blanks [] = refl
length-cut_blanks (c ∷ cs) = elim (Bool-cases (c == 0)) [
  | inl e ↦ rw e refl
  | inr e ↦ rw e (ap suc (length-cut_blanks cs))
]

module _ {C : Type 0} (con : Console C) (ok : IsValid con) where
  typed-length : length (take con.line_len con.line) ≡ con.line_len
  typed-length = length-take con.line_len con.line ∙ omega (arith, ok.storage, ok.room)

  dispatch-view :
      (cr : Bool)
      → view (record (dispatch con) { last_was_cr = cr }) ≡ record {
        ctx = dispatch_argv con.table (tokenize (c_string (view con).typed)) con.ctx;
        typed = [];
        after_cr = cr;
      }
  unfolding dispatch
  dispatch-view cr =
      rw (c_string-set con.line con.line_len (omega (arith, ok.storage, ok.room))) refl

  dispatch-IsValid : (cr : Bool) → IsValid (record (dispatch con) { last_was_cr = cr })
  unfolding dispatch
  dispatch-IsValid cr = record {
    storage =
        length-cut_blanks (set con.line con.line_len 0)
        ∙ length-set con.line con.line_len 0
        ∙ ok.storage;
    room = omega arith;
  }

  quiet-IsValid : IsValid (record con { last_was_cr = false })
  quiet-IsValid = record { storage = ok.storage; room = ok.room }

  -- Each character acts on the buffer as it acts on what was typed; the buffer stays valid, and
  -- the table stays.
  pub on_char-edit :
      (ch : ℕ)
      → let (con', out) = on_char con ch in
        ((view con', out) ≡ edit con.table (view con) ch) × IsValid con' × (con'.table ≡ con.table)
  unfolding on_char dispatch
  on_char-edit ch = elim (Bool-cases (ch == 13 || ch == 10)) [
    | inl end_of_line ↦ elim (Bool-cases (ch == 10 && con.last_was_cr)) [
      | inl second ↦ rw (end_of_line, second) (refl, quiet-IsValid, refl)
      | inr first ↦
          rw (end_of_line, first)
            (
              ap (λ e. (e, 13 ∷ 10 ∷ [])) (dispatch-view (ch == 13)),
              dispatch-IsValid (ch == 13),
              refl,
            )
    ]
    | inr other ↦ elim (Bool-cases (ch == 8 || ch == 127)) [
      | inl back ↦ elim (Bool-cases (ltb 0 con.line_len)) [
        | inl some_typed ↦
            let one_less = con.line_len - 1 in
            let kept : take one_less (set con.line one_less 0)
                ≡ take one_less (take con.line_len con.line) =
              take-set con.line one_less 0
              ∙ sym (take-take con.line one_less con.line_len (omega arith)) in
            rw (other, back, typed-length, some_typed)
              (
                ap (λ l. (record { ctx = con.ctx; typed = l; after_cr = false }, 8 ∷ 32 ∷ 8 ∷ []))
                    kept,
                record {
                  storage = length-set con.line one_less 0 ∙ ok.storage;
                  room = omega (arith, ok.room);
                },
                refl,
              )
        | inr none_typed ↦ rw (other, back, typed-length, none_typed) (refl, quiet-IsValid, refl)
      ]
      | inr plain ↦ elim (Bool-cases (ltb con.line_len 31)) [
        | inl room ↦
            let space : con.line_len < 31 = ground (arith, room) in
            let long : length (set con.line con.line_len ch) ≡ 32 =
              length-set con.line con.line_len ch ∙ ok.storage in
            let more : take (con.line_len + 1)
                  (set (set con.line con.line_len ch) (con.line_len + 1) 0)
                ≡ take con.line_len con.line ++ ch ∷ [] =
              take-set (set con.line con.line_len ch) (con.line_len + 1) 0
              ∙ ap (λ k. take k (set con.line con.line_len ch)) {x = con.line_len + 1}
                  {y = suc con.line_len} (omega arith)
              ∙ take_more con.line con.line_len ch (omega (arith, ok.storage)) in
            rw (other, plain, typed-length, room)
              (
                ap (λ l. (record { ctx = con.ctx; typed = l; after_cr = false }, ch ∷ [])) more,
                record {
                  storage = length-set (set con.line con.line_len ch) (con.line_len + 1) 0 ∙ long;
                  room = omega arith;
                },
                refl,
              )
        | inr full ↦ rw (other, plain, typed-length, full) (refl, quiet-IsValid, refl)
      ]
    ]
  ]
