-- ===== src/Console/Words.antt =====
-- The split of a line into its words.
use pic8_hal.Common.{
  ℕ, zero, suc, ◌≡◌, refl, ap, ◌∙◌, Bool, true, false, List, [], ◌∷◌, ◌++◌, map, take, All,
}
use pic8_hal.Console.{is_blank, skip_blanks, word, after_word, tokenize_from, tokenize}

abbrev pub IsBlank : ℕ → Type 0
IsBlank c = is_blank c ≡ true

abbrev pub IsPlain : ℕ → Type 0
IsPlain c = is_blank c ≡ false

-- A word and the blanks before it.
pub record Spaced : Type 0 where
  pub gap : List ℕ
  pub first : ℕ
  pub others : List ℕ

abbrev pub letters : Spaced → List ℕ
letters w = w.first ∷ w.others

-- The words with their blanks, and the blanks at the end.
abbrev pub spell : List Spaced → List ℕ → List ℕ
spell [] trail = trail
spell (w ∷ words) trail = w.gap ++ (letters w ++ spell words trail)

-- A word ends where the text behind it is empty or begins with a blank.
abbrev ends_word : List ℕ → Bool
ends_word [] = true
ends_word (c ∷ cs) = is_blank c

-- Only blanks stand in gaps, none in words, and the gap between two words is not empty.
abbrev pub IsLine : List Spaced → List ℕ → Type 0
IsLine [] trail = All IsBlank trail
IsLine (w ∷ words) trail =
    All IsBlank w.gap
    × IsPlain w.first
    × All IsPlain w.others
    × (ends_word (spell words trail) ≡ true)
    × IsLine words trail

skip_blanks-append :
    (gap rest : List ℕ) → All IsBlank gap → skip_blanks (gap ++ rest) ≡ skip_blanks rest
unfolding skip_blanks
skip_blanks-append [] rest b = refl
skip_blanks-append (c ∷ gap) rest b = rw (b.0) (skip_blanks-append gap rest (b.1))

skip_blanks-nil : (trail : List ℕ) → All IsBlank trail → skip_blanks trail ≡ []
unfolding skip_blanks
skip_blanks-nil [] b = refl
skip_blanks-nil (c ∷ trail) b = rw (b.0) (skip_blanks-nil trail (b.1))

skip_blanks-plain : (c : ℕ) (cs : List ℕ) → IsPlain c → skip_blanks (c ∷ cs) ≡ c ∷ cs
unfolding skip_blanks
skip_blanks-plain c cs p = rw p refl

word-append : (w rest : List ℕ) → All IsPlain w → ends_word rest ≡ true → word (w ++ rest) ≡ w
unfolding word
word-append [] [] p e = refl
word-append [] (c ∷ rest) p e = rw e refl
word-append (c ∷ w) rest p e = rw (p.0) (ap (λ l. c ∷ l) (word-append w rest (p.1) e))

after_word-append :
    (w rest : List ℕ) → All IsPlain w → ends_word rest ≡ true → after_word (w ++ rest) ≡ rest
unfolding after_word
after_word-append [] [] p e = refl
after_word-append [] (c ∷ rest) p e = rw e refl
after_word-append (c ∷ w) rest p e = rw (p.0) (after_word-append w rest (p.1) e)

tokenize_from-spell :
    (n : ℕ) (words : List Spaced) (trail : List ℕ)
    → IsLine words trail
    → tokenize_from n (spell words trail) ≡ take n (map letters words)
unfolding tokenize_from
tokenize_from-spell zero words trail ok = refl
tokenize_from-spell (suc n) [] trail ok = rw (skip_blanks-nil trail ok, tokenize_from) refl
tokenize_from-spell (suc n) (w ∷ words) trail (gap, first, others, ends, ok) =
    let rest = spell words trail in
    let plain : All IsPlain (letters w) = (first, others) in
    let at_word : skip_blanks (w.gap ++ (letters w ++ rest)) ≡ letters w ++ rest =
      skip_blanks-append w.gap (letters w ++ rest) gap
      ∙ skip_blanks-plain w.first (w.others ++ rest) first in
    let found = word-append (letters w) rest plain ends in
    let behind = after_word-append (letters w) rest plain ends in
    rw (at_word, found, at_word, behind, tokenize_from-spell n words trail ok, tokenize_from) refl

-- Of a line of words, `console_tokenize` finds the first eight, in order, whatever blanks stand
-- before, between and behind them.
pub tokenize-spell :
    (words : List Spaced) (trail : List ℕ)
    → IsLine words trail
    → tokenize (spell words trail) ≡ take 8 (map letters words)
unfolding tokenize
tokenize-spell words trail ok = tokenize_from-spell 8 words trail ok
