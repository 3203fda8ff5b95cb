-- ===== src/Cli/Confirm/Replies.antt =====
-- What `confirm` of cmd/ecnet/cli/util.go makes of the lines that it is given.
use erie_canal_net.Base.{
  ℕ, zero, suc, ◌≡◌, refl, sym, ap, ◌∙◌, Bool, false, List, [], ◌∷◌, ◌++◌, Option, none, some, Text,
  nat_eq, list_eq, arith, Free, only, All, Option-cases, append-nil, append_assoc, inl, inr, subst,
}
use erie_canal_net.Cli.Confirm.{cut_line, read_line, reply_of, confirm_from, confirm}

-- A line feed at its end, and nowhere else
abbrev pub IsLine : Text → Type 0
IsLine line = (words : Text) × Free (only 10) words × (line ≡ words ++ 10 ∷ [])

cut_line-append :
    (words rest : Text)
    → Free (only 10) words
    → cut_line (words ++ 10 ∷ rest) ≡ some (words ++ 10 ∷ [], rest)
cut_line-append [] rest free = refl
cut_line-append (c ∷ s) rest free = ground (arith, free, cut_line-append s rest)

-- One line for each try
abbrev pub first_answer : ℕ → List Text → Option Bool × List Text
first_answer zero lines = (some false, lines)
first_answer (suc tries) [] = (none, [])
first_answer (suc tries) (line ∷ lines) = elim (reply_of line) [
  | some answer ↦ (some answer, lines)
  | none ↦ first_answer tries lines
]

read_line_cut :
    (buffer line after : Text) (chunks : List Text)
    → cut_line buffer ≡ some (line, after)
    → read_line buffer chunks ≡ some (line, after, chunks)
unfolding read_line
read_line_cut buffer line after [] h = ground (arith, h)
read_line_cut buffer line after (chunk ∷ chunks) h = ground (arith, h)

-- A chunk that starts with a line
read_line-IsLine :
    (line rest : Text) (chunks : List Text)
    → IsLine line
    → read_line [] ((line ++ rest) ∷ chunks) ≡ some (line, rest, chunks)
unfolding read_line
read_line-IsLine line rest chunks (words, free, e) = read_line_cut (line ++ rest) line rest chunks (
    ap (λ l. cut_line (l ++ rest)) e
    ∙ ap cut_line (append_assoc words (10 ∷ []) rest)
    ∙ cut_line-append words rest free
    ∙ ap (λ l. some (l, rest)) (sym e))

module _ (tries : ℕ) (buffer : Text) (chunks : List Text) (line after : Text)
    (left : List Text) where
  confirm_answered :
      (answer : Bool)
      → read_line buffer chunks ≡ some (line, after, left)
      → reply_of line ≡ some answer
      → confirm_from (suc tries) buffer chunks ≡ (some answer, left)
  unfolding confirm_from
  confirm_answered answer h e = rw (confirm_from, h, e) refl

  confirm_again :
      read_line buffer chunks ≡ some (line, after, left)
      → reply_of line ≡ none
      → confirm_from (suc tries) buffer chunks ≡ confirm_from tries after left
  unfolding confirm_from
  confirm_again h e = rw (confirm_from, h, e) refl

first_answer_again :
    (tries : ℕ) (line : Text) (lines : List Text)
    → reply_of line ≡ none
    → first_answer (suc tries) (line ∷ lines) ≡ first_answer tries lines
first_answer_again tries line lines e = rw (first_answer, e) refl

first_answer_found :
    (tries : ℕ) (line : Text) (lines : List Text) (answer : Bool)
    → reply_of line ≡ some answer
    → first_answer (suc tries) (line ∷ lines) ≡ (some answer, lines)
first_answer_found tries line lines answer e = rw (first_answer, e) refl

confirm_from-lines :
    (tries : ℕ) (lines : List Text)
    → All IsLine lines
    → confirm_from tries [] lines ≡ first_answer tries lines
unfolding confirm_from read_line
confirm_from-lines zero lines h = refl
confirm_from-lines (suc tries) [] h = refl
confirm_from-lines (suc tries) (line ∷ lines) h =
    let got : read_line [] (line ∷ lines) ≡ some (line, [], lines) =
      subst (λ l. read_line [] (l ∷ lines) ≡ some (line, [], lines)) (append-nil line)
        (read_line-IsLine line [] lines h.0) in
    elim (Option-cases (reply_of line)) [
      | inl again ↦
          confirm_again tries [] (line ∷ lines) line [] lines got again
          ∙ confirm_from-lines tries lines h.1
          ∙ sym (first_answer_again tries line lines again)
      | inr (answer, e) ↦
          confirm_answered tries [] (line ∷ lines) line [] lines answer got e
          ∙ sym (first_answer_found tries line lines answer e)
    ]

-- If each read of the input returns one line, `confirm` gives the answer of the first line that is one,
-- among as many lines as it has tries; it is a no if all are used, and an error if the lines end before.
pub confirm_lines :
    (lines : List Text) (tries : ℕ)
    → All IsLine lines
    → confirm lines tries ≡ first_answer tries lines
unfolding confirm
confirm_lines lines tries h = confirm_from-lines tries lines h

-- If the first read returns a line with an answer and more, then `confirm` gives that answer, and what
-- follows the line is lost: with no further input, the next `confirm` is an error.
pub confirm_loses :
    (line rest : Text) (answer : Bool) (tries later : ℕ)
    → IsLine line
    → reply_of line ≡ some answer
    → let (first, left) = confirm ((line ++ rest) ∷ []) (suc tries) in
      (first ≡ some answer) × ((confirm left (suc later)).0 ≡ none)
unfolding confirm confirm_from read_line
confirm_loses line rest answer tries later h e =
    let done =
      confirm_answered tries [] ((line ++ rest) ∷ []) line rest [] answer
        (read_line-IsLine line rest [] h) e in
    (ap (λ r. r.0) done, ap (λ r. (confirm_from (suc later) [] r.1).0) done)
