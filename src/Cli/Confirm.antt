-- ===== src/Cli/Confirm.antt =====
-- util.go of cmd/ecnet/cli: `confirm`, with the buffer of its reader. The input is the chunks that reads
-- of it return, none empty; white space is that of ASCII.
pub mod Replies
use erie_canal_net.Base.{
  ℕ, zero, suc, Bool, true, false, ◌&&◌, ◌||◌, List, [], ◌∷◌, ◌++◌, Option, none, some, Text, ◌==◌,
  nat_eq, list_eq, if◌then◌else◌, is_empty, length, ltb, leb, codes, to_lower,
}

abbrev pub is_space : ℕ → Bool
is_space c = c == 32 || (leb 9 c && leb c 13)

abbrev pub trim_left : Text → Text
trim_left [] = []
trim_left (c ∷ s) = let rest = trim_left s in if is_space c then rest else c ∷ s

abbrev pub trim_right : Text → Text
trim_right [] = []
trim_right (c ∷ s) = let rest = trim_right s in if is_empty rest && is_space c then [] else c ∷ rest

-- `strings.TrimSpace`
abbrev pub trim_space : Text → Text
trim_space s = trim_right (trim_left s)

-- The first line of a buffer, with its end, and what follows it
abbrev pub cut_line : Text → Option (Text × Text)
cut_line [] = none
cut_line (c ∷ s) =
    let rest = cut_line s in
    if c == 10
    then some (c ∷ [], s)
    else elim rest [ none ↦ none | some (line, after) ↦ some (c ∷ line, after) ]

-- `ReadString('\n')`: the line, the rest of the buffer, and the chunks that were not read; `none` is the
-- error at the end of the input.
pub read_line : Text → List Text → Option (Text × Text × List Text)
read_line buffer [] = elim (cut_line buffer) [
  | none ↦ none
  | some (line, after) ↦ some (line, after, [])
]
read_line buffer (chunk ∷ chunks) =
    let more = read_line (buffer ++ chunk) chunks in
    elim (cut_line buffer) [ none ↦ more | some (line, after) ↦ some (line, after, chunk ∷ chunks) ]

-- What a line says; `none` where the loop goes on.
abbrev pub reply_of : Text → Option Bool
reply_of line =
    if ltb (length line) 2
    then none
    else if to_lower (trim_space line) == codes "y"
    then some true
    else if to_lower (trim_space line) == codes "n"
    then some false
    else none

-- The answer, which is `none` on an error, and the chunks that were not read
pub confirm_from : ℕ → Text → List Text → Option Bool × List Text
unfolding read_line
confirm_from zero buffer chunks = (some false, chunks)
confirm_from (suc tries) buffer chunks = elim (read_line buffer chunks) [
  | none ↦ (none, [])
  | some (line, after, left) ↦ elim (reply_of line) [
    | some answer ↦ (some answer, left)
    | none ↦ confirm_from tries after left
  ]
]

-- `confirm`; what is left in its buffer is lost.
unfoldable pub confirm : List Text → ℕ → Option Bool × List Text
unfolding confirm_from
confirm stdin tries = confirm_from tries [] stdin
