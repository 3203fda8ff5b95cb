-- ===== src/Base/Texts.antt =====
-- Go strings as lists of code points, with the parts of `strings` that the program calls.
use Prim.Native.Nat.{ℕ, ◌+◌}
use Prim.Native.Char.{code}
use Prim.Native.String.{String}
use mathlib.Core.Path.{◌≡◌, refl}
use mathlib.Core.Bool.{Bool, true, false, ◌&&◌, ◌||◌}
use mathlib.Core.List.{List, [], ◌∷◌, ◌++◌, map}
use native.Mathlib.Omega.{arith}
use erie_canal_net.Base.Tests.{leb, ltb, ◌==◌, nat_eq, list_eq, if◌then◌else◌}
use erie_canal_net.Base.Lists.{any, filterb}

abbrev pub Text : Type 0
Text = List ℕ

abbrev pub codes : String → Text
codes String.[] = []
codes (String.◌∷◌ c s) = code c ∷ codes s

-- `s` has no code point that passes the test.
abbrev pub Free : (ℕ → Bool) → Text → Type 0
Free p s = any p s ≡ false

abbrev pub only : ℕ → ℕ → Bool
only c x = x == c

abbrev cons_head : ℕ → List Text → List Text
cons_head x [] = (x ∷ []) ∷ []
cons_head x (part ∷ parts) = (x ∷ part) ∷ parts

unfoldable pub split_by : (ℕ → Bool) → Text → List Text
split_by p [] = [] ∷ []
split_by p (x ∷ s) = let rest = split_by p s in if p x then [] ∷ rest else cons_head x rest

-- `strings.Split(s, sep)` for a separator of one character.
unfoldable pub split : ℕ → Text → List Text
unfolding split_by
split sep = split_by (only sep)

abbrev pub not_empty : Text → Bool
not_empty s = elim s [ [] ↦ false | _ ∷ _ ↦ true ]

-- `strings.FieldsFunc`: the pieces between runs of separators, with no empty piece.
unfoldable pub fields_func : (ℕ → Bool) → Text → List Text
unfolding split_by
fields_func p s = filterb not_empty (split_by p s)

-- A text with no separator is one piece.
pub split_by-Free : (p : ℕ → Bool) (s : Text) → Free p s → split_by p s ≡ s ∷ []
unfolding split_by
split_by-Free p [] h = refl
split_by-Free p (x ∷ s) h = ground (arith, split_by-Free p s)

-- A separator behind a text with none ends the first piece.
pub split_by-append :
    (p : ℕ → Bool) (s rest : Text) (sep : ℕ)
    → Free p s
    → p sep ≡ true
    → split_by p (s ++ sep ∷ rest) ≡ s ∷ split_by p rest
unfolding split_by
split_by-append p [] rest sep h k = ground arith
split_by-append p (x ∷ s) rest sep h k = ground (arith, split_by-append p s rest sep)

-- ASCII case mapping.
unfoldable pub lower : ℕ → ℕ
lower c = if leb b'A' c && leb c b'Z' then c + 32 else c

-- `strings.ToLower`
unfoldable pub to_lower : Text → Text
unfolding lower
to_lower = map lower

-- `strings.EqualFold`
unfoldable pub equal_fold : Text → Text → Bool
unfolding to_lower
equal_fold s t = to_lower s == to_lower t

-- `strings.HasPrefix`
unfoldable pub has_prefix : Text → Text → Bool
has_prefix s [] = true
has_prefix [] (c ∷ t) = false
has_prefix (x ∷ s) (c ∷ t) = x == c && has_prefix s t

-- `strings.HasSuffix`
unfoldable pub has_suffix : Text → Text → Bool
has_suffix [] t = [] == t
has_suffix (x ∷ s) t = x ∷ s == t || has_suffix s t

-- `strings.Compare(s, t) == -1`
unfoldable pub text_ltb : Text → Text → Bool
text_ltb [] [] = false
text_ltb [] (c ∷ t) = true
text_ltb (x ∷ s) [] = false
text_ltb (x ∷ s) (c ∷ t) = if x == c then text_ltb s t else ltb x c

pub text_ltb_irrefl : (s : Text) → text_ltb s s ≡ false
unfolding text_ltb
text_ltb_irrefl [] = refl
text_ltb_irrefl (x ∷ s) = ground (arith, text_ltb_irrefl s)

pub text_ltb_trans :
    (s t u : Text) → text_ltb s t ≡ true → text_ltb t u ≡ true → text_ltb s u ≡ true
unfolding text_ltb
text_ltb_trans [] [] u h k = ground arith
text_ltb_trans [] (y ∷ t) [] h k = ground arith
text_ltb_trans [] (y ∷ t) (z ∷ u) h k = refl
text_ltb_trans (x ∷ s) [] u h k = ground arith
text_ltb_trans (x ∷ s) (y ∷ t) [] h k = ground arith
text_ltb_trans (x ∷ s) (y ∷ t) (z ∷ u) h k = ground (arith, text_ltb_trans s t u)

-- Texts that are not ordered are equal.
pub text_ltb_total : (s t : Text) → text_ltb s t ≡ false → text_ltb t s ≡ false → s ≡ t
unfolding text_ltb
text_ltb_total [] [] h k = refl
text_ltb_total [] (y ∷ t) h k = ground arith
text_ltb_total (x ∷ s) [] h k = ground arith
text_ltb_total (x ∷ s) (y ∷ t) h k = ground (arith, text_ltb_total s t)
