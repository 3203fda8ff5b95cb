-- ===== src/Base/Decimal.antt =====
-- `%d` of a natural number, and `strconv.ParseUint(s, 10, bits)`.
use Prim.Native.Nat.{ℕ, zero, suc, ◌+◌, ◌-◌, ◌*◌, ◌/◌, ◌%◌, ◌^◌, ◌<◌, ◌≤◌}
use mathlib.Core.Path.{◌≡◌, refl}
use mathlib.Core.Bool.{Bool, true, false, ◌&&◌}
use mathlib.Core.List.{[], ◌∷◌, ◌++◌}
use mathlib.Core.Option.{Option, none, some}
use native.Mathlib.Omega.{arith}
use erie_canal_net.Base.Tests.{leb, ltb, if◌then◌else◌}
use erie_canal_net.Base.Lists.{any-append}
use erie_canal_net.Base.Texts.{Text, Free, not_empty}

digits : ℕ → ℕ → Text
digits zero n = []
digits (suc f) n =
    let more = digits f (n / 10) ++ (b'0' + n % 10) ∷ [] in
    if ltb n 10 then (b'0' + n) ∷ [] else more

unfoldable pub decimal : ℕ → Text
unfolding digits
decimal n = digits (suc n) n

abbrev pub is_digit : ℕ → Bool
is_digit c = leb b'0' c && leb c b'9'

unfoldable pub parse_digits : ℕ → Text → Option ℕ
parse_digits acc [] = some acc
parse_digits acc (c ∷ s) = if is_digit c then parse_digits (acc * 10 + (c - b'0')) s else none

abbrev fits : ℕ → Option ℕ → Option ℕ
fits bits none = none
fits bits (some n) = if ltb n (2 ^ bits) then some n else none

unfoldable pub parse_uint : Text → ℕ → Option ℕ
unfolding parse_digits
parse_uint [] bits = none
parse_uint (c ∷ s) bits = fits bits (parse_digits 0 (c ∷ s))

parse_digits-append :
    (s : Text) (acc n c : ℕ)
    → parse_digits acc s ≡ some n
    → is_digit c ≡ true
    → parse_digits acc (s ++ c ∷ []) ≡ some (n * 10 + (c - b'0'))
unfolding parse_digits
parse_digits-append [] acc n c h d = ground arith
parse_digits-append (x ∷ s) acc n c h d =
    ground (arith, parse_digits-append s (acc * 10 + (x - b'0')) n c)

parse_digits-digits : (f n : ℕ) → n < f → parse_digits 0 (digits f n) ≡ some n
unfolding parse_digits digits
parse_digits-digits zero n h = absurd (omega arith)
parse_digits-digits (suc f) n h = ground (
  arith,
  parse_digits-digits f (n / 10),
  parse_digits-append (digits f (n / 10)) 0 (n / 10) (b'0' + n % 10),
)

digits-Free :
    (p : ℕ → Bool) (f n : ℕ) → ((c : ℕ) → is_digit c ≡ true → p c ≡ false) → Free p (digits f n)
unfolding digits
digits-Free p zero n h = refl
digits-Free p (suc f) n h = ground (
  arith,
  h (b'0' + n),
  h (b'0' + n % 10),
  digits-Free p f (n / 10) h,
  any-append p (digits f (n / 10)) ((b'0' + n % 10) ∷ []),
)

-- Decimal digits are no separators.
pub decimal-Free :
    (p : ℕ → Bool) (n : ℕ) → ((c : ℕ) → is_digit c ≡ true → p c ≡ false) → Free p (decimal n)
unfolding decimal
decimal-Free p n h = digits-Free p (suc n) n h

not_empty-append : (s : Text) (c : ℕ) → not_empty (s ++ c ∷ []) ≡ true
not_empty-append [] c = refl
not_empty-append (x ∷ s) c = refl

pub not_empty-decimal : (n : ℕ) → not_empty (decimal n) ≡ true
unfolding digits decimal
not_empty-decimal n = ground (arith, not_empty-append (digits n (n / 10)) (b'0' + n % 10))

fits_lem :
    (s : Text) (bits : ℕ) → not_empty s ≡ true → parse_uint s bits ≡ fits bits (parse_digits 0 s)
unfolding parse_uint
fits_lem [] bits h = ground arith
fits_lem (c ∷ s) bits h = refl

-- `ParseUint` reads back what `%d` prints, if it fits.
pub parse_uint-decimal : (n bits : ℕ) → n < 2 ^ bits → parse_uint (decimal n) bits ≡ some n
unfolding decimal
parse_uint-decimal n bits h =
    rw
      (fits_lem (decimal n) bits (not_empty-decimal n), parse_digits-digits (suc n) n (omega arith))
      (ground arith)

-- A number that `ParseUint` returns fits.
pub parse_uint-lt : (s : Text) (bits n : ℕ) → parse_uint s bits ≡ some n → n < 2 ^ bits
unfolding parse_uint
parse_uint-lt [] bits n h = ground arith
parse_uint-lt (c ∷ s) bits n h = bound (parse_digits 0 (c ∷ s)) h
  where
    bound : (o : Option ℕ) → fits bits o ≡ some n → n < 2 ^ bits
    bound none e = ground arith
    bound (some m) e = ground arith

-- Two numbers that print alike are one.
pub decimal_injective : (m n : ℕ) → decimal m ≡ decimal n → m ≡ n
unfolding decimal
decimal_injective m n e = ground (
  arith,
  e,
  parse_digits-digits (suc m) m (omega arith),
  parse_digits-digits (suc n) n (omega arith),
)

pub parse_digits-decimal : (n : ℕ) → parse_digits 0 (decimal n) ≡ some n
unfolding decimal
parse_digits-decimal n = parse_digits-digits (suc n) n (omega arith)

-- More digits only add to a number.
pub parse_digits-le : (s : Text) (acc n : ℕ) → parse_digits acc s ≡ some n → acc ≤ n
unfolding parse_digits
parse_digits-le [] acc n h = ground arith
parse_digits-le (c ∷ s) acc n h = ground (arith, parse_digits-le s (acc * 10 + (c - b'0')) n)
