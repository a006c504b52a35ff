-- ===== src/Base/Decimal.antt =====
-- Decimal numerals as Python's `str` prints them and `int` reads them: decimal digits of any script,
-- with a sign and single underscores between digits, and at most 4300 digits, the default limit.
use Prim.Native.Nat.{ℕ, zero, suc, ◌+◌, ◌*◌, ◌/◌, ◌%◌, ◌<◌, ◌≤◌}
use mathlib.Core.Path.{◌≡◌, refl, ap, ◌∙◌}
use mathlib.Core.Bool.{Bool, true, false, ◌&&◌}
use mathlib.Core.Option.{Option, none, some}
use mathlib.Core.List.{
  [], ◌∷◌, ◌++◌, append_assoc, append-nil, reverse, reverse_aux, reverse-reverse,
}
use native.Mathlib.Omega.{arith}
use mathlib.Core.Logic.{inl, inr}
use manyfaced_honeypot.Base.Tests.{ltb, ltb→lt, ◌==◌, if◌then◌else◌, Bool-cases, is_some}
use manyfaced_honeypot.Base.Lists.{All, All-append, length}
use manyfaced_honeypot.Base.Int.{ℤ, pos, negate}
use manyfaced_honeypot.Base.Texts.{Text, decimal_of, decimal_of-digit, strip, strip_left}

show_fuel : ℕ → ℕ → Text
show_fuel zero n = []
show_fuel (suc f) n =
    let rest = show_fuel f (n / 10) in
    if ltb n 10 then (48 + n) ∷ [] else rest ++ (48 + n % 10) ∷ []

-- `str(n)` of a number that is not negative
unfoldable pub show_nat : ℕ → Text
unfolding show_fuel
show_nat n = show_fuel (suc n) n

-- The digits of a numeral; `digit` says that the character before was one.
unfoldable pub digits_from : ℕ → Bool → Text → Option ℕ
digits_from acc digit [] = if digit then some acc else none
digits_from acc digit (c ∷ s) = elim (decimal_of c) [
  | some d ↦ digits_from (acc * 10 + d) true s
  | none ↦ elim (c == b'_' && digit) [ true ↦ digits_from acc false s | false ↦ none ]
]

abbrev signed : (ℕ → ℤ) → Option ℕ → Option ℤ
signed f none = none
signed f (some n) = some (f n)

unfoldable pub parse_signed : Text → Option ℤ
unfolding digits_from
parse_signed [] = none
parse_signed (c ∷ s) =
    if c == b'-'
    then signed negate (digits_from 0 false s)
    else if c == b'+'
    then signed pos (digits_from 0 false s)
    else signed pos (digits_from 0 false (c ∷ s))

unfoldable pub digit_count : Text → ℕ
digit_count [] = 0
digit_count (c ∷ s) = let rest = digit_count s in if is_some (decimal_of c) then suc rest else rest

-- the default of `sys.get_int_max_str_digits()`
abbrev pub max_str_digits : ℕ
max_str_digits = 4300

-- `int(s)`; `none` is the ValueError.
unfoldable pub parse_int : Text → Option ℤ
unfolding parse_signed strip digit_count decimal_of
parse_int s = if ltb max_str_digits (digit_count (strip s)) then none else parse_signed (strip s)

digits_from-digit :
    (acc d : ℕ) (digit : Bool) (rest : Text)
    → d < 10
    → digits_from acc digit ((48 + d) ∷ rest) ≡ digits_from (acc * 10 + d) true rest
unfolding digits_from
digits_from-digit acc d digit rest h = rw (decimal_of-digit d h, digits_from) refl

digits_from-show_fuel :
    (f n : ℕ) (digit : Bool) (rest : Text)
    → n < f
    → digits_from 0 digit (show_fuel f n ++ rest) ≡ digits_from n true rest
unfolding show_fuel
digits_from-show_fuel zero n digit rest h = elim h [ ]
digits_from-show_fuel (suc f) n digit rest h = elim (Bool-cases (ltb n 10)) [
  | inl small ↦ rw small (
      digits_from-digit 0 n digit rest (ltb→lt n 10 small)
      ∙ ap (λ m. digits_from m true rest) (omega arith))
  | inr large ↦
      rw (large, append_assoc)
        (digits_from-show_fuel f (n / 10) digit ((48 + n % 10) ∷ rest) (ground arith)
          ∙ digits_from-digit (n / 10) (n % 10) true rest (omega arith)
          ∙ ap (λ m. digits_from m true rest) (omega arith))
]

-- Reading a printed number gives it back, whatever stands before it.
pub digits_from-show_nat : (n : ℕ) (digit : Bool) → digits_from 0 digit (show_nat n) ≡ some n
unfolding digits_from show_nat
digits_from-show_nat n digit =
    rw (← append-nil (show_nat n)) (digits_from-show_fuel (suc n) n digit [] (omega arith))

abbrev pub IsDigit : ℕ → Type 0
IsDigit c = (48 ≤ c) × (c ≤ 57)

show_fuel-digits : (f n : ℕ) → All IsDigit (show_fuel f n)
unfolding show_fuel
show_fuel-digits zero n = tt
show_fuel-digits (suc f) n = elim (Bool-cases (ltb n 10)) [
  | inl small ↦ rw small (ground arith)
  | inr large ↦
      rw large
        (All-append IsDigit (show_fuel f (n / 10)) _ (show_fuel-digits f (n / 10)) (omega arith))
]

-- A printed number consists of digits.
pub show_nat-digits : (n : ℕ) → All IsDigit (show_nat n)
unfolding show_nat
show_nat-digits n = show_fuel-digits (suc n) n

strip_left-digits : (s : Text) → All IsDigit s → strip_left s ≡ s
unfolding strip_left
strip_left-digits [] h = refl
strip_left-digits (c ∷ s) (p, h) = ground arith

All-reverse_aux : (s t : Text) → All IsDigit s → All IsDigit t → All IsDigit (reverse_aux s t)
All-reverse_aux [] t h k = k
All-reverse_aux (c ∷ s) t (p, h) k = All-reverse_aux s (c ∷ t) h (p, k)

strip-digits : (s : Text) → All IsDigit s → strip s ≡ s
unfolding strip
strip-digits s h =
    rw (strip_left-digits s h, strip_left-digits (reverse s) (All-reverse_aux s [] h tt))
      (reverse-reverse s)

parse_signed-digits :
    (s : Text) (n : ℕ)
    → All IsDigit s
    → digits_from 0 false s ≡ some n
    → parse_signed s ≡ some (pos n)
unfolding parse_signed
parse_signed-digits [] n h e = absurd (unfold digits_from in cc)
parse_signed-digits (c ∷ s) n (p, h) e = ground arith

length-digit_count : (s : Text) → digit_count s ≤ length s
unfolding digit_count
length-digit_count [] = omega arith
length-digit_count (c ∷ s) = elim (Bool-cases (is_some (decimal_of c))) [
  | inl h ↦ rw h (omega (arith, length-digit_count s))
  | inr h ↦ rw h (omega (arith, length-digit_count s))
]

-- a number that is printed with no more digits than `int` reads
abbrev pub IsReadable : ℕ → Type 0
IsReadable n = length (show_nat n) ≤ max_str_digits

-- `int(str(n)) == n`
pub parse_int-show_nat : (n : ℕ) → IsReadable n → parse_int (show_nat n) ≡ some (pos n)
unfolding parse_int
parse_int-show_nat n few =
    let short : ltb 4300 (digit_count (show_nat n)) ≡ false =
      ground (arith, few, length-digit_count (show_nat n)) in
    rw (strip-digits (show_nat n) (show_nat-digits n), short)
      (parse_signed-digits (show_nat n) n (show_nat-digits n) (digits_from-show_nat n false))
