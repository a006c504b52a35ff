-- ===== src/Base/Texts.antt =====
-- Python texts (code points) and byte strings (bytes) as lists of numbers, and the methods of
-- `str` that the program uses. `lower` and `upper` follow the Unicode tables on Latin-1 and on
-- every character with an ASCII letter in its image; other characters keep their code point.
use Prim.Native.Nat.{ℕ, zero, suc, ◌+◌, ◌-◌, ◌<◌}
use Prim.Native.Char.{code}
use Prim.Native.String.{String}
use mathlib.Core.Path.{◌≡◌, refl, ap}
use mathlib.Core.Logic.{◌↔◌, ◌≢◌, inl, inr}
use mathlib.Core.Bool.{Bool, true, false, not, ◌&&◌, ◌||◌}
use mathlib.Core.Option
use mathlib.Core.Option.{Option, none, some}
use mathlib.Core.List.{List, [], ◌∷◌, ◌++◌, reverse}
use native.Mathlib.Omega.{arith}
use manyfaced_honeypot.Base.Tests.{◌==◌, if◌then◌else◌, within, is_some, Bool-cases}
use manyfaced_honeypot.Base.Lists.{All, drop, length, any, all}

abbrev pub Text : Type 0
Text = List ℕ

abbrev pub codes : String → Text
codes String.[] = []
codes (String.◌∷◌ c s) = code c ∷ codes s

-- `s == t`
unfoldable pub text_eq : Text → Text → Bool
text_eq [] [] = true
text_eq [] (y ∷ ys) = false
text_eq (x ∷ xs) [] = false
text_eq (x ∷ xs) (y ∷ ys) = x == y && text_eq xs ys

text_eq→eq : (s t : Text) → text_eq s t ≡ true → s ≡ t
unfolding text_eq
text_eq→eq [] [] h = refl
text_eq→eq [] (y ∷ ys) h = cc
text_eq→eq (x ∷ xs) [] h = cc
text_eq→eq (x ∷ xs) (y ∷ ys) h = ground (arith, text_eq→eq xs ys)

pub text_eq_refl : (s : Text) → text_eq s s ≡ true
unfolding text_eq
text_eq_refl [] = refl
text_eq_refl (x ∷ xs) = ground (arith, text_eq_refl xs)

pub text_eq_iff : (s t : Text) → (text_eq s t ≡ true) ↔ (s ≡ t)
text_eq_iff s t = (text_eq→eq s t, λ e. rw e (text_eq_refl t))

-- `s in (…)`
abbrev pub text_in : Text → List Text → Bool
text_in s = any (text_eq s)

-- `not s`
abbrev pub is_empty {ℓ} : {A : Type ℓ} → List A → Bool
is_empty [] = true
is_empty (_ ∷ _) = false

-- `a or b` on texts
abbrev pub or_text : Text → Text → Text
or_text [] t = t
or_text (c ∷ s) t = c ∷ s

-- `s.startswith(p)`, the prefix first
unfoldable pub starts_with : Text → Text → Bool
starts_with [] s = true
starts_with (p ∷ ps) [] = false
starts_with (p ∷ ps) (c ∷ s) = p == c && starts_with ps s

pub starts_with-append : (p s : Text) → starts_with p (p ++ s) ≡ true
unfolding starts_with
starts_with-append [] s = refl
starts_with-append (x ∷ p) s = ground (arith, starts_with-append p s)

pub starts_with_sound : (p s : Text) → starts_with p s ≡ true → s ≡ p ++ drop (length p) s
unfolding starts_with
starts_with_sound [] s h = refl
starts_with_sound (x ∷ p) [] h = cc
starts_with_sound (x ∷ p) (c ∷ s) h = ground (arith, starts_with_sound p s)

-- `needle in s`
unfoldable pub contains : Text → Text → Bool
contains needle [] = starts_with needle []
contains needle (c ∷ s) = starts_with needle (c ∷ s) || contains needle s

-- `s.split(sep, 1)` and `s.partition(sep)`; `none` where the separator is not found.
unfoldable pub split_once : Text → Text → Option (Text × Text)
unfolding starts_with
split_once sep [] = none
split_once sep (c ∷ s) =
    if starts_with sep (c ∷ s)
    then some ([], drop (length sep) (c ∷ s))
    else Option.map (λ (a, b). (c ∷ a, b)) (split_once sep s)

-- A found separator stands between the two parts.
pub split_once_sound : (sep s a b : Text) → split_once sep s ≡ some (a, b) → s ≡ a ++ (sep ++ b)
unfolding split_once
split_once_sound sep [] a b h = cc
split_once_sound sep (c ∷ s) a b h = elim (Bool-cases (starts_with sep (c ∷ s))) [
  | inl found ↦ ground (arith, starts_with_sound sep (c ∷ s))
  | inr later ↦
      let ((a', b'), e, same) = (Option.map-eq-some_iff _ _).0 (rw later at h) in
      ground (arith, split_once_sound sep s a' b')
]

abbrev cons_head : ℕ → List Text → List Text
cons_head c [] = (c ∷ []) ∷ []
cons_head c (part ∷ parts) = (c ∷ part) ∷ parts

-- `s.split(sep)`; the first argument counts what is left of a separator to pass over.
split_from : ℕ → Text → Text → List Text
split_from skip sep [] = [] ∷ []
split_from (suc skip) sep (c ∷ s) = split_from skip sep s
split_from zero sep (c ∷ s) =
    let next = split_from (length sep - 1) sep s in
    let more = cons_head c (split_from zero sep s) in
    if starts_with sep (c ∷ s) then [] ∷ next else more

unfoldable pub split : Text → Text → List Text
unfolding split_from starts_with
split sep s = split_from zero sep s

other_char : (k c : ℕ) (s : Text) → c ≢ k → starts_with (k ∷ []) (c ∷ s) ≡ false
unfolding starts_with
other_char k c s n = ground arith

same_char : (k : ℕ) (s : Text) → starts_with (k ∷ []) (k ∷ s) ≡ true
unfolding starts_with
same_char k s = ground arith

-- A part without the separator is the last part, or the first of those that follow.
pub split-last : (k : ℕ) (p : Text) → All (λ c. c ≢ k) p → split (k ∷ []) p ≡ p ∷ []
unfolding split
split-last k [] h = refl
split-last k (c ∷ p) (n, h) =
    let rest : split_from zero (k ∷ []) p ≡ p ∷ [] = split-last k p h in
    rw (other_char k c p n, rest) refl

pub split-part :
    (k : ℕ) (p s : Text) → All (λ c. c ≢ k) p → split (k ∷ []) (p ++ k ∷ s) ≡ p ∷ split (k ∷ []) s
unfolding split
split-part k [] s h = rw (same_char k s) refl
split-part k (c ∷ p) s (n, h) =
    let rest : split_from zero (k ∷ []) (p ++ k ∷ s) ≡ p ∷ split_from zero (k ∷ []) s =
      split-part k p s h in
    rw (other_char k c (p ++ k ∷ s) n, rest) refl

-- White space as `str.isspace` knows it.
unfoldable pub is_space : ℕ → Bool
is_space c =
    within 9 13 c
    || within 28 32 c
    || c == 0x85
    || c == 0xa0
    || c == 0x1680
    || within 0x2000 0x200a c
    || c == 0x2028
    || c == 0x2029
    || c == 0x202f
    || c == 0x205f
    || c == 0x3000

-- `s.lstrip()` and `s.strip()`
unfoldable pub strip_left : Text → Text
unfolding is_space
strip_left [] = []
strip_left (c ∷ s) = let rest = strip_left s in if is_space c then rest else c ∷ s

unfoldable pub strip : Text → Text
unfolding strip_left
strip s = reverse (strip_left (reverse (strip_left s)))

add_word : Text → List Text → List Text
add_word [] ws = ws
add_word (c ∷ w) ws = (c ∷ w) ∷ ws

-- `s.split()`: the word being read, and the words after it.
words_from : Text → Text × List Text
words_from [] = ([], [])
words_from (c ∷ s) =
    let (w, ws) = words_from s in if is_space c then ([], add_word w ws) else (c ∷ w, ws)

unfoldable pub words : Text → List Text
unfolding words_from add_word is_space
words s = let (w, ws) = words_from s in add_word w ws

-- `s.lower()`
unfoldable pub lower_char : ℕ → Text
lower_char c =
    if within b'A' b'Z' c || within 0xc0 0xd6 c || within 0xd8 0xde c
    then (c + 32) ∷ []
    else if c == 0x130
    then 0x69 ∷ 0x307 ∷ []
    else if c == 0x212a
    then b'k' ∷ []
    else c ∷ []

unfoldable pub lower : Text → Text
unfolding lower_char
lower [] = []
lower (c ∷ s) = lower_char c ++ lower s

abbrev special_upper : List (ℕ × Text)
special_upper =
    (0xb5, 0x39c ∷ [])
    ∷ (0xdf, codes "SS")
    ∷ (0xff, 0x178 ∷ [])
    ∷ (0x131, codes "I")
    ∷ (0x149, 0x2bc ∷ codes "N")
    ∷ (0x17f, codes "S")
    ∷ (0x1f0, b'J' ∷ 0x30c ∷ [])
    ∷ (0x1e96, b'H' ∷ 0x331 ∷ [])
    ∷ (0x1e97, b'T' ∷ 0x308 ∷ [])
    ∷ (0x1e98, b'W' ∷ 0x30a ∷ [])
    ∷ (0x1e99, b'Y' ∷ 0x30a ∷ [])
    ∷ (0x1e9a, b'A' ∷ 0x2be ∷ [])
    ∷ (0xfb00, codes "FF")
    ∷ (0xfb01, codes "FI")
    ∷ (0xfb02, codes "FL")
    ∷ (0xfb03, codes "FFI")
    ∷ (0xfb04, codes "FFL")
    ∷ (0xfb05, codes "ST")
    ∷ (0xfb06, codes "ST")
    ∷ []

special_of : ℕ → List (ℕ × Text) → Text
special_of c [] = c ∷ []
special_of c ((x, t) ∷ rest) = if c == x then t else special_of c rest

-- `s.upper()`
unfoldable pub upper_char : ℕ → Text
unfolding special_of
upper_char c =
    if within b'a' b'z' c || within 0xe0 0xf6 c || within 0xf8 0xfe c
    then (c - 32) ∷ []
    else special_of c special_upper

unfoldable pub upper : Text → Text
unfolding upper_char
upper [] = []
upper (c ∷ s) = upper_char c ++ upper s

abbrev pub is_digit_ascii : ℕ → Bool
is_digit_ascii = within b'0' b'9'

-- The zeros of the decimal digits (Nd) of Unicode 15 beyond ASCII; the nine others follow each.
abbrev decimal_zeros : List ℕ
decimal_zeros =
    1632 ∷ 1776 ∷ 1984 ∷ 2406 ∷ 2534 ∷ 2662 ∷ 2790 ∷ 2918 ∷ 3046 ∷ 3174 ∷ 3302 ∷ 3430 ∷ 3558 ∷ 3664
    ∷ 3792 ∷ 3872 ∷ 4160 ∷ 4240 ∷ 6112 ∷ 6160 ∷ 6470 ∷ 6608 ∷ 6784 ∷ 6800 ∷ 6992 ∷ 7088 ∷ 7232
    ∷ 7248 ∷ 42528 ∷ 43216 ∷ 43264 ∷ 43472 ∷ 43504 ∷ 43600 ∷ 44016 ∷ 65296 ∷ 66720 ∷ 68912 ∷ 69734
    ∷ 69872 ∷ 69942 ∷ 70096 ∷ 70384 ∷ 70736 ∷ 70864 ∷ 71248 ∷ 71360 ∷ 71472 ∷ 71904 ∷ 72016 ∷ 72784
    ∷ 73040 ∷ 73120 ∷ 73552 ∷ 92768 ∷ 92864 ∷ 93008 ∷ 120782 ∷ 120792 ∷ 120802 ∷ 120812 ∷ 120822
    ∷ 123200 ∷ 123632 ∷ 124144 ∷ 125264 ∷ 130032 ∷ []

abbrev find_decimal : List ℕ → ℕ → Option ℕ
find_decimal [] c = none
find_decimal (z ∷ zs) c =
    let rest = find_decimal zs c in if within z (z + 9) c then some (c - z) else rest

-- the value of a decimal digit
unfoldable pub decimal_of : ℕ → Option ℕ
decimal_of c = if is_digit_ascii c then some (c - 48) else find_decimal decimal_zeros c

pub decimal_of-digit : (d : ℕ) → d < 10 → decimal_of (48 + d) ≡ some d
unfolding decimal_of
decimal_of-digit d h =
    let ascii : is_digit_ascii (48 + d) ≡ true = ground arith in
    let same : 48 + d - 48 ≡ d = omega arith in rw ascii (ap some same)

-- The other digits of Unicode 15: superscripts, subscripts, and digits in circles and the like.
abbrev other_digits : List (ℕ × ℕ)
other_digits =
    (178, 179)
    ∷ (185, 185)
    ∷ (4969, 4977)
    ∷ (6618, 6618)
    ∷ (8304, 8304)
    ∷ (8308, 8313)
    ∷ (8320, 8329)
    ∷ (9312, 9320)
    ∷ (9332, 9340)
    ∷ (9352, 9360)
    ∷ (9450, 9450)
    ∷ (9461, 9469)
    ∷ (9471, 9471)
    ∷ (10102, 10110)
    ∷ (10112, 10120)
    ∷ (10122, 10130)
    ∷ (68160, 68163)
    ∷ (69216, 69224)
    ∷ (69714, 69722)
    ∷ (127232, 127242)
    ∷ []

abbrev is_among : ℕ → List (ℕ × ℕ) → Bool
is_among c [] = false
is_among c ((low, high) ∷ ranges) = within low high c || is_among c ranges

-- `c.isdigit()`
unfoldable pub is_digit_char : ℕ → Bool
is_digit_char c = is_some (decimal_of c) || is_among c other_digits

-- `s.isdigit()`
abbrev pub is_digit : Text → Bool
is_digit s = not (is_empty s) && all is_digit_char s
