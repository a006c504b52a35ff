-- ===== src/Telnet/Passes.antt =====
-- The passes of `extract_telnet_credentials` in manyfaced/handlers/telnet_handler.py over the text that is left
-- of a frame.
use manyfaced_honeypot.Base.{
  ℕ, ◌+◌, Bool, not, ◌&&◌, ◌||◌, Option, none, some, List, [], ◌∷◌, if◌then◌else◌, ◌==◌, drop, Text,
  codes, is_empty, within, contains, starts_with, split, split_once, strip, lower, is_space, length,
  decode_utf8, or_text,
}

-- `re.sub` of a U+00FF and one more character
unfoldable pub remove_pairs : (ℕ → Bool) → Text → Text
remove_pairs second [] = []
remove_pairs second (a ∷ []) = a ∷ []
remove_pairs second (a ∷ b ∷ s) =
    let removed = remove_pairs second s in
    let kept = a ∷ remove_pairs second (b ∷ s) in if a == 0xff && second b then removed else kept

abbrev is_command : ℕ → Bool
is_command c = c == 0xfc || c == 0xfd || c == 0xfe || c == 0xf0 || c == 0xfa

abbrev is_option : ℕ → Bool
is_option c = within 1 0x3f c

-- What was found of a login: an empty text where there is nothing.
pub record Found : Type 0 where
  pub username : Text
  pub password : Text

-- where the needle first stands
abbrev position_of : Text → Text → ℕ
position_of needle s = elim (split_once needle s) [
  | none ↦ 0
  | some (before, after) ↦ length before
]

-- `stripped[idx:].strip()`, after the needle in the lower-cased line
abbrev rest_after : Text → Text → Text
rest_after needle line = strip (drop (position_of needle (lower line) + length needle) line)

-- the first pass, on a stripped line
unfoldable pub prompt_line : Text → Found → Found
prompt_line line f =
    if contains (codes "login:") (lower line)
      && not (starts_with (codes "Password") line || starts_with (codes "password") line)
    then record f { username = or_text (rest_after (codes "login:") line) f.username }
    else if contains (codes "password:") (lower line)
    then record f { password = or_text (rest_after (codes "password:") line) f.password }
    else f

-- the second pass
unfoldable pub bare_line : Text → Found → Found
bare_line line f =
    if not (is_empty line) && not (contains (codes ":") line)
    then if is_empty f.username
      then record f { username = line }
      else if is_empty f.password
      then record f { password = line }
      else f
    else f

-- letters that `re` holds equal, the first in lower case
abbrev same_letter : ℕ → ℕ → Bool
same_letter p c =
    c == p || c + 32 == p || (p == b's' && c == 0x17f) || (p == b'i' && (c == 0x130 || c == 0x131))

unfoldable pub word_at : Text → Text → Option Text
word_at [] s = some s
word_at (p ∷ ps) [] = none
word_at (p ∷ ps) (c ∷ s) = if same_letter p c then word_at ps s else none

unfoldable pub skip_spaces : Text → Text
skip_spaces [] = []
skip_spaces (c ∷ s) = let rest = skip_spaces s in if is_space c then rest else c ∷ s

unfoldable pub first_word : Text → Text
first_word [] = []
first_word (c ∷ s) = let rest = c ∷ first_word s in if is_space c then [] else rest

abbrev filled : Text → Option Text
filled [] = none
filled (c ∷ s) = some (c ∷ s)

-- `\s*[:=]\s*(\S+)`
abbrev after_separator : Text → Option Text
after_separator [] = none
after_separator (c ∷ s) =
    if c == b':' || c == b'=' then filled (first_word (skip_spaces s)) else none

abbrev value_at : Option Text → Option Text
value_at none = none
value_at (some s) = after_separator (skip_spaces s)

abbrev or_option : Option Text → Option Text → Option Text
or_option none o = o
or_option (some s) o = some s

-- `re.search` of two words with a value after them
unfoldable pub search_pair : Text → Text → Text → Option Text
search_pair first second [] = none
search_pair first second (c ∷ s) =
    or_option (value_at (word_at first (c ∷ s)))
      (or_option (value_at (word_at second (c ∷ s))) (search_pair first second s))

abbrev set_missing : Text → Option Text → Text
set_missing [] (some s) = s
set_missing old o = old

-- the third pass
unfoldable pub pair_line : Text → Found → Found
pair_line line f = record {
  username = set_missing f.username (search_pair (codes "user") (codes "login") line);
  password = set_missing f.password (search_pair (codes "pass") (codes "password") line);
}

unfoldable pub run_pass : (Text → Found → Found) → List Text → Found → Found
run_pass pass [] f = f
run_pass pass (line ∷ lines) f = run_pass pass lines (pass (strip line) f)

-- a pass that only runs while something is missing
abbrev pub if_missing : (Text → Found → Found) → List Text → Found → Found
if_missing pass lines f =
    if is_empty f.username || is_empty f.password then run_pass pass lines f else f

abbrev pub found_pair : Found → Option (Text × Text)
found_pair f =
    if not (is_empty f.username) || not (is_empty f.password)
    then some (f.username, f.password)
    else none

unfoldable pub lines_of : Text → List Text
lines_of cleaned =
    split (codes "\n") (remove_pairs is_option (remove_pairs is_command (decode_utf8 cleaned)))

unfoldable pub extract_from : Text → Option (Text × Text)
extract_from cleaned =
    let lines = lines_of cleaned in
    found_pair (
      if_missing pair_line lines (
        if_missing bare_line lines
          (run_pass prompt_line lines (record { username = []; password = [] }))))
