-- ===== src/Extractors/Sessions.antt =====
-- What manyfaced/client/cred_extractors.py reads of a session of USER and PASS commands.
use manyfaced_honeypot.Base.{
  ℕ, false, List, [], ◌∷◌, ◌++◌, ◌==◌, Text, codes, append-nil, is_empty, is_space, starts_with,
  strip, strip_left, upper, upper_char, All, All-append, ◌≡◌, refl, sym, ap, ◌∙◌, subst, arith,
}
use mathlib.Core.List.{reverse, reverse-append, reverse-reverse}
use manyfaced_honeypot.Extractors.{
  is_break, split_lines, Login, nobody, login_line, login_lines, login_text,
  extract_pop3_credentials,
}

-- no white space
abbrev pub IsWord : Text → Type 0
IsWord = All (λ c. is_space c ≡ false)

strip_left-word : (s t : Text) → IsWord s → is_empty s ≡ false → strip_left (s ++ t) ≡ s ++ t
unfolding strip_left
strip_left-word [] t w n = cc
strip_left-word (c ∷ s) t (p, w) n = rw p refl

not_break : (c : ℕ) → is_space c ≡ false → (is_break c ≡ false) × ((c == 13) ≡ false)
unfolding is_space
not_break c h = ground arith

split_lines-word :
    (s rest : Text) → IsWord s → split_lines (s ++ 13 ∷ 10 ∷ rest) ≡ s ∷ split_lines rest
unfolding split_lines
split_lines-word [] rest w = refl
split_lines-word (c ∷ s) rest (p, w) =
    let (no_break, no_cr) = not_break c p in rw (no_cr, no_break, split_lines-word s rest w) refl

reverse-IsWord : (s : Text) → IsWord s → IsWord (reverse s)
reverse-IsWord [] w = tt
reverse-IsWord (c ∷ s) (p, w) =
    subst IsWord (sym (reverse-append (c ∷ []) s))
      (All-append (λ x. is_space x ≡ false) (reverse s) (c ∷ []) (reverse-IsWord s w) (p, tt))

not_empty-append : (s : Text) (c : ℕ) → is_empty (s ++ c ∷ []) ≡ false
not_empty-append [] c = refl
not_empty-append (d ∷ s) c = refl

not_empty-reverse : (s : Text) → is_empty s ≡ false → is_empty (reverse s) ≡ false
not_empty-reverse [] n = cc
not_empty-reverse (c ∷ s) n =
    subst (λ l. is_empty l ≡ false) (sym (reverse-append (c ∷ []) s))
      (not_empty-append (reverse s) c)

-- A text that starts with no white space and ends with a word is not stripped.
strip-word :
    (s t : Text)
    → strip_left (s ++ t) ≡ s ++ t
    → IsWord t
    → is_empty t ≡ false
    → strip (s ++ t) ≡ s ++ t
unfolding strip
strip-word s t h w n =
    ap (λ l. reverse (strip_left (reverse l))) h
    ∙ ap (λ l. reverse (strip_left l)) (reverse-append s t)
    ∙ ap reverse
        (strip_left-word (reverse t) (reverse s) (reverse-IsWord t w) (not_empty-reverse t n))
    ∙ ap reverse (sym (reverse-append s t))
    ∙ reverse-reverse (s ++ t)

-- a command of a session, and what it does to what is known
pub data Command : Type 0 where
  user_command pass_command : Text → Command

abbrev pub argument : Command → Text
argument (user_command t) = t
argument (pass_command t) = t

abbrev pub line_of : Command → Text
line_of (user_command t) = codes "USER " ++ t
line_of (pass_command t) = codes "PASS " ++ t

abbrev pub set : Command → Login → Login
set (user_command t) st = record st { user = t }
set (pass_command t) st = record st { pw = t }

unfoldable pub wire_of : List Command → Text
wire_of [] = []
wire_of (c ∷ cs) = line_of c ++ 13 ∷ 10 ∷ wire_of cs

unfoldable pub final : List Command → Login → Login
final [] st = st
final (c ∷ cs) st = final cs (set c st)

-- The argument is a word that is not empty.
abbrev pub IsPlain : Command → Type 0
IsPlain c = IsWord (argument c) × (is_empty (argument c) ≡ false)

strip_of_word : (t : Text) → IsWord t → is_empty t ≡ false → strip t ≡ t
strip_of_word t w n =
    strip-word [] t (subst (λ l. strip_left l ≡ l) (append-nil t) (strip_left-word t [] w n)) w n

login_line-set : (c : Command) (st : Login) → IsPlain c → login_line (line_of c) st ≡ set c st
unfolding login_line upper upper_char starts_with
login_line-set (user_command t) st (w, n) = rw (strip_of_word t w n) refl
login_line-set (pass_command t) st (w, n) = rw (strip_of_word t w n) refl

strip-line_of : (c : Command) → IsPlain c → strip (line_of c) ≡ line_of c
strip-line_of (user_command t) (w, n) =
    strip-word (codes "USER ") t (unfold strip_left is_space in refl) w n
strip-line_of (pass_command t) (w, n) =
    strip-word (codes "PASS ") t (unfold strip_left is_space in refl) w n

split_lines-line_of :
    (c : Command) (rest : Text)
    → IsPlain c
    → split_lines (line_of c ++ 13 ∷ 10 ∷ rest) ≡ line_of c ∷ split_lines rest
unfolding split_lines
split_lines-line_of (user_command t) rest (w, n) = rw (split_lines-word t rest w) refl
split_lines-line_of (pass_command t) rest (w, n) = rw (split_lines-word t rest w) refl

login_lines-wire_of :
    (cs : List Command) (st : Login)
    → All IsPlain cs
    → login_lines (split_lines (wire_of cs)) st ≡ final cs st
unfolding login_lines wire_of final
login_lines-wire_of [] st h = unfold split_lines in refl
login_lines-wire_of (c ∷ cs) st (p, h) =
    ap (λ ls. login_lines ls st) (split_lines-line_of c (wire_of cs) p)
    ∙ ap (λ l. login_lines (split_lines (wire_of cs)) (login_line l st)) (strip-line_of c p)
    ∙ ap (login_lines (split_lines (wire_of cs))) (login_line-set c st p)
    ∙ login_lines-wire_of cs (set c st) h

-- From a session of USER and PASS commands, in any number and order, the last name and the last
-- password are captured.
pub extract_pop3_credentials-wire_of :
    (cs : List Command)
    → All IsPlain cs
    → extract_pop3_credentials (wire_of cs) ≡ login_text (final cs nobody)
unfolding extract_pop3_credentials
extract_pop3_credentials-wire_of cs h = ap login_text (login_lines-wire_of cs nobody h)
