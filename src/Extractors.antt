-- ===== src/Extractors.antt =====
-- manyfaced/client/cred_extractors.py: the credentials in the frames of the POP3, IMAP, FTP, MySQL and MSSQL
-- faces. A frame is bytes, which Latin-1 decodes to themselves; the UTF-16 decoder is a parameter.
pub mod Sessions
use manyfaced_honeypot.Base.{
  ℕ, zero, suc, ◌+◌, ◌*◌, Bool, true, false, not, ◌&&◌, ◌||◌, Option, none, some, List, [], ◌∷◌,
  ◌++◌, if◌then◌else◌, ◌==◌, ltb, leb, within, take, drop, length, get_elem?, Text, codes, is_empty,
  starts_with, contains, split_once, strip, upper, words,
}

abbrev pub is_break : ℕ → Bool
is_break c = within 10 13 c || within 28 30 c || c == 0x85 || c == 0x2028 || c == 0x2029

abbrev pub cons_line : ℕ → List Text → List Text
cons_line c [] = (c ∷ []) ∷ []
cons_line c (l ∷ ls) = (c ∷ l) ∷ ls

abbrev is_newline_first : Text → Bool
is_newline_first [] = false
is_newline_first (c ∷ s) = c == 10

-- `s.splitlines()`; CR LF is one break.
unfoldable pub split_lines : Text → List Text
split_lines [] = []
split_lines (c ∷ s) =
    let rest = split_lines s in
    if c == 13 && is_newline_first s
    then rest
    else if is_break c
    then [] ∷ rest
    else cons_line c rest

-- what is known of a login; a missing text is empty
pub record Login : Type 0 where
  pub user : Text
  pub pw : Text

abbrev pub nobody : Login
nobody = record { user = []; pw = [] }

-- the two tests on a stripped line
unfoldable pub login_line : Text → Login → Login
login_line ll st =
    if starts_with (codes "USER ") (upper ll)
    then record st { user = strip (drop 5 ll) }
    else if starts_with (codes "PASS ") (upper ll)
    then record st { pw = strip (drop 5 ll) }
    else st

unfoldable pub login_lines : List Text → Login → Login
login_lines [] st = st
login_lines (line ∷ lines) st = login_lines lines (login_line (strip line) st)

unfoldable pub login_text : Login → Option Text
login_text st =
    if is_empty st.user && is_empty st.pw then none else some (st.user ++ (b':' ∷ st.pw))

-- `extract_pop3_credentials`
unfoldable pub extract_pop3_credentials : Text → Option Text
extract_pop3_credentials raw = login_text (login_lines (split_lines raw) nobody)

-- `extract_ftp_credentials`
abbrev pub extract_ftp_credentials : Text → Option Text
extract_ftp_credentials raw = login_text (login_lines (split_lines raw) nobody)

-- the first two words after the verb, where there are two
abbrev pub first_two : List Text → Option Login
first_two [] = none
first_two (u ∷ []) = none
first_two (u ∷ p ∷ ws) = some (record { user = u; pw = p })

abbrev pub after_verb : Option (Text × Text) → Option Login
after_verb none = none
after_verb (some (before, after)) = first_two (words after)

-- The loop of `extract_imap_credentials`, on the upper-cased line after the verb.
unfoldable pub imap_lines : List Text → Login → Login
imap_lines [] st = st
imap_lines (line ∷ lines) st =
    let ll = strip line in
    elim (contains (codes "LOGIN ") (upper ll)) [
      | true ↦ elim (after_verb (split_once (codes "LOGIN ") (upper ll))) [
        | some login ↦ login
        | none ↦ imap_lines lines st
      ]
      | false ↦ imap_lines lines (login_line ll st)
    ]

-- `extract_imap_credentials`
unfoldable pub extract_imap_credentials : Text → Option Text
extract_imap_credentials raw = login_text (imap_lines (split_lines raw) nobody)

abbrev pub named : Text → Option Text
named [] = none
named (c ∷ s) = some (c ∷ s ++ codes ":")

abbrev before_nul : Text → Text
before_nul [] = []
before_nul (c ∷ s) = let rest = c ∷ before_nul s in if c == 0 then [] else rest

-- `extract_mysql_credentials`
unfoldable pub extract_mysql_credentials : Text → Option Text
extract_mysql_credentials raw = if ltb (length raw) 8 then none else named (before_nul (drop 8 raw))

-- `struct.unpack('<H', raw[i : i + 2])` of a frame that is long enough
abbrev pub u16_at : Text → ℕ
u16_at (a ∷ b ∷ s) = a + 256 * b
u16_at s = 0

-- `extract_mssql_credentials`
unfoldable pub extract_mssql_credentials : (Text → Text) → Text → Option Text
extract_mssql_credentials decode_utf16 raw =
    let user_len = u16_at (drop 44 raw) in
    let user_pos = u16_at (drop 48 raw) in
    if ltb (length raw) 50 || not (starts_with (0x10 ∷ []) raw)
    then none
    else if not (user_len == 0) && not (user_pos == 0) && leb (user_pos + user_len) (length raw)
    then named (decode_utf16 (take user_len (drop user_pos raw)))
    else none
