-- ===== src/Credentials.antt =====
-- The extraction of form credentials, manyfaced/common/credential_extractor.py.
pub mod Fields
use manyfaced_honeypot.Base.{
  ℕ, Bool, false, Option, none, some, List, [], ◌∷◌, ◌++◌, map, if◌then◌else◌, ◌==◌, String, Text,
  codes, is_empty, text_eq, split_once, contains, words, upper, unquote, Dict, lookup, insert,
  text_key,
}

abbrev pub username_fields : List String
username_fields =
    "log" ∷ "user" ∷ "username" ∷ "login" ∷ "user_login" ∷ "USER_LOGIN" ∷ "j_username" ∷ "uid"
    ∷ "email" ∷ "pma_username" ∷ "server[0][user]" ∷ []

abbrev pub password_fields : List String
password_fields =
    "pwd" ∷ "pass" ∷ "password" ∷ "login_password" ∷ "j_password" ∷ "passwort" ∷ "user_pass"
    ∷ "USER_PASSWORD" ∷ "pma_password" ∷ "server[0][password]" ∷ []

-- `_url_decode`: `unquote_plus`
unfoldable pub url_decode : Text → Text
url_decode body = unquote (map (λ c. if c == b'+' then b' ' else c) body)

-- what stands before the first `&`
abbrev pub first_part : Text → Text
first_part s = elim (split_once (codes "&") s) [ none ↦ s | some (a, _) ↦ a ]

abbrev pub some_text : Text → Option Text
some_text [] = none
some_text (c ∷ s) = some (c ∷ s)

-- `_extract_field_value`
unfoldable pub extract_field_value : Text → Text → Option Text
extract_field_value body field = elim (split_once (field ++ codes "=") body) [
  | none ↦ none
  | some (_, rest) ↦ some_text (first_part rest)
]

-- The loop over a list of field names: the first value.
unfoldable pub first_value : Text → List String → Option Text
first_value body [] = none
first_value body (field ∷ fields) = elim (extract_field_value body (codes field)) [
  | none ↦ first_value body fields
  | some value ↦ some value
]

abbrev add_value : Text → Option Text → Dict Text Text → Dict Text Text
add_value key none d = d
add_value key (some value) d = insert key value d

abbrev some_dict : Dict Text Text → Option (Dict Text Text)
some_dict [] = none
some_dict (e ∷ d) = some (e ∷ d)

-- the dictionary that is returned
abbrev pub collect : Option Text → Option Text → Option (Dict Text Text)
collect username password =
    some_dict (add_value (codes "password") password (add_value (codes "username") username []))

abbrev pub is_post : List Text → Bool
is_post [] = false
is_post (method ∷ _) = text_eq (upper method) (codes "POST")

-- `extract_http_credentials`
unfoldable pub extract_http_credentials : Text → Option (Dict Text Text)
extract_http_credentials raw =
    if is_post (words raw)
    then elim (split_once (codes "\r\n\r\n") raw) [
      | none ↦ none
      | some (_, body) ↦
          let decoded = url_decode body in
          collect (first_value decoded username_fields) (first_value decoded password_fields)
    ]
    else none

abbrev part : Text → Option Text → List Text
part label none = []
part label (some value) = (label ++ value) ∷ []

abbrev join_parts : List Text → Option Text
join_parts [] = none
join_parts (p ∷ []) = some p
join_parts (p ∷ q ∷ ps) = some (p ++ codes ", " ++ q)

-- `format_creds_string`
unfoldable pub format_creds_string : Option (Dict Text Text) → Option Text
format_creds_string none = none
format_creds_string (some creds) = join_parts (
    part (codes "user=") (lookup (codes "username") creds)
    ++ part (codes "pass=") (lookup (codes "password") creds))
