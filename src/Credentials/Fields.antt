-- ===== src/Credentials/Fields.antt =====
-- What the values that manyfaced/common/credential_extractor.py extracts are in the decoded body.
use manyfaced_honeypot.Base.{
  Option, none, some, List, [], ◌∷◌, ◌++◌, ◌≡◌, ◌≢◌, ◌⊎◌, String, Text, codes, All, text_key,
}
use manyfaced_honeypot.Credentials.{extract_field_value}

-- `value` follows a `field=` in the body, up to the next `&` or the end.
pub record IsValue (body field value : Text) : Type 0 where
  pub before : Text
  pub after : Text
  pub body_is : body ≡ before ++ ((field ++ codes "=") ++ (value ++ after))
  pub ends : (after ≡ []) ⊎ ((rest : Text) × (after ≡ b'&' ∷ rest))
  pub nonempty : value ≢ []
  pub no_ampersand : All (λ c. c ≢ b'&') value

-- A text up to its first `&`.
abbrev IsUpTo : Text → Text → Type 0
IsUpTo s part =
    (after : Text) × (s ≡ part ++ after)
    × ((after ≡ []) ⊎ ((rest : Text) × (after ≡ b'&' ∷ rest)))
    × All (λ c. c ≢ b'&') part

-- The value of the first of the fields that has one.
pub data ValueOf (body value : Text) : List String → Type 0 where
  here :
      (field : String) (fields : List String)
      → IsValue body (codes field) value
      → ValueOf body value (field ∷ fields)
  there :
      (field : String) (fields : List String)
      → extract_field_value body (codes field) ≡ none
      → ValueOf body value fields
      → ValueOf body value (field ∷ fields)

-- What a list of fields gives: the first value, or none if no field has one.
abbrev pub FirstOf : Text → List String → Option Text → Type 0
FirstOf body fields none = All (λ field. extract_field_value body (codes field) ≡ none) fields
FirstOf body fields (some value) = ValueOf body value fields
