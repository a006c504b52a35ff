-- ===== src/Config.antt =====
-- The resolution of a setting, manyfaced/common/config_resolver.py: environment, TOML file, default.
-- The environment and the loaded TOML file are arguments.
pub mod Entries
use manyfaced_honeypot.Base.{
  ℕ, Bool, true, false, Option, none, some, List, [], ◌∷◌, ◌++◌, map, if◌then◌else◌, Text, codes,
  is_empty, or_text, text_in, split_once, split, strip, lower, upper, parse_int, ℤ, Dict, lookup,
  insert, text_key,
}

-- A value of a setting; `other` stands for the remaining types of TOML, by number.
pub data Value : Type 0 where
  bool_value : Bool → Value
  int_value : ℤ → Value
  text_value : Text → Value
  dict_value : Dict Text Text → Value
  list_value : List Text → Value
  tuple_value : List Text → Value
  other : ℕ → Value

abbrev add_pair : Text → Dict Text Text → Dict Text Text
add_pair pair d = elim (split_once (codes ":") pair) [
  | none ↦ d
  | some (k, v) ↦ insert (strip k) (strip v) d
]

abbrev add_pairs : List Text → Dict Text Text → Dict Text Text
add_pairs [] d = d
add_pairs (pair ∷ pairs) d = add_pairs pairs (add_pair (strip pair) d)

-- `_parse_dict_env`, and `_parse_dict_toml` on a text
unfoldable pub parse_dict : Text → Dict Text Text
parse_dict val = add_pairs (split (codes ";") val) []

abbrev pub nonempty_parts : List Text → List Text
nonempty_parts [] = []
nonempty_parts (p ∷ ps) =
    let rest = nonempty_parts ps in if is_empty (strip p) then rest else strip p ∷ rest

abbrev int_or : Value → Option ℤ → Value
int_or default none = default
int_or default (some z) = int_value z

abbrev dict_or : Value → Dict Text Text → Value
dict_or default [] = default
dict_or default (e ∷ d) = dict_value (e ∷ d)

abbrev list_or : Value → List Text → Value
list_or default [] = default
list_or default (x ∷ l) = list_value (x ∷ l)

-- an environment value, for the type of the default
unfoldable pub of_env : Value → Text → Value
of_env (bool_value b) val =
    bool_value (text_in (lower val) (codes "1" ∷ codes "true" ∷ codes "yes" ∷ []))
of_env (int_value z) val = int_or (int_value z) (parse_int val)
of_env (dict_value d) val = dict_or (dict_value d) (parse_dict val)
of_env (list_value l) val = list_or (list_value l) (nonempty_parts (split (codes ";") val))
of_env (tuple_value l) val = list_or (tuple_value l) (nonempty_parts (split (codes ";") val))
of_env (text_value t) val = text_value val
of_env (other n) val = text_value val

-- A value of the TOML file, for the type of the default; a bool is an int here.
unfoldable pub of_toml : Value → Value → Value
of_toml (bool_value b) (text_value val) = int_or (bool_value b) (parse_int val)
of_toml (int_value z) (text_value val) = int_or (int_value z) (parse_int val)
of_toml (dict_value d) (text_value val) = dict_or (dict_value d) (parse_dict val)
of_toml default val = val

abbrev toml_lookup : Text → Option (Dict Text Value) → Option Value
toml_lookup key none = none
toml_lookup key (some d) = lookup key d

abbrev env_suffix : Text → Option Text → Text
env_suffix name none = name
env_suffix name (some env_name) = or_text env_name name

-- `resolve_setting`
unfoldable pub resolve_setting :
    Text → Value → Text → Option (Dict Text Value) → Text → Option Text → Dict Text Text → Value
resolve_setting name default section toml prefix env_name env =
    elim (lookup (prefix ++ upper (env_suffix name env_name)) env) [
      | some val ↦ of_env default val
      | none ↦ elim (toml_lookup (section ++ codes "." ++ name) toml) [
        | some val ↦ of_toml default val
        | none ↦ default
      ]
    ]
