-- ===== src/Config/Entries.antt =====
-- The lists that environment variables give, manyfaced/common/config_resolver.py.
use manyfaced_honeypot.Base.{
  Option, some, List, [], ◌∷◌, ◌++◌, ◌≡◌, ◌≢◌, refl, ap, ◌∙◌, Text, codes, Dict, lookup, text_key,
  upper, All, strip, is_empty, false, split, split-last, split-part,
}
use manyfaced_honeypot.Config.{
  Value, list_value, tuple_value, list_or, of_env, resolve_setting, env_suffix, nonempty_parts,
}

-- An entry of a list that an environment variable can hold: not empty, without white space around it,
-- and without a semicolon.
pub record IsEntry (p : Text) : Type 0 where
  pub no_semicolon : All (λ c. c ≢ b';') p
  pub trimmed : strip p ≡ p
  pub filled : is_empty p ≡ false

-- entries with a semicolon between each two
abbrev pub joined : Text → List Text → Text
joined p [] = p
joined p (q ∷ ps) = p ++ b';' ∷ joined q ps

split-joined :
    (p : Text) (ps : List Text)
    → IsEntry p
    → All IsEntry ps
    → split (codes ";") (joined p ps) ≡ p ∷ ps
split-joined p [] is h = split-last b';' p is.no_semicolon
split-joined p (q ∷ ps) is (other, h) =
    split-part b';' p (joined q ps) is.no_semicolon ∙ ap (◌∷◌ p) (split-joined q ps other h)

nonempty_parts-entries : (ps : List Text) → All IsEntry ps → nonempty_parts ps ≡ ps
nonempty_parts-entries [] h = refl
nonempty_parts-entries (p ∷ ps) (is, h) =
    rw (is.trimmed, is.filled, nonempty_parts-entries ps h) refl

-- A setting whose default is a list or a tuple.
pub data IsListLike : Value → Type 0 where
  is_list : (l : List Text) → IsListLike (list_value l)
  is_tuple : (l : List Text) → IsListLike (tuple_value l)

of_env-entries :
    {default : Value} (p : Text) (ps : List Text)
    → IsListLike default
    → IsEntry p
    → All IsEntry ps
    → of_env default (joined p ps) ≡ list_value (p ∷ ps)
unfolding of_env
of_env-entries p ps (is_list l) is h =
    ap (λ parts. list_or (list_value l) (nonempty_parts parts)) (split-joined p ps is h)
    ∙ ap (list_or (list_value l)) (nonempty_parts-entries (p ∷ ps) (is, h))
of_env-entries p ps (is_tuple l) is h =
    ap (λ parts. list_or (tuple_value l) (nonempty_parts parts)) (split-joined p ps is h)
    ∙ ap (list_or (tuple_value l)) (nonempty_parts-entries (p ∷ ps) (is, h))

-- A setting whose default is a list or a tuple is resolved to the list of the entries that its
-- environment variable holds with a semicolon between each two, whatever the TOML file has. The
-- entries are not empty, hold no semicolon and have no white space around them. A tuple becomes a list.
pub resolve_setting-joined :
    (name : Text) (default : Value) (section : Text) (toml : Option (Dict Text Value))
    (prefix : Text) (env_name : Option Text) (env : Dict Text Text) (p : Text) (ps : List Text)
    → IsListLike default
    → IsEntry p
    → All IsEntry ps
    → lookup (prefix ++ upper (env_suffix name env_name)) env ≡ some (joined p ps)
    → resolve_setting name default section toml prefix env_name env ≡ list_value (p ∷ ps)
unfolding resolve_setting
resolve_setting-joined name default section toml prefix env_name env p ps like is h set =
    rw (set, resolve_setting) (of_env-entries p ps like is h)
