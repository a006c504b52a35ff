-- ===== src/Handler.antt =====
-- The profile cache of HTTPHandlerBase, manyfaced/handlers/base_handler.py: an OrderedDict whose
-- last entry is the most recently used. Each operation runs under the handler's lock.
pub mod Cache
pub mod Recency
use manyfaced_honeypot.Base.{
  ℕ, Option, none, some, List, [], ◌∷◌, ◌++◌, map, if◌then◌else◌, leb, length, Text, Dict, lookup,
  remove, text_key,
}

module _ {P : Type 0} where
  -- `move_to_end`, of an entry that is there
  abbrev pub move_to_end : Text → P → Dict Text P → Dict Text P
  move_to_end ip p d = remove ip d ++ (ip, p) ∷ []

  -- `while len(d) >= limit: d.popitem(last=False)`; `none` is the KeyError of an empty dict.
  unfoldable pub evict : ℕ → Dict Text P → Option (Dict Text P)
  evict limit [] = if leb limit 0 then none else some []
  evict limit (e ∷ d) =
      let rest = evict limit d in if leb limit (length (e ∷ d)) then rest else some (e ∷ d)

  abbrev added : Text → P → Option (Dict Text P) → Option (Dict Text P × P)
  added ip p none = none
  added ip p (some d) = some (d ++ (ip, p) ∷ [], p)

  -- `get_or_create_profile`, where `new` is the profile that it would create
  unfoldable pub get_or_create_profile : ℕ → P → Text → Dict Text P → Option (Dict Text P × P)
  get_or_create_profile limit new ip d = elim (lookup ip d) [
    | some p ↦ some (move_to_end ip p d, p)
    | none ↦ added ip new (evict limit d)
  ]

  -- `get_profile`
  unfoldable pub get_profile : Text → Dict Text P → Dict Text P × Option P
  get_profile ip d = elim (lookup ip d) [ some p ↦ (move_to_end ip p d, some p) | none ↦ (d, none) ]

  -- `clear_profile`
  unfoldable pub clear_profile : Text → Dict Text P → Dict Text P
  clear_profile ip d = elim (lookup ip d) [ some p ↦ remove ip d | none ↦ d ]

  -- `get_all_profiles`
  unfoldable pub get_all_profiles : Dict Text P → List P
  get_all_profiles = map (λ e. e.1)
