-- ===== src/Handler/Cache.antt =====
-- The profile cache of manyfaced/handlers/base_handler.py stays within its limit, loses only the
-- least recently used profile, and only to make room.
use manyfaced_honeypot.Base.{
  ℕ, ◌≤◌, ◌<◌, Option, none, some, [], ◌∷◌, ◌++◌, ◌≡◌, refl, arith, if◌then◌else◌, leb, length,
  length-append, Text, Dict, lookup, remove, text_key, text_eq, text_eq_iff, lookup-remove,
  lookup-append, length-remove, HasDistinctKeys, remove-HasDistinctKeys, append-HasDistinctKeys,
  Option-cases, inl, inr, Bool-cases,
}
use manyfaced_honeypot.Handler.{
  move_to_end, evict, get_or_create_profile, get_profile, clear_profile,
}

pub record IsValid {P : Type 0} (limit : ℕ) (d : Dict Text P) : Type 0 where
  pub bounded : length d ≤ limit
  pub distinct : HasDistinctKeys d

module _ {P : Type 0} where
  evict_below : (limit : ℕ) (d : Dict Text P) → length d < limit → evict limit d ≡ some d
  unfolding evict
  evict_below limit [] h = ground arith
  evict_below limit (e ∷ d) h = ground arith

  evict_full :
      (limit : ℕ) (e : Text × P) (d : Dict Text P)
      → length (e ∷ d) ≡ limit
      → evict limit (e ∷ d) ≡ some d
  unfolding evict
  evict_full limit e d h = ground (arith, evict_below limit d)

  move_to_end-IsValid :
      (limit : ℕ) (ip : Text) (p : P) (d : Dict Text P)
      → lookup ip d ≡ some p
      → IsValid limit d
      → IsValid limit (move_to_end ip p d)
  move_to_end-IsValid limit ip p d found v = record {
    bounded =
        omega (
          arith,
          length-append (remove ip d) ((ip, p) ∷ []),
          length-remove ip p d found,
          v.bounded,
        );
    distinct =
        append-HasDistinctKeys ip p (remove ip d) (remove-HasDistinctKeys ip d v.distinct)
          (ground (arith, lookup-remove ip ip d v.distinct, text_eq_iff ip ip));
  }

  -- The cache once there is room for one more profile: without its first entry, if it was full.
  abbrev pub make_room : ℕ → Dict Text P → Dict Text P
  make_room limit [] = []
  make_room limit (e ∷ d) = if leb limit (length (e ∷ d)) then d else e ∷ d

  evict_lem :
      (limit : ℕ) (d : Dict Text P)
      → 0 < limit
      → length d ≤ limit
      → evict limit d ≡ some (make_room limit d)
  evict_lem limit [] positive h = evict_below limit [] (omega arith)
  evict_lem limit (e ∷ d) positive h = elim (Bool-cases (leb limit (length (e ∷ d)))) [
    | inl full ↦ rw full (evict_full limit e d (ground arith))
    | inr room ↦ rw room (evict_below limit (e ∷ d) (ground arith))
  ]

  -- What the cache holds after `get_or_create_profile`: the profile moved to the end, or a new one
  -- there.
  abbrev pub after : ℕ → P → Text → Dict Text P → Option P → Dict Text P
  after limit new ip d (some p) = move_to_end ip p d
  after limit new ip d none = make_room limit d ++ (ip, new) ∷ []

  abbrev pub served : P → Option P → P
  served new none = new
  served new (some p) = p

  make_room-length :
      (limit : ℕ) (d : Dict Text P)
      → 0 < limit
      → length d ≤ limit
      → length (make_room limit d) < limit
  make_room-length limit [] positive h = omega arith
  make_room-length limit (e ∷ d) positive h = ground arith

  make_room-absent :
      (limit : ℕ) (ip : Text) (d : Dict Text P)
      → lookup ip d ≡ none
      → lookup ip (make_room limit d) ≡ none
  unfolding lookup
  make_room-absent limit ip [] h = refl
  make_room-absent limit ip ((j, p) ∷ d) h = ground arith

  make_room-distinct :
      (limit : ℕ) (d : Dict Text P) → HasDistinctKeys d → HasDistinctKeys (make_room limit d)
  make_room-distinct limit [] h = tt
  make_room-distinct limit ((j, p) ∷ d) h = ground arith

  after-IsValid :
      (limit : ℕ) (new : P) (ip : Text) (d : Dict Text P) (o : Option P)
      → lookup ip d ≡ o
      → 0 < limit
      → IsValid limit d
      → IsValid limit (after limit new ip d o)
  after-IsValid limit new ip d (some p) found positive v = move_to_end-IsValid limit ip p d found v
  after-IsValid limit new ip d none missing positive v = record {
    bounded = omega (
      arith,
      length-append (make_room limit d) ((ip, new) ∷ []),
      make_room-length limit d positive v.bounded,
    );
    distinct =
        append-HasDistinctKeys ip new (make_room limit d) (make_room-distinct limit d v.distinct)
          (make_room-absent limit ip d missing);
  }

-- On a cache within a positive limit and with distinct keys, `get_or_create_profile` never raises.
-- It returns the stored profile, moved to the end, or the new one, put there after the first entry
-- went if the cache was full; the result is again within the limit and has distinct keys.
pub get_or_create_profile-after :
    {P : Type 0} (limit : ℕ) (new : P) (ip : Text) (d : Dict Text P)
    → 0 < limit
    → IsValid limit d
    → (get_or_create_profile limit new ip d
        ≡ some (after limit new ip d (lookup ip d), served new (lookup ip d)))
      × IsValid limit (after limit new ip d (lookup ip d))
unfolding get_or_create_profile
get_or_create_profile-after limit new ip d positive v = (
  elim (Option-cases (lookup ip d)) [
    | inl missing ↦ ground (arith, evict_lem limit d positive v.bounded)
    | inr (p, found) ↦ ground arith
  ],
  after-IsValid limit new ip d (lookup ip d) refl positive v,
)

lookup-one :
    {P : Type 0} (j ip : Text) (p : P)
    → lookup j ((ip, p) ∷ []) ≡ (if text_eq ip j then some p else none)
unfolding lookup
lookup-one j ip p = refl

lookup-move_to_end :
    {P : Type 0} (ip j : Text) (p : P) (d : Dict Text P)
    → lookup ip d ≡ some p
    → HasDistinctKeys d
    → lookup j (move_to_end ip p d) ≡ lookup j d
lookup-move_to_end ip j p d found distinct = ground (
  arith,
  lookup-append j (remove ip d) ((ip, p) ∷ []),
  lookup-remove ip j d distinct,
  text_eq_iff ip j,
  lookup-one j ip p,
)

-- `get_profile` keeps the cache valid, returns what is stored and changes no profile;
-- `clear_profile` keeps it valid too, and removes the profile that is named and no other.
pub get_profile-clear_profile :
    {P : Type 0} (limit : ℕ) (ip j : Text) (d : Dict Text P)
    → IsValid limit d
    → IsValid limit (get_profile ip d).0
      × (lookup j (get_profile ip d).0 ≡ lookup j d)
      × ((get_profile ip d).1 ≡ lookup ip d)
      × IsValid limit (clear_profile ip d)
      × (lookup j (clear_profile ip d) ≡ (if text_eq ip j then none else lookup j d))
unfolding get_profile clear_profile
get_profile-clear_profile limit ip j d v = elim (Option-cases (lookup ip d)) [
  | inl missing ↦
      rw (missing, get_profile, clear_profile) (v, refl, refl, v, ground (arith, text_eq_iff ip j))
  | inr (p, found) ↦
      rw (found, get_profile, clear_profile)
        (
          move_to_end-IsValid limit ip p d found v,
          lookup-move_to_end ip j p d found v.distinct,
          refl,
          record {
            bounded = omega (arith, length-remove ip p d found, v.bounded);
            distinct = remove-HasDistinctKeys ip d v.distinct;
          },
          lookup-remove ip j d v.distinct,
        )
]
