-- ===== src/Handler/Recency.antt =====
-- The profile cache of manyfaced/handlers/base_handler.py against the history of requests: it holds
-- the addresses that were seen last, as many as the limit allows, in the order of their last visit.
use manyfaced_honeypot.Base.{
  ℕ, suc, ◌+◌, ◌-◌, ◌≤◌, ◌<◌, false, Option, none, some, List, [], ◌∷◌, ◌++◌, ◌≡◌, refl, sym, ap,
  subst, ◌∙◌, arith, if◌then◌else◌, leb, length, length-append, drop, map, Text, Dict, lookup,
  remove, text_key, text_eq, text_eq_iff, inl, inr, Bool-cases, any, leb→le, length-remove,
}
use manyfaced_honeypot.Handler.{get_or_create_profile, move_to_end}
use manyfaced_honeypot.Handler.Cache.{IsValid, after, make_room, get_or_create_profile-after}

abbrev pub keys : {P : Type 0} → Dict Text P → List Text
keys = map (λ e. e.0)

unfoldable pub drop_key : Text → List Text → List Text
drop_key ip [] = []
drop_key ip (j ∷ l) = if text_eq j ip then l else j ∷ drop_key ip l

-- An address that is seen becomes the most recent one.
abbrev pub see : List Text → Text → List Text
see l ip = drop_key ip l ++ ip ∷ []

-- The last `n` of a list.
abbrev pub last_n : ℕ → List Text → List Text
last_n n l = drop (length l - n) l

-- The addresses of a history, each once, in the order of its last visit.
abbrev pub recency : List Text → List Text → List Text
recency l [] = l
recency l (ip ∷ history) = recency (see l ip) history

abbrev IsFresh : Text → List Text → Type 0
IsFresh ip l = any (λ j. text_eq j ip) l ≡ false

abbrev pub IsDistinct : List Text → Type 0
IsDistinct [] = Unit
IsDistinct (j ∷ l) = IsFresh j l × IsDistinct l

drop_key_fresh : (ip : Text) (l : List Text) → IsFresh ip l → drop_key ip l ≡ l
unfolding drop_key
drop_key_fresh ip [] h = refl
drop_key_fresh ip (j ∷ l) h = ground (arith, drop_key_fresh ip l)

IsFresh-drop_key : (ip j : Text) (l : List Text) → IsFresh j l → IsFresh j (drop_key ip l)
unfolding drop_key
IsFresh-drop_key ip j [] h = refl
IsFresh-drop_key ip j (k ∷ l) h = ground (arith, IsFresh-drop_key ip j l)

IsFresh-self : (ip : Text) (l : List Text) → IsDistinct l → IsFresh ip (drop_key ip l)
unfolding drop_key
IsFresh-self ip [] h = refl
IsFresh-self ip (j ∷ l) (p, h) = ground (arith, IsFresh-self ip l h, text_eq_iff j ip)

IsFresh-append :
    (j ip : Text) (l : List Text) → IsFresh j l → text_eq ip j ≡ false → IsFresh j (l ++ ip ∷ [])
IsFresh-append j ip [] h k = ground arith
IsFresh-append j ip (x ∷ l) h k = ground (arith, IsFresh-append j ip l)

append-IsDistinct :
    (ip : Text) (l : List Text) → IsDistinct l → IsFresh ip l → IsDistinct (l ++ ip ∷ [])
append-IsDistinct ip [] h k = (refl, tt)
append-IsDistinct ip (j ∷ l) (p, h) k =
    ground
      (arith, append-IsDistinct ip l h, IsFresh-append j ip l p, text_eq_iff ip j, text_eq_iff j ip)

drop_key-IsDistinct : (ip : Text) (l : List Text) → IsDistinct l → IsDistinct (drop_key ip l)
unfolding drop_key
drop_key-IsDistinct ip [] h = tt
drop_key-IsDistinct ip (j ∷ l) (p, h) =
    ground (arith, drop_key-IsDistinct ip l h, IsFresh-drop_key ip j l p)

see-IsDistinct : (l : List Text) (ip : Text) → IsDistinct l → IsDistinct (see l ip)
see-IsDistinct l ip h =
    append-IsDistinct ip (drop_key ip l) (drop_key-IsDistinct ip l h) (IsFresh-self ip l h)

length-drop_key : (ip : Text) (l : List Text) → length l ≤ length (drop_key ip l) + 1
unfolding drop_key
length-drop_key ip [] = omega arith
length-drop_key ip (j ∷ l) = ground (arith, length-drop_key ip l)

length-see : (ip : Text) (l : List Text) → length l ≤ length (see l ip)
length-see ip l = omega (arith, length-append (drop_key ip l) (ip ∷ []), length-drop_key ip l)

last_n_all : (n : ℕ) (l : List Text) → length l ≤ n → last_n n l ≡ l
last_n_all n l h = let e : length l - n ≡ 0 = omega arith in rw e

last_n-cons : (n : ℕ) (x : Text) (l : List Text) → n ≤ length l → last_n n (x ∷ l) ≡ last_n n l
last_n-cons n x l h = let e : suc (length l) - n ≡ suc (length l - n) = omega arith in rw e

see-cons :
    (n : ℕ) (x ip : Text) (l : List Text)
    → IsFresh x l
    → n ≤ length l
    → last_n n (see (x ∷ l) ip) ≡ last_n n (see l ip)
unfolding drop_key
see-cons n x ip l fresh h = elim (Bool-cases (text_eq x ip)) [
  | inl same ↦
      let equal : x ≡ ip = (text_eq_iff x ip).0 same in
      rw (same, drop_key_fresh ip l (subst (λ y. IsFresh y l) equal fresh))
  | inr other ↦ rw other (last_n-cons n x (see l ip) (omega (arith, length-see ip l)))
]

-- What falls out of the last `n` never comes back by a visit of another address.
last_n-see :
    (n : ℕ) (ip : Text) (l : List Text)
    → IsDistinct l
    → last_n n (see (last_n n l) ip) ≡ last_n n (see l ip)
last_n-see n ip [] h = rw (last_n_all n [] (omega arith))
last_n-see n ip (x ∷ l) (p, h) = elim (Bool-cases (leb (length (x ∷ l)) n)) [
  | inl all_fit ↦ rw (last_n_all n (x ∷ l) (ground arith))
  | inr long ↦
      let short : n ≤ length l = ground arith in
      ap (λ m. last_n n (see m ip)) (last_n-cons n x l short)
      ∙ last_n-see n ip l h
      ∙ sym (see-cons n x ip l p short)
]

keys-remove : {P : Type 0} (ip : Text) (d : Dict Text P) → keys (remove ip d) ≡ drop_key ip (keys d)
unfolding remove drop_key
keys-remove ip [] = refl
keys-remove ip ((j, p) ∷ d) = ground (arith, keys-remove ip d)

keys-append :
    {P : Type 0} (d : Dict Text P) (ip : Text) (p : P)
    → keys (d ++ (ip, p) ∷ []) ≡ keys d ++ ip ∷ []
keys-append [] ip p = refl
keys-append (e ∷ d) ip p = rw (keys-append d ip p)

length-keys : {P : Type 0} (d : Dict Text P) → length (keys d) ≡ length d
length-keys [] = refl
length-keys (e ∷ d) = ap suc (length-keys d)

IsFresh-of_lookup :
    {P : Type 0} (ip : Text) (d : Dict Text P) → lookup ip d ≡ none → IsFresh ip (keys d)
unfolding lookup
IsFresh-of_lookup ip [] h = refl
IsFresh-of_lookup ip ((j, p) ∷ d) h = ground (arith, IsFresh-of_lookup ip d)

-- A run of requests on the cache; `new` makes the profile of an address. `none` is an exception.
unfoldable pub serve :
    {P : Type 0} → ℕ → (Text → P) → List Text → Dict Text P → Option (Dict Text P)
serve limit new [] d = some d
serve limit new (ip ∷ history) d = elim (get_or_create_profile limit (new ip) ip d) [
  | none ↦ none
  | some (d', _) ↦ serve limit new history d'
]

module _ {P : Type 0} (limit : ℕ) (positive : 0 < limit) where
  keys_of_hit :
      (ip : Text) (p : P) (d : Dict Text P)
      → lookup ip d ≡ some p
      → length d ≤ limit
      → keys (move_to_end ip p d) ≡ last_n limit (see (keys d) ip)
  keys_of_hit ip p d found h =
      let same : keys (move_to_end ip p d) ≡ see (keys d) ip =
        keys-append (remove ip d) ip p ∙ ap (λ l. l ++ ip ∷ []) (keys-remove ip d) in
      let size : length (see (keys d) ip) ≤ limit = omega (
        arith,
        length-append (drop_key ip (keys d)) (ip ∷ []),
        ap length (keys-remove ip d),
        length-keys (remove ip d),
        length-remove ip p d found,
      ) in
      same ∙ sym (last_n_all limit (see (keys d) ip) size)

  keys_of_miss :
      (ip : Text) (p : P) (d : Dict Text P)
      → IsFresh ip (keys d)
      → length d ≤ limit
      → keys (make_room limit d ++ (ip, p) ∷ []) ≡ last_n limit (keys d ++ ip ∷ [])
  keys_of_miss ip p [] fresh h = sym (last_n_all limit (ip ∷ []) positive)
  keys_of_miss ip p (e ∷ d) fresh h = elim (Bool-cases (leb limit (length (e ∷ d)))) [
    | inl full ↦
        let fits : length (keys d ++ ip ∷ []) ≤ limit =
          omega (arith, length-append (keys d) (ip ∷ []), length-keys d) in
        let enough : limit ≤ length (keys d ++ ip ∷ []) = omega (
          arith,
          leb→le limit (suc (length d)) full,
          length-append (keys d) (ip ∷ []),
          length-keys d,
        ) in
        rw full (
          keys-append d ip p
          ∙ sym (last_n_all limit (keys d ++ ip ∷ []) fits)
          ∙ sym (last_n-cons limit e.0 (keys d ++ ip ∷ []) enough))
    | inr room ↦
        let fits : length (keys (e ∷ d) ++ ip ∷ []) ≤ limit =
          omega (arith, below room, length-append (keys (e ∷ d)) (ip ∷ []), length-keys d) in
        rw room (keys-append (e ∷ d) ip p ∙ sym (last_n_all limit (keys (e ∷ d) ++ ip ∷ []) fits))
  ]
    where
      below : leb limit (length (e ∷ d)) ≡ false → length (e ∷ d) < limit
      below room = ground arith

  keys-after :
      (new : P) (ip : Text) (d : Dict Text P) (o : Option P)
      → lookup ip d ≡ o
      → length d ≤ limit
      → keys (after limit new ip d o) ≡ last_n limit (see (keys d) ip)
  keys-after new ip d (some p) found h = keys_of_hit ip p d found h
  keys-after new ip d none missing h =
      let fresh = IsFresh-of_lookup ip d missing in
      keys_of_miss ip new d fresh h
      ∙ ap (λ l. last_n limit (l ++ ip ∷ [])) (sym (drop_key_fresh ip (keys d) fresh))

  serve-recency :
      (new : Text → P) (history l : List Text) (d : Dict Text P)
      → IsValid limit d
      → IsDistinct l
      → keys d ≡ last_n limit l
      → (d' : Dict Text P) × (serve limit new history d ≡ some d')
        × IsValid limit d'
        × (keys d' ≡ last_n limit (recency l history))
  unfolding serve
  serve-recency new [] l d v h e = (d, refl, v, e)
  serve-recency new (ip ∷ history) l d v h e =
      let (done, v') = get_or_create_profile-after limit (new ip) ip d positive v in
      let next = after limit (new ip) ip d (lookup ip d) in
      let same : keys next ≡ last_n limit (see l ip) =
        keys-after (new ip) ip d (lookup ip d) refl v.bounded
        ∙ ap (λ m. last_n limit (see m ip)) e
        ∙ last_n-see limit ip l h in
      let (d', ran, valid, last) =
        serve-recency new history (see l ip) next v' (see-IsDistinct l ip h) same in
      (d', rw (done, serve) ran, valid, last)

-- From an empty cache with a positive limit, every history of requests is served without an
-- exception; the cache then holds exactly the addresses seen last, as many as the limit allows,
-- the most recent at the end.
pub serve-last_n :
    {P : Type 0} (limit : ℕ) (new : Text → P) (history : List Text)
    → 0 < limit
    → (d : Dict Text P) × (serve limit new history [] ≡ some d)
      × IsValid limit d
      × (keys d ≡ last_n limit (recency [] history))
serve-last_n limit new history positive =
    serve-recency limit positive new history [] [] (record { bounded = omega arith; distinct = tt })
      tt (sym (last_n_all limit [] (omega arith)))
