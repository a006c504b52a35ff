-- ===== src/Base/Dicts.antt =====
-- Python dicts in insertion order, over keys with a Boolean equality.
use Prim.Native.Nat.{ℕ, ◌+◌}
use mathlib.Core.Path.{◌≡◌, refl}
use mathlib.Core.Logic.{◌↔◌}
use mathlib.Core.Bool.{Bool, true}
use mathlib.Core.Option.{Option, none, some}
use mathlib.Core.List.{List, [], ◌∷◌, ◌++◌}
use native.Mathlib.Omega.{arith}
use manyfaced_honeypot.Base.Tests.{◌==◌, if◌then◌else◌, ==_iff, is_some}
use manyfaced_honeypot.Base.Lists.{length}
use manyfaced_honeypot.Base.Texts.{Text, text_eq, text_eq_iff}

pub record Eq {ℓ} (K : Type ℓ) : Type ℓ where
  pub beq : K → K → Bool
  pub beq_iff : (a b : K) → (beq a b ≡ true) ↔ (a ≡ b)

instance abbrev pub nat_eq : Eq ℕ
nat_eq = record { beq = ◌==◌; beq_iff = ==_iff }

instance abbrev pub text_key : Eq Text
text_key = record { beq = text_eq; beq_iff = text_eq_iff }

abbrev pub Dict {ℓ κ} : Type ℓ → Type κ → Type (ℓ ⊔ κ)
Dict K V = List (K × V)

module _ {ℓ κ} {K : Type ℓ} {V : Type κ} ⦃e : Eq K⦄ where
  -- `d.get(k)`
  unfoldable pub lookup : K → Dict K V → Option V
  lookup k [] = none
  lookup k ((j, v) ∷ d) = if e.beq j k then some v else lookup k d

  -- `k in d`
  abbrev pub has_key : K → Dict K V → Bool
  has_key k d = is_some (lookup k d)

  -- `d[k] = v`: in place where the key is known, at the end where it is new.
  unfoldable pub insert : K → V → Dict K V → Dict K V
  insert k v [] = (k, v) ∷ []
  insert k v ((j, w) ∷ d) = if e.beq j k then (j, v) ∷ d else (j, w) ∷ insert k v d

  -- `d.pop(k, None)` on a dict, whose keys are distinct.
  unfoldable pub remove : K → Dict K V → Dict K V
  remove k [] = []
  remove k ((j, w) ∷ d) = if e.beq j k then d else (j, w) ∷ remove k d

  -- The keys of a dict are distinct.
  abbrev pub HasDistinctKeys : Dict K V → Type κ
  HasDistinctKeys [] = Unit
  HasDistinctKeys ((k, _) ∷ d) = (lookup k d ≡ none) × HasDistinctKeys d

  pub lookup-insert :
      (k j : K) (v : V) (d : Dict K V)
      → lookup j (insert k v d) ≡ (if e.beq k j then some v else lookup j d)
  unfolding lookup insert
  lookup-insert k j v [] = refl
  lookup-insert k j v ((i, w) ∷ d) =
      ground (arith, e.beq_iff k j, e.beq_iff i k, e.beq_iff i j, lookup-insert k j v d)

  pub lookup-remove :
      (k j : K) (d : Dict K V)
      → HasDistinctKeys d
      → lookup j (remove k d) ≡ (if e.beq k j then none else lookup j d)
  unfolding lookup remove
  lookup-remove k j [] h = ground arith
  lookup-remove k j ((i, w) ∷ d) (fresh, h) =
      ground (arith, e.beq_iff k j, e.beq_iff i k, e.beq_iff i j, lookup-remove k j d h)

  pub lookup-append :
      (j : K) (d d' : Dict K V)
      → lookup j (d ++ d') ≡ (if has_key j d then lookup j d else lookup j d')
  unfolding lookup
  lookup-append j [] d' = refl
  lookup-append j ((i, w) ∷ d) d' = ground (arith, lookup-append j d d')

  pub insert-HasDistinctKeys :
      (k : K) (v : V) (d : Dict K V) → HasDistinctKeys d → HasDistinctKeys (insert k v d)
  unfolding lookup insert
  insert-HasDistinctKeys k v [] h = (refl, tt)
  insert-HasDistinctKeys k v ((j, w) ∷ d) (fresh, h) =
      ground
        (arith, insert-HasDistinctKeys k v d h, lookup-insert k j v d, e.beq_iff j k, e.beq_iff k j)

  pub remove-HasDistinctKeys :
      (k : K) (d : Dict K V) → HasDistinctKeys d → HasDistinctKeys (remove k d)
  unfolding lookup remove
  remove-HasDistinctKeys k [] h = tt
  remove-HasDistinctKeys k ((j, w) ∷ d) (fresh, h) =
      ground (arith, remove-HasDistinctKeys k d h, lookup-remove k j d h)

  -- A fresh entry at the end keeps the keys distinct.
  pub append-HasDistinctKeys :
      (k : K) (v : V) (d : Dict K V)
      → HasDistinctKeys d
      → lookup k d ≡ none
      → HasDistinctKeys (d ++ (k, v) ∷ [])
  unfolding lookup
  append-HasDistinctKeys k v [] h n = (refl, tt)
  append-HasDistinctKeys k v ((j, w) ∷ d) (fresh, h) n = ground (
    arith,
    append-HasDistinctKeys k v d h,
    lookup-append j d ((k, v) ∷ []),
    e.beq_iff j k,
    e.beq_iff k j,
  )

  pub length-remove :
      (k : K) (v : V) (d : Dict K V) → lookup k d ≡ some v → length (remove k d) + 1 ≡ length d
  unfolding lookup remove
  length-remove k v [] h = cc
  length-remove k v ((j, w) ∷ d) h = ground (arith, length-remove k v d)
