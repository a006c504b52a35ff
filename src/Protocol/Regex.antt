-- ===== src/Protocol/Regex.antt =====
-- The byte patterns of Python's `re` that manyfaced/common/protocol.py uses, as `Pattern.match`
-- tries them: anchored at the start, alternatives from left to right, repetition greedy or lazy,
-- with backtracking. A repeated pattern is always a class of bytes, and so the matcher recurs on
-- the pattern and, under a repetition, on the input: it needs no fuel.
use manyfaced_honeypot.Base.{
  ℕ, Bool, true, Option, Bool-cases, Option-cases, ◌∙◌, none, some, [], ◌∷◌, ◌++◌, ◌≡◌, ◌↔◌, refl,
  ap, ◌⊎◌, inl, inr, arith, if◌then◌else◌, is_some, All, Text,
}

abbrev pub Class : Type 0
Class = ℕ → Bool

pub data Regex : Type 0 where
  eps : Regex
  one : Class → Regex
  seq alt : Regex → Regex → Regex
  -- `c*` and `c*?`
  many many_lazy : Class → Regex
  -- `(?!r)`
  not_ahead : Regex → Regex

-- What a pattern's continuation makes of the rest of the input, the first success in the order in
-- which `re` tries.
abbrev or_else {ℓ} : {A : Type ℓ} → Option A → Option A → Option A
or_else (some a) o = some a
or_else none o = o

module _ {A : Type 0} where
  many_then : Class → (Text → Option A) → Text → Option A
  many_then c k [] = k []
  many_then c k (b ∷ s) =
      let longer = many_then c k s in if c b then or_else longer (k (b ∷ s)) else k (b ∷ s)

  many_lazy_then : Class → (Text → Option A) → Text → Option A
  many_lazy_then c k [] = k []
  many_lazy_then c k (b ∷ s) =
      let longer = many_lazy_then c k s in or_else (k (b ∷ s)) (if c b then longer else none)

  one_then : Class → (Text → Option A) → Text → Option A
  one_then c k [] = none
  one_then c k (b ∷ s) = if c b then k s else none

  guard_not : Option Text → Option A → Option A
  guard_not none o = o
  guard_not (some _) o = none

unfoldable pub matches_then : Regex → {A : Type 0} → (Text → Option A) → Text → Option A
unfolding many_then many_lazy_then one_then guard_not
matches_then eps k s = k s
matches_then (one c) k s = one_then c k s
matches_then (seq r q) k s = matches_then r (λ t. matches_then q k t) s
matches_then (alt r q) k s = or_else (matches_then r k s) (matches_then q k s)
matches_then (many c) k s = many_then c k s
matches_then (many_lazy c) k s = many_lazy_then c k s
matches_then (not_ahead r) k s = guard_not (matches_then r (λ t. some t) s) (k s)

-- The language of a pattern, with no order in it: `Matches r s t` says that `r` may read `s` up to
-- its rest `t`.
abbrev pub Matches : Regex → Text → Text → Type 0
Matches eps s t = s ≡ t
Matches (one c) s t = (b : ℕ) × (s ≡ b ∷ t) × (c b ≡ true)
Matches (seq r q) s t = (u : Text) × Matches r s u × Matches q u t
Matches (alt r q) s t = Matches r s t ⊎ Matches q s t
Matches (many c) s t = (p : Text) × (s ≡ p ++ t) × All (λ b. c b ≡ true) p
Matches (many_lazy c) s t = (p : Text) × (s ≡ p ++ t) × All (λ b. c b ≡ true) p
Matches (not_ahead r) s t = (s ≡ t) × ((u : Text) → ¬ Matches r s u)

module _ {A : Type 0} where
  many_then_sound :
      (c : Class) (k : Text → Option A) (s : Text) (a : A)
      → many_then c k s ≡ some a
      → (t : Text) × Matches (many c) s t × (k t ≡ some a)
  unfolding many_then
  many_then_sound c k [] a h = ([], ([], refl, tt), h)
  many_then_sound c k (b ∷ s) a h = elim (Bool-cases (c b)) [
    | inl good ↦ elim (Option-cases (many_then c k s)) [
      | inl none_longer ↦ (b ∷ s, ([], refl, tt), rw (good, none_longer) at h)
      | inr (a', longer) ↦
          let (t, (p, e, every), found) = many_then_sound c k s a' longer in
          (t, (b ∷ p, ap (◌∷◌ b) e, (good, every)), found ∙ (rw (good, longer) at h))
    ]
    | inr bad ↦ (b ∷ s, ([], refl, tt), rw bad at h)
  ]

  many_lazy_then_sound :
      (c : Class) (k : Text → Option A) (s : Text) (a : A)
      → many_lazy_then c k s ≡ some a
      → (t : Text) × Matches (many c) s t × (k t ≡ some a)
  unfolding many_lazy_then
  many_lazy_then_sound c k [] a h = ([], ([], refl, tt), h)
  many_lazy_then_sound c k (b ∷ s) a h = elim (Option-cases (k (b ∷ s))) [
    | inl fails ↦ elim (Bool-cases (c b)) [
      | inl good ↦
          let (t, (p, e, every), found) = many_lazy_then_sound c k s a (rw (fails, good) at h) in
          (t, (b ∷ p, ap (◌∷◌ b) e, (good, every)), found)
      | inr bad ↦ absurd (ground arith)
    ]
    | inr (a', here) ↦ (b ∷ s, ([], refl, tt), here ∙ (rw here at h))
  ]

  many_then_complete :
      (c : Class) (k : Text → Option A) (p t : Text)
      → All (λ b. c b ≡ true) p
      → is_some (k t) ≡ true
      → is_some (many_then c k (p ++ t)) ≡ true
  unfolding many_then
  many_then_complete c k [] [] every h = h
  many_then_complete c k [] (b ∷ t) every h = ground arith
  many_then_complete c k (b ∷ p) t (good, every) h =
      ground (arith, many_then_complete c k p t every h)

  many_lazy_then_complete :
      (c : Class) (k : Text → Option A) (p t : Text)
      → All (λ b. c b ≡ true) p
      → is_some (k t) ≡ true
      → is_some (many_lazy_then c k (p ++ t)) ≡ true
  unfolding many_lazy_then
  many_lazy_then_complete c k [] [] every h = h
  many_lazy_then_complete c k [] (b ∷ t) every h = ground arith
  many_lazy_then_complete c k (b ∷ p) t (good, every) h =
      ground (arith, many_lazy_then_complete c k p t every h)

abbrev found_rest : Text → Option Text
found_rest t = some t

none_is_none {ℓ} : {A : Type ℓ} {o : Option A} → is_some o ≡ true → o ≡ none → ⊥
none_is_none {o = none} h e = cc
none_is_none {o = some a} h e = cc

mutual
  unfolding matches_then

  -- A success of the matcher is a way to read the input, after which the continuation succeeds.
  pub matches_then_sound :
      (r : Regex) {A : Type 0} (k : Text → Option A) (s : Text) (a : A)
      → matches_then r k s ≡ some a
      → (t : Text) × Matches r s t × (k t ≡ some a)
  matches_then_sound eps k s a h = (s, refl, h)
  matches_then_sound (one c) k [] a h = absurd (ground arith)
  matches_then_sound (one c) k (b ∷ s) a h = elim (Bool-cases (c b)) [
    | inl good ↦ (s, (b, refl, good), rw good at h)
    | inr bad ↦ absurd (ground arith)
  ]
  matches_then_sound (seq r q) k s a h =
      let (u, first, rest) = matches_then_sound r (λ t. matches_then q k t) s a h in
      let (t, second, found) = matches_then_sound q k u a rest in (t, (u, first, second), found)
  matches_then_sound (alt r q) k s a h = elim (Option-cases (matches_then r k s)) [
    | inl fails ↦
        let (t, m, found) = matches_then_sound q k s a (rw fails at h) in (t, inr m, found)
    | inr (a', left) ↦
        let (t, m, found) = matches_then_sound r k s a' left in (t, inl m, found ∙ (rw left at h))
  ]
  matches_then_sound (many c) k s a h = many_then_sound c k s a h
  matches_then_sound (many_lazy c) k s a h = many_lazy_then_sound c k s a h
  matches_then_sound (not_ahead r) k s a h = elim (Option-cases (matches_then r found_rest s)) [
    | inl fails ↦ (
      s,
      (refl, λ u m. none_is_none (matches_then_complete r found_rest s u m refl) fails),
      rw fails at h,
    )
    | inr (t, ahead) ↦ absurd (ground arith)
  ]

  -- Whatever way there is to read the input, the matcher succeeds if the continuation does after it.
  pub matches_then_complete :
      (r : Regex) {A : Type 0} (k : Text → Option A) (s t : Text)
      → Matches r s t
      → is_some (k t) ≡ true
      → is_some (matches_then r k s) ≡ true
  matches_then_complete eps k s t e h = rw e h
  matches_then_complete (one c) k s t (b, e, good) h = rw (e, one_then, good) h
  matches_then_complete (seq r q) k s t (u, first, second) h =
      matches_then_complete r (λ t. matches_then q k t) s u first
        (matches_then_complete q k u t second h)
  matches_then_complete (alt r q) k s t (inl m) h =
      ground (arith, matches_then_complete r k s t m h)
  matches_then_complete (alt r q) k s t (inr m) h =
      ground (arith, matches_then_complete q k s t m h)
  matches_then_complete (many c) k s t (p, e, every) h = rw e (many_then_complete c k p t every h)
  matches_then_complete (many_lazy c) k s t (p, e, every) h =
      rw e (many_lazy_then_complete c k p t every h)
  matches_then_complete (not_ahead r) k s t (e, never) h =
      elim (Option-cases (matches_then r found_rest s)) [
        | inl fails ↦ rw (fails, e) h
        | inr (u, ahead) ↦
            let (v, m, _) = matches_then_sound r found_rest s u ahead in absurd (never v m)
      ]

-- `pattern.match(s)`, as a test
unfoldable pub is_match : Regex → Text → Bool
unfolding matches_then
is_match r s = is_some (matches_then r found_rest s)

-- A pattern matches an input exactly if the input has a prefix in the pattern's language: the order
-- in which the matcher tries its alternatives and its greed lose no match and make none up.
pub is_match_iff : (r : Regex) (s : Text) → (is_match r s ≡ true) ↔ ((t : Text) × Matches r s t)
unfolding is_match
is_match_iff r s = (
  λ h. elim (Option-cases (matches_then r found_rest s)) [
    | inl fails ↦ absurd (none_is_none h fails)
    | inr (t, e) ↦ let (u, m, _) = matches_then_sound r found_rest s t e in (u, m)
  ],
  λ (t, m). matches_then_complete r found_rest s t m refl,
)
