-- ===== src/Classification/Suffix.antt =====
-- The suffix patterns of the allowlist of manyfaced/common/classification.py, `*` followed by a plain
-- text, against a description of the names that end with it.
use manyfaced_honeypot.Base.{
  ℕ, zero, suc, ◌≤◌, Bool, true, false, ◌||◌, [], ◌∷◌, ◌++◌, map, ◌≡◌, ◌≢◌, ◌↔◌, refl, sym, ap, ◌∙◌,
  arith, Text, length, All, lower, contains, starts_with, text_eq, text_eq_iff, text_eq_refl,
  true_not_false, Bool-cases, inl, inr,
}
use manyfaced_honeypot.Classification.{
  star, char, compile_fuel, compile, glob_match, dns_matches, pattern_matches, fnmatch,
}

-- A text without the characters that a glob reads.
abbrev pub IsPlain : Text → Type 0
IsPlain = All (λ c. (c ≢ b'*') × (c ≢ b'?') × (c ≢ b'['))

compile_fuel-plain : (n : ℕ) (s : Text) → length s ≤ n → IsPlain s → compile_fuel n s ≡ map char s
unfolding compile_fuel
compile_fuel-plain zero [] h k = refl
compile_fuel-plain zero (c ∷ s) h k = ground arith
compile_fuel-plain (suc n) [] h k = refl
compile_fuel-plain (suc n) (c ∷ s) h (p, k) = ground (arith, compile_fuel-plain n s)

glob_match-plain : (p s : Text) → glob_match (map char p) s ≡ text_eq p s
unfolding glob_match text_eq
glob_match-plain [] [] = refl
glob_match-plain [] (c ∷ s) = refl
glob_match-plain (d ∷ p) [] = refl
glob_match-plain (d ∷ p) (c ∷ s) = ground (arith, glob_match-plain p s)

glob_match-star_sound :
    (p s : Text) → glob_match (star ∷ map char p) s ≡ true → (t : Text) × (s ≡ t ++ p)
unfolding glob_match
glob_match-star_sound p [] h = ([], sym ((text_eq_iff p []).0 (sym (glob_match-plain p []) ∙ h)))
glob_match-star_sound p (c ∷ s) h = elim (Bool-cases (glob_match (map char p) (c ∷ s))) [
  | inl now ↦ ([], sym ((text_eq_iff p (c ∷ s)).0 (sym (glob_match-plain p (c ∷ s)) ∙ now)))
  | inr later ↦ let (t, e) = glob_match-star_sound p s (rw later at h) in (c ∷ t, ap (◌∷◌ c) e)
]

glob_match-star_self : (p : Text) → glob_match (star ∷ map char p) p ≡ true
unfolding glob_match
glob_match-star_self [] = refl
glob_match-star_self (c ∷ p) = ground (arith, glob_match-plain p p, text_eq_refl p)

glob_match-star_complete : (p t : Text) → glob_match (star ∷ map char p) (t ++ p) ≡ true
unfolding glob_match
glob_match-star_complete p [] = glob_match-star_self p
glob_match-star_complete p (c ∷ t) = ground (arith, glob_match-star_complete p t)

fnmatch-suffix :
    (host p : Text) → IsPlain p → (fnmatch host (b'*' ∷ p) ≡ true) ↔ ((t : Text) × (host ≡ t ++ p))
unfolding compile compile_fuel
fnmatch-suffix host p h =
    let e : compile_fuel (length p) p ≡ map char p =
      compile_fuel-plain (length p) p (omega arith) h in
    rw e (glob_match-star_sound p host, λ (t, same). rw same (glob_match-star_complete p t))

lower-star : (s : Text) → lower (b'*' ∷ s) ≡ b'*' ∷ lower s
unfolding lower
lower-star s = refl

pattern_matches-star : (host p : Text) → pattern_matches host (b'*' ∷ p) ≡ fnmatch host (b'*' ∷ p)
unfolding contains starts_with
pattern_matches-star host p = ground arith

or_false : (b : Bool) → (b || false) ≡ b
or_false true = refl
or_false false = refl

-- The pattern `*` followed by a plain text matches exactly the non-empty names whose lowered form
-- ends with the lowered text.
pub dns_matches-suffix :
    (hostname suffix : Text)
    → IsPlain (lower suffix)
    → (dns_matches hostname ((b'*' ∷ suffix) ∷ []) ≡ true)
      ↔ ((hostname ≢ []) × (t : Text) × (lower hostname ≡ t ++ lower suffix))
unfolding dns_matches
dns_matches-suffix [] suffix h =
    ((λ e. elim (true_not_false e refl) [ ]), λ (nonempty, _, _). elim (nonempty refl) [ ])
dns_matches-suffix (c ∷ cs) suffix h =
    let host = lower (c ∷ cs) in
    let same : dns_matches (c ∷ cs) ((b'*' ∷ suffix) ∷ []) ≡ fnmatch host (b'*' ∷ lower suffix) =
      ap (λ p. pattern_matches host p || false) (lower-star suffix)
      ∙ ap (λ b. b || false) (pattern_matches-star host (lower suffix))
      ∙ or_false (fnmatch host (b'*' ∷ lower suffix)) in
    let (there, back) = fnmatch-suffix host (lower suffix) h in
    (
      (λ k. let (t, ended) = there (sym same ∙ k) in ((λ e. ground arith), t, ended)),
      λ (_, t, ended). same ∙ back (t, ended),
    )
