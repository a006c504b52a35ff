-- ===== src/Classification/Decision.antt =====
-- What the loader of manyfaced/common/classification.py accepts, and what the decision rests on.
use manyfaced_honeypot.Base.{
  true, false, not, ◌&&◌, none, some, List, [], ◌∷◌, map, ◌≡◌, ◌⊎◌, inl, inr, refl, ap, arith, Text,
  is_empty, All, text_in, upper, strip, Bool-cases,
}
use manyfaced_honeypot.Classification.{
  TomlEntry, Source, source_of, has_network, load_sources, dns_matches, Classification, benign,
  malicious, unknown, source_matches, classify_from, classify,
}
use mathlib.Core.Option
use mathlib.Core.Option.{Option}

-- The matching entry stands first among those that match.
pub data FirstMatch (rdns asn : Text) (s : Source) : List Source → Type 0 where
  here : (rest : List Source) → source_matches rdns asn s ≡ true → FirstMatch rdns asn s (s ∷ rest)
  there :
      (t : Source) (rest : List Source)
      → source_matches rdns asn t ≡ false
      → FirstMatch rdns asn s rest
      → FirstMatch rdns asn s (t ∷ rest)

abbrev pub Verdict : Text → Text → List Source → Classification × Text → Type 0
Verdict rdns asn sources (benign, name) =
    (s : Source) × (s.name ≡ name) × FirstMatch rdns asn s sources
Verdict rdns asn sources (malicious, name) = ⊥
Verdict rdns asn sources (unknown, name) =
    (name ≡ []) × All (λ s. source_matches rdns asn s ≡ false) sources

later :
    (rdns asn : Text) (s : Source) (sources : List Source) (r : Classification × Text)
    → source_matches rdns asn s ≡ false
    → Verdict rdns asn sources r
    → Verdict rdns asn (s ∷ sources) r
later rdns asn s sources (benign, name) h (found, e, first) = (found, e, there s sources h first)
later rdns asn s sources (unknown, name) h (e, others) = (e, (h, others))
later rdns asn s sources (malicious, name) h v = elim v [ ]

classify_from-Verdict :
    (sources : List Source) (rdns asn : Text)
    → Verdict rdns asn sources (classify_from sources rdns asn)
unfolding classify_from
classify_from-Verdict [] rdns asn = (refl, tt)
classify_from-Verdict (s ∷ sources) rdns asn = elim (Bool-cases (dns_matches rdns s.reverse_dns)) [
  | inl dns ↦ rw (dns, classify_from) (s, refl, here sources (ground arith))
  | inr no_dns ↦ elim (Bool-cases (not (is_empty asn) && text_in asn s.asn)) [
    | inl by_asn ↦ rw (no_dns, by_asn, classify_from) (s, refl, here sources (ground arith))
    | inr no_asn ↦
        rw (no_dns, no_asn, classify_from)
          (later rdns asn s sources (classify_from sources rdns asn) (ground arith)
            (classify_from-Verdict sources rdns asn))
  ]
]

-- A capture is benign with the name of the first allowlist entry that its reverse-DNS name or its
-- AS number matches, and unknown with no name if no entry matches; it is never malicious.
pub classify-Verdict :
    (sources : List Source) (reverse_dns org asn user_agent : Text)
    → Verdict
        (strip reverse_dns)
        (upper (strip asn))
        sources
        (classify sources reverse_dns org asn user_agent)
unfolding classify
classify-Verdict sources reverse_dns org asn user_agent =
    classify_from-Verdict sources (strip reverse_dns) (upper (strip asn))

-- The loader's rule: an entry that lists a user agent lists another signal too.
abbrev pub IsSafe : Source → Type 0
IsSafe s = (s.user_agent ≡ []) ⊎ (has_network s ≡ true)

nil_of_empty : (l : List Text) → is_empty l ≡ true → l ≡ []
nil_of_empty [] h = refl
nil_of_empty (x ∷ l) h = ground arith

guard-IsSafe :
    (s : Source) → (not (is_empty s.user_agent) && not (has_network s)) ≡ false → IsSafe s
guard-IsSafe s h = elim (Bool-cases (is_empty s.user_agent)) [
  | inl empty ↦ inl (nil_of_empty s.user_agent empty)
  | inr listed ↦ inr (ground arith)
]

abbrev pub Loaded : List TomlEntry → Option (List Source) → Type 0
Loaded entries (some sources) = (sources ≡ map source_of entries) × All IsSafe sources
Loaded entries none = ¬ All IsSafe (map source_of entries)

Loaded-cons :
    (e : TomlEntry) (es : List TomlEntry) (o : Option (List Source))
    → IsSafe (source_of e)
    → Loaded es o
    → Loaded (e ∷ es) (Option.map (λ l. source_of e ∷ l) o)
Loaded-cons e es none p h = λ (_, k). h k
Loaded-cons e es (some l) p (same, h) = (ap (◌∷◌ (source_of e)) same, (p, h))

unsafe_of_guard :
    (s : Source) → (not (is_empty s.user_agent) && not (has_network s)) ≡ true → ¬ IsSafe s
unsafe_of_guard s h (inl none_listed) = ground arith
unsafe_of_guard s h (inr network) = ground arith

-- The loader raises exactly if an entry lists a user agent and nothing else; otherwise it returns
-- every entry, in order, and each that lists a user agent lists another signal.
pub load_sources-Loaded : (entries : List TomlEntry) → Loaded entries (load_sources entries)
unfolding load_sources
load_sources-Loaded [] = (refl, tt)
load_sources-Loaded (e ∷ es) =
    elim (Bool-cases (not (is_empty (source_of e).user_agent) && not (has_network (source_of e)))) [
      | inl bad ↦ rw (bad, load_sources) (λ (safe, _). unsafe_of_guard (source_of e) bad safe)
      | inr good ↦
          rw (good, load_sources)
            (Loaded-cons e es (load_sources es) (guard-IsSafe (source_of e) good)
              (load_sources-Loaded es))
    ]

-- An entry that lists neither a reverse-DNS pattern nor an AS number never makes a capture benign,
-- whatever organisation it lists.
pub source_matches_of_org :
    (rdns asn : Text) (s : Source)
    → s.reverse_dns ≡ []
    → s.asn ≡ []
    → source_matches rdns asn s ≡ false
unfolding dns_matches
source_matches_of_org rdns asn s h k = ground arith
