-- ===== src/Classification.antt =====
-- The benign-source classification of manyfaced/common/classification.py: loading the allowlist,
-- matching a reverse-DNS name against glob patterns, and the decision. The decoded TOML file is the
-- input of `load_sources`; the glob is that of Python's fnmatch.
pub mod Suffix
pub mod Decision
use manyfaced_honeypot.Base.{
  ℕ, zero, suc, Bool, true, false, not, ◌&&◌, ◌||◌, none, some, List, [], ◌∷◌, map, if◌then◌else◌,
  leb, ◌==◌, Text, codes, is_empty, length, any, text_eq, text_in, contains, lower, upper, strip,
}
use mathlib.Core.Option
use mathlib.Core.Option.{Option}

-- A piece of a glob pattern; a set is its ranges and whether it is negated.
pub data Glob : Type 0 where
  star : Glob
  one : Glob
  char : ℕ → Glob
  set : Bool → List (ℕ × ℕ) → Glob

-- the ranges between the brackets of a set
abbrev ranges : Text → List (ℕ × ℕ)
ranges [] = []
ranges (a ∷ []) = (a, a) ∷ []
ranges (a ∷ b ∷ []) = (a, a) ∷ (b, b) ∷ []
ranges (a ∷ b ∷ c ∷ s) =
    let pair = (a, c) ∷ ranges s in
    let single = (a, a) ∷ ranges (b ∷ c ∷ s) in if b == b'-' then pair else single

-- What follows a `[`: the set up to the next `]`, or none without one. A `]` that comes first
-- belongs to the set.
abbrev close_from : Text → Option (Text × Text)
close_from [] = none
close_from (c ∷ s) =
    if c == b']' then some ([], s) else Option.map (λ (t, rest). (c ∷ t, rest)) (close_from s)

abbrev close : Text → Option (Text × Text)
close [] = none
close (c ∷ s) = Option.map (λ (t, rest). (c ∷ t, rest)) (close_from s)

abbrev set_of : Text → Option (Glob × Text)
set_of [] = none
set_of (c ∷ s) =
    if c == b'!'
    then Option.map (λ (t, rest). (set true (ranges t), rest)) (close s)
    else Option.map (λ (t, rest). (set false (ranges t), rest)) (close (c ∷ s))

-- `fnmatch.translate`, on fuel of the length of the pattern
unfoldable pub compile_fuel : ℕ → Text → List Glob
compile_fuel zero s = []
compile_fuel (suc n) [] = []
compile_fuel (suc n) (c ∷ s) =
    let literal = char c ∷ compile_fuel n s in
    if c == b'*'
    then star ∷ compile_fuel n s
    else if c == b'?'
    then one ∷ compile_fuel n s
    else if c == b'['
    then elim (set_of s) [ none ↦ literal | some (piece, rest) ↦ piece ∷ compile_fuel n rest ]
    else literal

unfoldable pub compile : Text → List Glob
unfolding compile_fuel
compile s = compile_fuel (length s) s

abbrev in_ranges : List (ℕ × ℕ) → ℕ → Bool
in_ranges rs c = any (λ (a, b). leb a c && leb c b) rs

abbrev differs : Bool → Bool → Bool
differs true b = not b
differs false b = b

-- Whether the whole of the text matches.
unfoldable pub glob_match : List Glob → Text → Bool
glob_match [] [] = true
glob_match [] (c ∷ s) = false
glob_match (star ∷ ps) [] = glob_match ps []
glob_match (star ∷ ps) (c ∷ s) = glob_match ps (c ∷ s) || glob_match (star ∷ ps) s
glob_match (one ∷ ps) [] = false
glob_match (one ∷ ps) (c ∷ s) = glob_match ps s
glob_match (char d ∷ ps) [] = false
glob_match (char d ∷ ps) (c ∷ s) = (d == c) && glob_match ps s
glob_match (set negated rs ∷ ps) [] = false
glob_match (set negated rs ∷ ps) (c ∷ s) = differs negated (in_ranges rs c) && glob_match ps s

abbrev pub fnmatch : Text → Text → Bool
fnmatch name pattern = glob_match (compile pattern) name

-- an entry of the decoded TOML file; a missing key is `none`
pub record TomlEntry : Type 0 where
  pub name : Option Text
  pub category : Option Text
  pub reverse_dns : Option (List Text)
  pub asn : Option (List Text)
  pub org : Option (List Text)
  pub user_agent : Option (List Text)

-- `_Source`
pub record Source : Type 0 where
  pub name : Text
  pub category : Text
  pub reverse_dns : List Text
  pub asn : List Text
  pub org : List Text
  pub user_agent : List Text

abbrev or_nil : {A : Type 0} → Option (List A) → List A
or_nil none = []
or_nil (some l) = l

abbrev pub source_of : TomlEntry → Source
source_of e = record {
  name = or_nil e.name;
  category = or_nil e.category;
  reverse_dns = or_nil e.reverse_dns;
  asn = map upper (or_nil e.asn);
  org = or_nil e.org;
  user_agent = or_nil e.user_agent;
}

abbrev pub has_network : Source → Bool
has_network s = not (is_empty s.reverse_dns && is_empty s.asn && is_empty s.org)

-- `_load_sources`; `none` is the ClassificationError.
unfoldable pub load_sources : List TomlEntry → Option (List Source)
load_sources [] = some []
load_sources (e ∷ es) =
    let source = source_of e in
    let rest = Option.map (λ l. source ∷ l) (load_sources es) in
    if not (is_empty source.user_agent) && not (has_network source) then none else rest

abbrev pub pattern_matches : Text → Text → Bool
pattern_matches host pattern =
    if contains (codes "*") pattern || contains (codes "?") pattern
    then fnmatch host pattern
    else text_eq host pattern

-- `_dns_matches`
unfoldable pub dns_matches : Text → List Text → Bool
dns_matches hostname patterns =
    if is_empty hostname
    then false
    else any (λ pattern. pattern_matches (lower hostname) (lower pattern)) patterns

pub data Classification : Type 0 where
  benign : Classification
  malicious : Classification
  unknown : Classification

abbrev pub source_matches : Text → Text → Source → Bool
source_matches rdns asn s =
    dns_matches rdns s.reverse_dns || (not (is_empty asn) && text_in asn s.asn)

unfoldable pub classify_from : List Source → Text → Text → Classification × Text
classify_from [] rdns asn = (unknown, [])
classify_from (s ∷ sources) rdns asn =
    if dns_matches rdns s.reverse_dns
    then (benign, s.name)
    else if not (is_empty asn) && text_in asn s.asn
    then (benign, s.name)
    else classify_from sources rdns asn

-- `classify`, on the loaded sources; `org` and `user_agent` are taken and not read.
unfoldable pub classify : List Source → Text → Text → Text → Text → Classification × Text
classify sources reverse_dns org asn user_agent =
    classify_from sources (strip reverse_dns) (upper (strip asn))
