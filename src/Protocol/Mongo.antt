-- ===== src/Protocol/Mongo.antt =====
-- The MongoDB entry of the signature table in manyfaced/common/protocol.py: a header of 20 bytes,
-- in which `.` reads no newline, and four opcode bytes.
use manyfaced_honeypot.Base.{
  ℕ, zero, suc, ◌+◌, ◌*◌, true, some, List, [], ◌∷◌, ◌++◌, ◌≡◌, refl, ◌≢◌, inl, inr, arith, Text,
  All, take, drop, any, ◌==◌,
}
use manyfaced_honeypot.Protocol.Regex.{Class, Matches, is_match, is_match_iff}
use manyfaced_honeypot.Protocol.Signatures.{
  mongodb, dot, times, literal, any_literal, opcode_bytes, mongodb_pattern, detect_protocol,
}

times_sound :
    (n : ℕ) (c : Class) (s u : Text)
    → Matches (times n c) s u
    → (drop n s ≡ u) × All (λ b. c b ≡ true) (take n s)
times_sound zero c s u e = (e, tt)
times_sound (suc n) c s u (v, (b, e, good), more) =
    let (rest, every) = times_sound n c v u more in rw e (rest, (good, every))

literal_sound : (w u t : Text) → Matches (literal w) u t → u ≡ w ++ t
literal_sound [] u t e = e
literal_sound (b ∷ w) u t (v, (b', e, good), more) =
    let rest = literal_sound w v t more in let same : b' ≡ b = ground arith in rw (e, same, rest)

-- An unsigned number of four bytes, the low one first.
abbrev pub read_le : Text → ℕ
read_le (a ∷ b ∷ c ∷ d ∷ _) = a + 256 * b + 65536 * c + 16777216 * d
read_le _ = 0

-- The opcodes that the entry's bytes spell.
abbrev pub entry_opcodes : List ℕ
entry_opcodes = 2004 ∷ 1000 ∷ 1 ∷ 2013 ∷ 1993 ∷ 1994 ∷ 1995 ∷ 1996 ∷ 1997 ∷ 2010 ∷ 2011 ∷ 2012 ∷ []

abbrev pub IsEntryOpcode : ℕ → Type 0
IsEntryOpcode n = any (λ m. n == m) entry_opcodes ≡ true

-- Every listed opcode spells one of the numbers.
abbrev Spells : List Text → Type 0
Spells [] = Unit
Spells (w ∷ ws) = ((t : Text) → IsEntryOpcode (read_le (w ++ t))) × Spells ws

any_literal_sound :
    (ws : List Text) (u t : Text)
    → Spells ws
    → Matches (any_literal ws) u t
    → IsEntryOpcode (read_le u)
any_literal_sound [] u t _ (e, never) = absurd (never u refl)
any_literal_sound (w ∷ ws) u t (good, more) (inl m) = rw (literal_sound w u t m) (good t)
any_literal_sound (w ∷ ws) u t (good, more) (inr m) = any_literal_sound ws u t more m

opcodes_spelt : Spells opcode_bytes
opcodes_spelt = (
  λ t. refl,
  (
    λ t. refl,
    (
      λ t. refl,
      (
        λ t. refl,
        (
          λ t. refl,
          (
            λ t. refl,
            (λ t. refl, (λ t. refl, (λ t. refl, (λ t. refl, (λ t. refl, (λ t. refl, tt)))))),
          ),
        ),
      ),
    ),
  ),
)

mongodb_entry :
    (raw : Text) → detect_protocol raw ≡ some mongodb → is_match mongodb_pattern raw ≡ true
unfolding detect_protocol
mongodb_entry [] h = cc
mongodb_entry (b ∷ raw) h = ground arith

-- Data that is detected as MongoDB has no newline byte among its first 20, and its opcode is one
-- of the twelve that the table spells: 1, 1000, 1993 to 1997, 2004 and 2010 to 2013.
pub detect_protocol-mongodb :
    (raw : Text)
    → detect_protocol raw ≡ some mongodb
    → All (λ b. b ≢ 10) (take 20 raw) × IsEntryOpcode (read_le (drop 20 raw))
unfolding mongodb_pattern
detect_protocol-mongodb raw h =
    let (t, (u, header, opcode)) = (is_match_iff mongodb_pattern raw).0 (mongodb_entry raw h) in
    let (rest, every) = times_sound 20 dot raw u header in
    (
      not_newline (take 20 raw) every,
      rw rest (any_literal_sound opcode_bytes u t opcodes_spelt opcode),
    )
  where
    not_newline : (s : Text) → All (λ b. dot b ≡ true) s → All (λ b. b ≢ 10) s
    not_newline [] h = tt
    not_newline (b ∷ s) (p, h) = (ground arith, not_newline s h)
