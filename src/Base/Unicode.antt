-- ===== src/Base/Unicode.antt =====
-- UTF-8 as Python's codecs read it with `errors='replace'` (one U+FFFD for each maximal part that
-- is no character) and write it, and the percent-decoding of `urllib.parse`.
use Prim.Native.Nat.{ℕ, zero, suc, ◌+◌, ◌-◌, ◌*◌, ◌/◌, ◌%◌, ◌<◌}
use mathlib.Core.Path.{◌≡◌, refl}
use mathlib.Core.Option.{Option, none, some}
use mathlib.Core.List.{[], ◌∷◌, ◌++◌}
use native.Mathlib.Omega.{arith}
use manyfaced_honeypot.Base.Tests.{ltb, ◌==◌, if◌then◌else◌, within}
use manyfaced_honeypot.Base.Lists.{All}
use manyfaced_honeypot.Base.Texts.{Text}

-- What the decoder has read of a character: the bytes still wanted, the bits so far, and the range
-- of the next byte.
pub record Pending : Type 0 where
  pub more : ℕ
  pub bits : ℕ
  pub lo : ℕ
  pub hi : ℕ

pub data Progress : Type 0 where
  emit : ℕ → Progress
  start : Pending → Progress

abbrev wait : ℕ → ℕ → ℕ → ℕ → Progress
wait more bits lo hi = start (record { more = more; bits = bits; lo = lo; hi = hi })

abbrev replacement : ℕ
replacement = 0xfffd

-- The first byte of a character.
first_byte : ℕ → Progress
first_byte b =
    if ltb b 0x80
    then emit b
    else if within 0xc2 0xdf b
    then wait 0 (b - 0xc0) 0x80 0xbf
    else if b == 0xe0
    then wait 1 0 0xa0 0xbf
    else if b == 0xed
    then wait 1 0xd 0x80 0x9f
    else if within 0xe1 0xef b
    then wait 1 (b - 0xe0) 0x80 0xbf
    else if b == 0xf0
    then wait 2 0 0x90 0xbf
    else if within 0xf1 0xf3 b
    then wait 2 (b - 0xf0) 0x80 0xbf
    else if b == 0xf4
    then wait 2 4 0x80 0x8f
    else emit replacement

-- A byte that fits what is pending.
next_byte : Pending → ℕ → Progress
next_byte p b = go p.more
  where
    go : ℕ → Progress
    go zero = emit (p.bits * 64 + (b - 0x80))
    go (suc m) = wait m (p.bits * 64 + (b - 0x80)) 0x80 0xbf

-- What a byte adds to the text, and what is pending after it.
decode_byte : Option Pending → ℕ → Text × Option Pending
decode_byte none b = elim (first_byte b) [ emit c ↦ (c ∷ [], none) | start p ↦ ([], some p) ]
decode_byte (some p) b =
    if within p.lo p.hi b
    then elim (next_byte p b) [ emit c ↦ (c ∷ [], none) | start q ↦ ([], some q) ]
    else elim (first_byte b) [
      | emit c ↦ (replacement ∷ c ∷ [], none)
      | start q ↦ (replacement ∷ [], some q)
    ]

decode_from : Option Pending → Text → Text
decode_from none [] = []
decode_from (some p) [] = replacement ∷ []
decode_from state (b ∷ s) = let (out, state') = decode_byte state b in out ++ decode_from state' s

-- `raw.decode('utf-8', errors='replace')`
unfoldable pub decode_utf8 : Text → Text
unfolding decode_from decode_byte first_byte next_byte
decode_utf8 raw = decode_from none raw

unfoldable pub encode_char : ℕ → Text
encode_char c =
    if ltb c 0x80
    then c ∷ []
    else if ltb c 0x800
    then (0xc0 + c / 64) ∷ (0x80 + c % 64) ∷ []
    else if ltb c 0x10000
    then (0xe0 + c / 4096) ∷ (0x80 + c / 64 % 64) ∷ (0x80 + c % 64) ∷ []
    else (0xf0 + c / 262144) ∷ (0x80 + c / 4096 % 64) ∷ (0x80 + c / 64 % 64) ∷ (0x80 + c % 64) ∷ []

-- `s.encode('utf-8')`, of texts with no surrogates
unfoldable pub encode_utf8 : Text → Text
unfolding encode_char
encode_utf8 [] = []
encode_utf8 (c ∷ s) = encode_char c ++ encode_utf8 s

abbrev pub IsAscii : Text → Type 0
IsAscii = All (λ c. c < 128)

pub encode_utf8_ascii : (s : Text) → IsAscii s → encode_utf8 s ≡ s
unfolding encode_utf8
encode_utf8_ascii [] h = refl
encode_utf8_ascii (c ∷ s) (p, h) = ground (arith, encode_utf8_ascii s h)

-- ASCII in front of the data stands in front of its decoding.
pub decode_utf8-append : (s raw : Text) → IsAscii s → decode_utf8 (s ++ raw) ≡ s ++ decode_utf8 raw
unfolding decode_utf8
decode_utf8-append [] raw h = refl
decode_utf8-append (c ∷ s) raw (p, h) = ground (arith, decode_utf8-append s raw h)

hex_value : ℕ → Option ℕ
hex_value c =
    if within b'0' b'9' c
    then some (c - 48)
    else if within b'a' b'f' c
    then some (c - 87)
    else if within b'A' b'F' c
    then some (c - 55)
    else none

abbrev hex_pair : Option ℕ → Option ℕ → Option ℕ
hex_pair (some a) (some b) = some (a * 16 + b)
hex_pair _ _ = none

-- `unquote_to_bytes` on ASCII: an escape with two hexadecimal digits becomes a byte.
unquote_bytes : Text → Text
unquote_bytes (c ∷ a ∷ b ∷ s) =
    let escape = unquote_bytes s in
    let plain = c ∷ unquote_bytes (a ∷ b ∷ s) in
    elim (hex_pair (hex_value a) (hex_value b)) [
      | some v ↦ if c == b'%' then v ∷ escape else plain
      | none ↦ plain
    ]
unquote_bytes s = s

-- `urllib.parse.unquote(s)`: the runs of ASCII characters are decoded, the others kept.
unquote_from : Text → Text → Text
unquote_from run [] = decode_utf8 (unquote_bytes run)
unquote_from run (c ∷ s) =
    let next = decode_utf8 (unquote_bytes run) ++ c ∷ unquote_from [] s in
    let longer = unquote_from (run ++ c ∷ []) s in if ltb c 128 then longer else next

unfoldable pub unquote : Text → Text
unfolding unquote_from unquote_bytes hex_value decode_utf8
unquote s = unquote_from [] s
