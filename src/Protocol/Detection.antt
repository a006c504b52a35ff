-- ===== src/Protocol/Detection.antt =====
-- What `detect_protocol` and `is_http_request` of manyfaced/common/protocol.py answer.
use manyfaced_honeypot.Base.{
  ℕ, true, false, Option, none, some, List, [], ◌∷◌, ◌++◌, ◌≡◌, refl, ◌≢◌, ◌⊎◌, inl, inr, arith,
  true_not_false, Text, All, codes, Bool-cases, any, ap,
}
use manyfaced_honeypot.Protocol.Regex.{Regex, Matches, is_match, is_match_iff}
use manyfaced_honeypot.Protocol.Signatures.{
  Protocol, smtp, http, rtsp, sip, signatures, first_match, detect_protocol, is_http_request,
  all_patterns, byte_ci, http_pattern, smtp_pattern, ftp_pattern, ssh_pattern, pop3_pattern,
  imap_pattern, redis_pattern, vnc_pattern, smb_pattern, telnet_pattern, rdp_pattern, tls_pattern,
  ldap_pattern,
}

-- No prefix of the data is in the signature's language.
abbrev pub Misses : Text → Protocol × Regex → Type 0
Misses raw entry = ¬ ((t : Text) × Matches entry.1 raw t)

-- The entry of the table with this name and everything before it: it matches, they do not.
abbrev pub IsFirst : Protocol → List (Protocol × Regex) → Text → Type 0
IsFirst p table raw =
    (before : List (Protocol × Regex)) × (r : Regex) × (after : List (Protocol × Regex)) × (table
      ≡ before ++ (p, r) ∷ after)
    × ((t : Text) × Matches r raw t)
    × All (Misses raw) before

abbrev pub Verdict : List (Protocol × Regex) → Text → Option Protocol → Type 0
Verdict table raw (some p) = IsFirst p table raw
Verdict table raw none = All (Misses raw) table

IsFirst-cons :
    (raw : Text) (p : Protocol) (e : Protocol × Regex) (table : List (Protocol × Regex))
    → Misses raw e
    → IsFirst p table raw
    → IsFirst p (e ∷ table) raw
IsFirst-cons raw p e table miss (before, r, after, same, found, missed) =
    (e ∷ before, r, after, ap (◌∷◌ e) same, found, (miss, missed))

Verdict-cons :
    (raw : Text) (e : Protocol × Regex) (table : List (Protocol × Regex)) (o : Option Protocol)
    → Misses raw e
    → Verdict table raw o
    → Verdict (e ∷ table) raw o
Verdict-cons raw e table none miss v = (miss, v)
Verdict-cons raw e table (some p) miss v = IsFirst-cons raw p e table miss v

first_match-Verdict :
    (table : List (Protocol × Regex)) (raw : Text) → Verdict table raw (first_match table raw)
unfolding first_match
first_match-Verdict [] raw = tt
first_match-Verdict ((p, r) ∷ table) raw = elim (Bool-cases (is_match r raw)) [
  | inl found ↦ rw found ([], r, table, refl, (is_match_iff r raw).0 found, tt)
  | inr missed ↦ rw missed (
      Verdict-cons raw (p, r) table (first_match table raw)
        (λ m. true_not_false ((is_match_iff r raw).1 m) missed) (first_match-Verdict table raw))
]

-- The name that is detected belongs to the first entry of the table whose pattern reads a prefix
-- of the data; nothing is detected exactly if the data is empty or no entry's pattern does.
pub detect_protocol-Verdict :
    (b : ℕ) (raw : Text)
    → Verdict signatures (b ∷ raw) (detect_protocol (b ∷ raw)) × (detect_protocol [] ≡ none)
unfolding detect_protocol
detect_protocol-Verdict b raw = (first_match-Verdict signatures (b ∷ raw), refl)

-- The SMTP entry repeats the pattern of the FTP entry above it, so no data is ever detected as SMTP.
pub detect_protocol-ne-smtp : (raw : Text) → detect_protocol raw ≢ some smtp
unfolding detect_protocol ftp_pattern smtp_pattern
detect_protocol-ne-smtp [] = ground arith
detect_protocol-ne-smtp (b ∷ raw) = ground arith

http_initial :
    (b : ℕ) (s : Text)
    → is_match http_pattern (b ∷ s) ≡ true
    → any (λ x. byte_ci x b) (codes "GPDHOCT") ≡ true
unfolding is_match http_pattern
http_initial b s = ground arith

abbrev IsInitial : ℕ → Type 0
IsInitial b = any (λ x. byte_ci x b) (codes "GPDHOCT") ≡ true

-- The entries above the HTTP one that begin with another byte than an HTTP method.
module _ (b : ℕ) (s : Text) (h : IsInitial b) where
  text_entries_miss :
      (is_match ssh_pattern (b ∷ s) ≡ false)
      × (is_match ftp_pattern (b ∷ s) ≡ false)
      × (is_match pop3_pattern (b ∷ s) ≡ false)
      × (is_match imap_pattern (b ∷ s) ≡ false)
      × (is_match redis_pattern (b ∷ s) ≡ false)
      × (is_match vnc_pattern (b ∷ s) ≡ false)
  unfolding all_patterns
  text_entries_miss =
      (ground arith, ground arith, ground arith, ground arith, ground arith, ground arith)

  binary_entries_miss :
      (is_match smb_pattern (b ∷ s) ≡ false)
      × (is_match telnet_pattern (b ∷ s) ≡ false)
      × (is_match rdp_pattern (b ∷ s) ≡ false)
      × (is_match tls_pattern (b ∷ s) ≡ false)
      × (is_match ldap_pattern (b ∷ s) ≡ false)
  unfolding all_patterns
  binary_entries_miss = (ground arith, ground arith, ground arith, ground arith, ground arith)

  smtp_misses : is_match smtp_pattern (b ∷ s) ≡ false
  unfolding all_patterns
  smtp_misses = ground arith

-- What `is_http_request` accepts is detected as HTTP, or as RTSP or SIP, which share its verbs.
pub detect_protocol_of_http :
    (raw : Text)
    → is_http_request raw ≡ true
    → (detect_protocol raw ≡ some http)
      ⊎ (detect_protocol raw ≡ some rtsp)
      ⊎ (detect_protocol raw ≡ some sip)
unfolding detect_protocol is_http_request
detect_protocol_of_http [] h = cc
detect_protocol_of_http (b ∷ s) h =
    let i = http_initial b s h in
    ground (arith, text_entries_miss b s i, binary_entries_miss b s i, smtp_misses b s i)
