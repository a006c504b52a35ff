-- ===== src/Protocol/Info.antt =====
-- `get_protocol_info` of manyfaced/common/protocol.py. A byte decodes to the code point of its
-- value, so the decoded fields are the bytes themselves.
pub mod Agreement
use manyfaced_honeypot.Base.{
  ℕ, ◌+◌, ◌-◌, ◌*◌, Bool, true, false, not, ◌&&◌, ◌||◌, Option, none, some, List, [], ◌∷◌, ◌++◌,
  if◌then◌else◌, ◌==◌, leb, ltb, within, Text, codes, is_empty, ◌≡◌, refl, take, drop, length, any,
  contains, starts_with, split_once, strip, show_nat,
}
use manyfaced_honeypot.Protocol.Regex.{
  Class, Regex, one, seq, alt, many, many_lazy, matches_then, is_match,
}
use manyfaced_honeypot.Protocol.Mongo.{read_le}
use manyfaced_honeypot.Protocol.Signatures.{
  Protocol, ssh, ftp, smb, telnet, redis, rdp, vnc, tls, http, dns, mongodb, unknown, dot, space,
  digit, byte, literal, one_of, some_of, http_methods,
}

pub record Info : Type 0 where
  pub protocol : Option Protocol
  pub raw : Text
  pub version : Option Text
  pub client : Option Text
  pub banner : Option Text
  pub method : Option Text
  pub path : Option Text
  pub is_binary : Bool

abbrev pub blank : Text → Info
blank raw = record {
  protocol = none;
  raw = take 256 raw;
  version = none;
  client = none;
  banner = none;
  method = none;
  path = none;
  is_binary = false;
}

abbrev pub found : Text → Protocol → Info
found raw p = record (blank raw) { protocol = some p }

abbrev add_group : Text → Option (List Text) → Option (List Text)
add_group w none = none
add_group w (some ws) = some (w ∷ ws)

-- What each of the patterns in a row reads, in the order in which `re.match` tries.
unfoldable pub capture : List Regex → Text → Option (List Text)
unfolding matches_then
capture [] s = some []
capture (r ∷ rs) s = matches_then r (λ t. add_group (take (length s - length t) s) (capture rs t)) s

-- `s.split(sep)[0]`
before : Text → Text → Text
before sep s = elim (split_once sep s) [ none ↦ s | some (a, _) ↦ a ]

abbrev ssh_prefix : Regex
ssh_prefix =
    seq (literal (codes "SSH-"))
      (seq (one digit) (seq (literal (codes ".")) (seq (one digit) (literal (codes "-")))))

-- `client_match`, on the version
ssh_client : Text → Option Text
ssh_client version = elim (capture (ssh_prefix ∷ some_of dot ∷ []) version) [
  | some (_ ∷ rest ∷ []) ↦ some (strip (before (codes "\n") (before (codes "\r\n") rest)))
  | _ ↦ none
]

-- Each step of the function is a block that returns, or falls through to the next.
abbrev otherwise : Option Info → Info → Info
otherwise (some i) rest = i
otherwise none rest = rest

ssh_info : Text → Option Info
ssh_info raw = elim (capture (seq ssh_prefix (many dot) ∷ []) raw) [
  | some (version ∷ []) ↦
      some (record (found raw ssh) { version = some version; client = ssh_client version })
  | _ ↦ none
]

ftp_info : Text → Option Info
ftp_info raw =
    elim (capture
      (seq (literal (codes "220")) (seq (some_of space) (many_lazy dot))
        ∷ alt (literal (codes "\r\n")) (literal (codes "\n"))
        ∷ [])
      raw) [
        | some (banner ∷ _ ∷ []) ↦ some (record (found raw ftp) { banner = some banner })
        | _ ↦ none
      ]

abbrev not_space : Class
not_space b = not (space b)

abbrev version_byte : Class
version_byte b = digit b || b == b'.'

abbrev after_method : List Regex
after_method =
    some_of space
    ∷ some_of not_space
    ∷ seq (some_of space) (literal (codes "HTTP/"))
    ∷ some_of version_byte
    ∷ []

http_info : Text → Option Info
http_info raw = elim (capture (one_of literal http_methods ∷ after_method) raw) [
  | some (method ∷ _ ∷ path ∷ _ ∷ version ∷ []) ↦
      some
        (record (found raw http) { method = some method; path = some path; version = some version })
  | _ ↦ none
]

-- `payload.decode('ascii', errors='ignore')`
ascii_only : Text → Text
ascii_only [] = []
ascii_only (b ∷ s) = if ltb b 128 then b ∷ ascii_only s else ascii_only s

-- `\s` on texts, among ASCII
abbrev text_space : Class
text_space b = within 9 13 b || within 28 32 b

smb_info : Text → Option Info
smb_info raw =
    let payload = ascii_only (drop 17 raw) in
    if leb 24 (length raw)
      && starts_with (0 ∷ 0 ∷ 0 ∷ []) raw
      && (contains (codes "NT LM") payload
          || is_match (seq (literal (codes "SMB")) (seq (one text_space) (one digit))) payload)
    then some (found raw smb)
    else none

telnet_info : Text → Option Info
telnet_info raw = if starts_with (0xff ∷ []) raw then some (found raw telnet) else none

rdp_info : Text → Option Info
rdp_info raw = if starts_with (3 ∷ 0 ∷ []) raw then some (found raw rdp) else none

vnc_info : Text → Option Info
vnc_info raw =
    elim (capture
      (seq (literal (codes "RFB ")) (seq (one digit) (seq (literal (codes ".")) (one digit))) ∷ [])
      raw) [
        | some (version ∷ []) ↦ some (record (found raw vnc) { version = some version })
        | _ ↦ none
      ]

tls_info : Text → Option Info
tls_info (a ∷ b ∷ c ∷ d ∷ e ∷ rest) =
    if a == 0x16 && b == 3
    then some (record (found (a ∷ b ∷ c ∷ d ∷ e ∷ rest) tls) {
      version = some (codes "TLS " ++ (show_nat b ++ (codes "." ++ show_nat c)));
    })
    else none
tls_info _ = none

dns_info : Text → Option Info
dns_info (a ∷ b ∷ c ∷ d ∷ rest) =
    let raw : Text = a ∷ b ∷ c ∷ d ∷ rest in
    let dns_len = a * 256 + b in
    if leb 4 dns_len && leb dns_len (length raw - 2) && within 1 0xbf c
    then some (found raw dns)
    else none
dns_info _ = none

abbrev pub valid_opcodes : List ℕ
valid_opcodes =
    0 ∷ 1 ∷ 3 ∷ 4 ∷ 1000 ∷ 2001 ∷ 2002 ∷ 2004 ∷ 2005 ∷ 2006 ∷ 2007 ∷ 2010 ∷ 2011 ∷ 2012 ∷ 2013 ∷ []

mongodb_header : Text → Bool
mongodb_header raw =
    leb 24 (length raw)
    && ltb 16 (read_le raw)
    && any (λ m. read_le (drop 20 raw) == m) valid_opcodes

mongodb_info : Text → Option Info
mongodb_info raw = if mongodb_header raw then some (found raw mongodb) else none

redis_info : Text → Option Info
redis_info [] = none
redis_info (b ∷ rest) =
    if b == b'$' || b == b'*' || b == b'+' then some (found (b ∷ rest) redis) else none

-- the blocks below those of the text protocols
binary_info : Text → Info
binary_info raw = otherwise (smb_info raw) (
    otherwise (telnet_info raw) (
      otherwise (rdp_info raw) (
        otherwise (vnc_info raw) (
          otherwise (tls_info raw) (
            otherwise (dns_info raw) (
              otherwise (mongodb_info raw)
                (otherwise (redis_info raw) (record (found raw unknown) { is_binary = true }))))))))

unfoldable pub get_protocol_info : Text → Info
unfolding ssh_info ftp_info http_info smb_info telnet_info rdp_info vnc_info tls_info dns_info
    mongodb_info mongodb_header redis_info ssh_client before ascii_only binary_info
get_protocol_info raw =
    if is_empty raw
    then blank raw
    else (otherwise (ssh_info raw)
        (otherwise (ftp_info raw) (otherwise (http_info raw) (binary_info raw))))

-- `get_protocol_info` with its blocks shut
get_protocol_info_lem :
    (b : ℕ) (s : Text)
    → get_protocol_info (b ∷ s)
      ≡ otherwise
          (ssh_info (b ∷ s))
          (otherwise (ftp_info (b ∷ s)) (otherwise (http_info (b ∷ s)) (binary_info (b ∷ s))))
unfolding get_protocol_info
get_protocol_info_lem b s = refl
