-- ===== src/Protocol/Signatures.antt =====
-- The signature table of manyfaced/common/protocol.py, in its order, and the two tests that read
-- it. Raw data is a list of bytes.
use manyfaced_honeypot.Base.{
  ℕ, zero, suc, ◌+◌, Bool, false, not, ◌||◌, Option, none, some, List, [], ◌∷◌, if◌then◌else◌, ◌==◌,
  within, Text, String, codes, is_empty, is_digit_ascii,
}
use manyfaced_honeypot.Protocol.Regex.{Class, Regex, eps, one, seq, alt, many, not_ahead, is_match}

-- The names that `detect_protocol` and `get_protocol_info` report; `unknown` is the latter's.
pub data Protocol : Type 0 where
  ssh ftp smb telnet pop3 imap redis smtp rdp vnc tls rtsp ldap sip http http2 snmp dns mongodb :
      Protocol
  unknown : Protocol

-- `.`, `\s` and `\d` on bytes
abbrev pub dot : Class
dot b = not (b == 10)

abbrev pub space : Class
space b = within 9 13 b || b == 32

abbrev pub digit : Class
digit = is_digit_ascii

abbrev pub byte : ℕ → Class
byte x b = b == x

abbrev fold_byte : ℕ → ℕ
fold_byte b = if within b'A' b'Z' b then b + 32 else b

-- a byte under `re.IGNORECASE`
abbrev pub byte_ci : ℕ → Class
byte_ci x b = fold_byte b == fold_byte x

abbrev pub literal : Text → Regex
literal [] = eps
literal (b ∷ s) = seq (one (byte b)) (literal s)

abbrev pub literal_ci : Text → Regex
literal_ci [] = eps
literal_ci (b ∷ s) = seq (one (byte_ci b)) (literal_ci s)

abbrev pub one_of : (Text → Regex) → List String → Regex
one_of lit [] = not_ahead eps
one_of lit (w ∷ []) = lit (codes w)
one_of lit (w ∷ w' ∷ ws) = alt (lit (codes w)) (one_of lit (w' ∷ ws))

-- `c+`, `c{n}` and `c{1,n}`, the last for the repeats after the first
abbrev pub some_of : Class → Regex
some_of c = seq (one c) (many c)

abbrev pub times : ℕ → Class → Regex
times zero c = eps
times (suc n) c = seq (one c) (times n c)

abbrev pub up_to : ℕ → Class → Regex
up_to zero c = eps
up_to (suc n) c = alt (seq (one c) (up_to n c)) eps

abbrev pub http_methods : List String
http_methods =
    "GET" ∷ "POST" ∷ "PUT" ∷ "DELETE" ∷ "HEAD" ∷ "OPTIONS" ∷ "PATCH" ∷ "CONNECT" ∷ "TRACE" ∷ []

abbrev pub rtsp_methods : List String
rtsp_methods =
    "OPTIONS" ∷ "DESCRIBE" ∷ "SETUP" ∷ "PLAY" ∷ "PAUSE" ∷ "TEARDOWN" ∷ "ANNOUNCE" ∷ "SET_PARAMETER"
    ∷ "GET_PARAMETER" ∷ "RECORD" ∷ "REDIRECT" ∷ []

abbrev pub sip_methods : List String
sip_methods =
    "INVITE" ∷ "ACK" ∷ "BYE" ∷ "CANCEL" ∷ "OPTIONS" ∷ "REGISTER" ∷ "SUBSCRIBE" ∷ "NOTIFY"
    ∷ "PUBLISH" ∷ "MESSAGE" ∷ "INFO" ∷ "REFER" ∷ "PRACK" ∷ []

unfoldable pub ssh_pattern : Regex
ssh_pattern =
    seq (literal_ci (codes "SSH-"))
      (seq (one digit) (seq (literal_ci (codes ".")) (seq (one digit) (literal_ci (codes "-")))))

unfoldable pub ftp_pattern : Regex
ftp_pattern = seq (literal_ci (codes "220")) (one space)

unfoldable pub smb_pattern : Regex
smb_pattern = seq (literal (0 ∷ 0 ∷ 0 ∷ [])) (
    seq (times 16 dot) (
      alt (seq (literal (codes "NT")) (seq (one space) (literal (codes "LM"))))
        (seq (literal (codes "SMB")) (seq (one space) (one digit)))))

unfoldable pub telnet_pattern : Regex
telnet_pattern = one (byte 0xff)

unfoldable pub pop3_pattern : Regex
pop3_pattern = literal_ci (codes "+OK ")

unfoldable pub imap_pattern : Regex
imap_pattern = literal_ci (codes "* OK ")

unfoldable pub redis_pattern : Regex
redis_pattern =
    alt (one (λ b. b == b'$' || b == b'*'))
      (seq (one (byte b'+')) (not_ahead (literal (codes "OK "))))

unfoldable pub smtp_pattern : Regex
smtp_pattern = seq (literal_ci (codes "220")) (one space)

unfoldable pub rdp_pattern : Regex
rdp_pattern = literal_ci (3 ∷ 0 ∷ [])

unfoldable pub vnc_pattern : Regex
vnc_pattern =
    seq (literal_ci (codes "RFB ")) (seq (one digit) (seq (literal_ci (codes ".")) (one digit)))

unfoldable pub tls_pattern : Regex
tls_pattern = literal (0x16 ∷ 3 ∷ [])

unfoldable pub rtsp_pattern : Regex
rtsp_pattern =
    seq (one_of literal rtsp_methods) (seq (one space) (seq (many dot) (literal (codes "RTSP/"))))

unfoldable pub ldap_pattern : Regex
ldap_pattern = seq (one (byte 0x30)) (
    seq (seq (one dot) (up_to 7 dot))
      (seq (literal (2 ∷ 1 ∷ [])) (seq (one dot) (one (byte 0x60)))))

unfoldable pub sip_pattern : Regex
sip_pattern =
    alt
      (seq (one_of literal sip_methods) (
        seq (some_of space)
          (seq (literal (codes "sip")) (seq (alt (one (byte b's')) eps) (one (byte b':'))))))
      (literal (codes "SIP/2.0"))

-- also `_HTTP_METHOD_RE`
unfoldable pub http_pattern : Regex
http_pattern = seq (one_of literal_ci http_methods) (one space)

abbrev crlf : Text
crlf = 13 ∷ 10 ∷ []

unfoldable pub http2_pattern : Regex
http2_pattern = seq (literal (codes "PRI * HTTP/2.0")) (
    seq (literal crlf)
      (seq (literal crlf) (seq (literal (codes "SM")) (seq (literal crlf) (literal crlf)))))

unfoldable pub snmp_pattern : Regex
snmp_pattern = seq (one (byte 0x30)) (
    seq (seq (one dot) (up_to 7 dot))
      (seq (literal (2 ∷ 1 ∷ [])) (seq (one (λ b. b == 0 || b == 1)) (one (byte 4)))))

abbrev label_byte : Class
label_byte b = b == 0x2d || within 0x30 0x39 b || within 0x41 0x5a b || within 0x61 0x7a b

unfoldable pub dns_pattern : Regex
dns_pattern = seq (times 12 dot) (seq (one (within 1 0x3f)) (one label_byte))

-- The four opcode bytes at offset 20, as the pattern lists them.
abbrev pub opcode_bytes : List Text
opcode_bytes =
    (0xd4 ∷ 7 ∷ 0 ∷ 0 ∷ [])
    ∷ (0xe8 ∷ 3 ∷ 0 ∷ 0 ∷ [])
    ∷ (1 ∷ 0 ∷ 0 ∷ 0 ∷ [])
    ∷ (0xdd ∷ 7 ∷ 0 ∷ 0 ∷ [])
    ∷ (0xc9 ∷ 7 ∷ 0 ∷ 0 ∷ [])
    ∷ (0xca ∷ 7 ∷ 0 ∷ 0 ∷ [])
    ∷ (0xcb ∷ 7 ∷ 0 ∷ 0 ∷ [])
    ∷ (0xcc ∷ 7 ∷ 0 ∷ 0 ∷ [])
    ∷ (0xcd ∷ 7 ∷ 0 ∷ 0 ∷ [])
    ∷ (0xda ∷ 7 ∷ 0 ∷ 0 ∷ [])
    ∷ (0xdb ∷ 7 ∷ 0 ∷ 0 ∷ [])
    ∷ (0xdc ∷ 7 ∷ 0 ∷ 0 ∷ [])
    ∷ []

abbrev pub any_literal : List Text → Regex
any_literal [] = not_ahead eps
any_literal (w ∷ ws) = alt (literal w) (any_literal ws)

unfoldable pub mongodb_pattern : Regex
mongodb_pattern = seq (times 20 dot) (any_literal opcode_bytes)

-- `_PROTOCOL_SIGNATURES`
unfoldable pub signatures : List (Protocol × Regex)
signatures =
    (ssh, ssh_pattern)
    ∷ (ftp, ftp_pattern)
    ∷ (smb, smb_pattern)
    ∷ (telnet, telnet_pattern)
    ∷ (pop3, pop3_pattern)
    ∷ (imap, imap_pattern)
    ∷ (redis, redis_pattern)
    ∷ (smtp, smtp_pattern)
    ∷ (rdp, rdp_pattern)
    ∷ (vnc, vnc_pattern)
    ∷ (tls, tls_pattern)
    ∷ (rtsp, rtsp_pattern)
    ∷ (ldap, ldap_pattern)
    ∷ (sip, sip_pattern)
    ∷ (http, http_pattern)
    ∷ (http2, http2_pattern)
    ∷ (snmp, snmp_pattern)
    ∷ (dns, dns_pattern)
    ∷ (mongodb, mongodb_pattern)
    ∷ []

-- the loop of `detect_protocol`
unfoldable pub first_match : List (Protocol × Regex) → Text → Option Protocol
first_match [] raw = none
first_match ((name, pattern) ∷ rest) raw =
    if is_match pattern raw then some name else first_match rest raw

unfoldable pub detect_protocol : Text → Option Protocol
unfolding signatures first_match
detect_protocol raw = if is_empty raw then none else first_match signatures raw

unfoldable pub is_http_request : Text → Bool
is_http_request raw = if is_empty raw then false else is_match http_pattern raw

-- Everything that a run on concrete bytes has to open.
unfoldable pub all_patterns : Unit {0}
unfolding ssh_pattern ftp_pattern smb_pattern telnet_pattern pop3_pattern imap_pattern redis_pattern
    smtp_pattern rdp_pattern vnc_pattern tls_pattern rtsp_pattern ldap_pattern sip_pattern
    http_pattern http2_pattern snmp_pattern dns_pattern mongodb_pattern is_match
all_patterns = tt
