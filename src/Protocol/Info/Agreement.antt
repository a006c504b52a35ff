-- ===== src/Protocol/Info/Agreement.antt =====
-- Where `get_protocol_info` and `detect_protocol` of manyfaced/common/protocol.py agree.
use manyfaced_honeypot.Base.{
  Bool, true, false, Option, none, some, List, [], ◌∷◌, ◌≡◌, refl, inl, inr, arith, Text, codes,
  is_some, Option-cases, String,
}
use manyfaced_honeypot.Protocol.Regex.{Regex, seq, many, Matches, matches_then_sound, is_match_iff}
use manyfaced_honeypot.Protocol.Signatures.{
  Protocol, ssh, ftp, smb, telnet, redis, rdp, vnc, tls, http, dns, mongodb, detect_protocol,
  is_http_request, ssh_pattern, http_pattern, dot, space, literal, literal_ci, one_of, some_of,
  http_methods,
}
use manyfaced_honeypot.Protocol.Info.{
  Info, after_method, otherwise, binary_info, get_protocol_info_lem, ftp_info, smb_info, vnc_info,
  mongodb_info, get_protocol_info, capture, ssh_info, ssh_prefix, http_info, telnet_info, rdp_info,
  tls_info, dns_info, redis_info,
}

-- A group that is captured is a prefix in its pattern's language.
capture_first :
    (r : Regex) (rs : List Regex) (s : Text) (ws : List Text)
    → capture (r ∷ rs) s ≡ some ws
    → (t : Text) × Matches r s t × (is_some (capture rs t) ≡ true)
unfolding capture
capture_first r rs s ws h =
    let (t, m, found) = matches_then_sound r _ s ws h in (t, m, ground arith)

literal-ci : (w s t : Text) → Matches (literal w) s t → Matches (literal_ci w) s t
literal-ci [] s t e = e
literal-ci (b ∷ w) s t (u, (b', e, same), m) = (u, (b', e, ground arith), literal-ci w u t m)

one_of-ci :
    (ws : List String) (s t : Text)
    → Matches (one_of literal ws) s t
    → Matches (one_of literal_ci ws) s t
one_of-ci [] s t m = m
one_of-ci (w ∷ []) s t m = literal-ci (codes w) s t m
one_of-ci (w ∷ w' ∷ ws) s t (inl m) = inl (literal-ci (codes w) s t m)
one_of-ci (w ∷ w' ∷ ws) s t (inr m) = inr (one_of-ci (w' ∷ ws) s t m)

ssh_info_label : (raw : Text) (i : Info) → ssh_info raw ≡ some i → i.protocol ≡ some ssh
unfolding ssh_info
ssh_info_label raw i h = ground arith

ftp_info_label : (raw : Text) (i : Info) → ftp_info raw ≡ some i → i.protocol ≡ some ftp
unfolding ftp_info
ftp_info_label raw i h = ground arith

http_info_label : (raw : Text) (i : Info) → http_info raw ≡ some i → i.protocol ≡ some http
unfolding http_info
http_info_label raw i h = ground arith

smb_info_label : (raw : Text) (i : Info) → smb_info raw ≡ some i → i.protocol ≡ some smb
unfolding smb_info
smb_info_label raw i h = ground arith

telnet_info_label : (raw : Text) (i : Info) → telnet_info raw ≡ some i → i.protocol ≡ some telnet
unfolding telnet_info
telnet_info_label raw i h = ground arith

rdp_info_label : (raw : Text) (i : Info) → rdp_info raw ≡ some i → i.protocol ≡ some rdp
unfolding rdp_info
rdp_info_label raw i h = ground arith

vnc_info_label : (raw : Text) (i : Info) → vnc_info raw ≡ some i → i.protocol ≡ some vnc
unfolding vnc_info
vnc_info_label raw i h = ground arith

mongodb_info_label : (raw : Text) (i : Info) → mongodb_info raw ≡ some i → i.protocol ≡ some mongodb
unfolding mongodb_info
mongodb_info_label raw i h = ground arith

tls_info_label : (raw : Text) (i : Info) → tls_info raw ≡ some i → i.protocol ≡ some tls
unfolding tls_info
tls_info_label (a ∷ b ∷ c ∷ d ∷ e ∷ rest) i h = ground arith
tls_info_label _ i h = cc

dns_info_label : (raw : Text) (i : Info) → dns_info raw ≡ some i → i.protocol ≡ some dns
unfolding dns_info
dns_info_label (a ∷ b ∷ c ∷ d ∷ rest) i h = ground arith
dns_info_label _ i h = cc

redis_info_label : (raw : Text) (i : Info) → redis_info raw ≡ some i → i.protocol ≡ some redis
unfolding redis_info
redis_info_label [] i h = cc
redis_info_label (b ∷ rest) i h = ground arith

abbrev is_binary_name : Protocol → Bool
is_binary_name ssh = false
is_binary_name ftp = false
is_binary_name http = false
is_binary_name _ = true

abbrev IsBinary : Info → Type 0
IsBinary i = (q : Protocol) → i.protocol ≡ some q → is_binary_name q ≡ true

otherwise-IsBinary :
    (o : Option Info) (rest : Info) (p : Protocol)
    → ((i : Info) → o ≡ some i → i.protocol ≡ some p)
    → is_binary_name p ≡ true
    → IsBinary rest
    → IsBinary (otherwise o rest)
otherwise-IsBinary none rest p label good h q e = h q e
otherwise-IsBinary (some i) rest p label good h q e = ground (arith, label i refl)

binary_info-IsBinary : (raw : Text) → IsBinary (binary_info raw)
unfolding binary_info
binary_info-IsBinary raw = otherwise-IsBinary _ _ smb (smb_info_label raw) refl (
    otherwise-IsBinary _ _ telnet (telnet_info_label raw) refl (
      otherwise-IsBinary _ _ rdp (rdp_info_label raw) refl (
        otherwise-IsBinary _ _ vnc (vnc_info_label raw) refl (
          otherwise-IsBinary _ _ tls (tls_info_label raw) refl (
            otherwise-IsBinary _ _ dns (dns_info_label raw) refl (
              otherwise-IsBinary _ _ mongodb (mongodb_info_label raw) refl (
                otherwise-IsBinary _ _ redis (redis_info_label raw) refl
                  (λ q e. ground arith))))))))

only_ssh :
    (raw : Text) → (get_protocol_info raw).protocol ≡ some ssh → is_some (ssh_info raw) ≡ true
only_ssh [] h = absurd (unfold get_protocol_info in cc)
only_ssh (b ∷ raw) h = grind (
  arith,
  get_protocol_info_lem b raw,
  ftp_info_label (b ∷ raw),
  http_info_label (b ∷ raw),
  binary_info-IsBinary (b ∷ raw) ssh,
)

only_http :
    (raw : Text) → (get_protocol_info raw).protocol ≡ some http → is_some (http_info raw) ≡ true
only_http [] h = absurd (unfold get_protocol_info in cc)
only_http (b ∷ raw) h = grind (
  arith,
  get_protocol_info_lem b raw,
  ftp_info_label (b ∷ raw),
  ssh_info_label (b ∷ raw),
  binary_info-IsBinary (b ∷ raw) http,
)

ssh_reads :
    (raw : Text)
    → is_some (ssh_info raw) ≡ true
    → (t : Text) × Matches (seq ssh_prefix (many dot)) raw t
unfolding ssh_info
ssh_reads raw h = elim (Option-cases (capture (seq ssh_prefix (many dot) ∷ []) raw)) [
  | inl fails ↦ absurd (ground arith)
  | inr (ws, e) ↦ let (t, m, _) = capture_first _ _ _ _ e in (t, m)
]

http_reads :
    (raw : Text)
    → is_some (http_info raw) ≡ true
    → (t u : Text) × Matches (one_of literal http_methods) raw t × Matches (some_of space) t u
unfolding http_info
http_reads raw h = elim (Option-cases (capture (one_of literal http_methods ∷ after_method) raw)) [
  | inl fails ↦ absurd (ground arith)
  | inr (ws, e) ↦
      let (t, m, more) = capture_first (one_of literal http_methods) after_method raw ws e in
      elim (Option-cases (capture after_method t)) [
        | inl fails ↦ absurd (ground arith)
        | inr (ws', e') ↦ let (u, m', _) = capture_first _ _ _ _ e' in (t, u, m, m')
      ]
]

ssh-ci :
    (raw t : Text)
    → Matches (seq ssh_prefix (many dot)) raw t
    → (u : Text) × Matches ssh_pattern raw u
unfolding ssh_pattern
ssh-ci raw t (u, (a, tag, (b, major, (c, point, (d, minor, dash)))), _) = (
  u,
  (
    a,
    literal-ci (codes "SSH-") raw a tag,
    (b, major, (c, literal-ci (codes ".") b c point, (d, minor, literal-ci (codes "-") d u dash))),
  ),
)

agreements :
    (raw : Text)
    → ((get_protocol_info raw).protocol ≡ some ssh → detect_protocol raw ≡ some ssh)
      × ((get_protocol_info raw).protocol ≡ some http → is_http_request raw ≡ true)
unfolding detect_protocol is_http_request http_pattern
agreements [] = (λ h. unfold get_protocol_info in cc, λ h. unfold get_protocol_info in cc)
agreements (b ∷ s) = (
  λ h.
      let (t, m) = ssh_reads (b ∷ s) (only_ssh (b ∷ s) h) in
      rw ((is_match_iff ssh_pattern (b ∷ s)).1 (ssh-ci (b ∷ s) t m)),
  λ h.
      let (t, u, m, (v, first, _)) = http_reads (b ∷ s) (only_http (b ∷ s) h) in
      (is_match_iff http_pattern (b ∷ s)).1 (v, (t, one_of-ci http_methods (b ∷ s) t m, first)),
)

-- What `get_protocol_info` reports as SSH is detected as SSH.
pub get_protocol_info-ssh :
    (raw : Text) → (get_protocol_info raw).protocol ≡ some ssh → detect_protocol raw ≡ some ssh
get_protocol_info-ssh raw = (agreements raw).0

-- What `get_protocol_info` reports as HTTP passes `is_http_request`.
pub get_protocol_info-http :
    (raw : Text) → (get_protocol_info raw).protocol ≡ some http → is_http_request raw ≡ true
get_protocol_info-http raw = (agreements raw).1
