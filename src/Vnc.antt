-- ===== src/Vnc.antt =====
-- manyfaced/handlers/vnc_handler.py: the answer to a frame, and the credentials in it. A frame is bytes; the
-- random challenge and the chosen server name are parameters.
pub mod Handshake
use manyfaced_honeypot.Base.{
  ℕ, zero, suc, ◌+◌, ◌/◌, ◌%◌, Bool, true, false, not, ◌&&◌, ◌||◌, Option, none, some, List, [],
  ◌∷◌, ◌++◌, if◌then◌else◌, ◌==◌, ltb, leb, any, take, length, Text, codes, starts_with, text_eq,
  show_nat,
}

-- `VALID_SECURITY_TYPES`
abbrev pub valid_security_types : List ℕ
valid_security_types = 1 ∷ 2 ∷ 16 ∷ 17 ∷ 18 ∷ 19 ∷ 30 ∷ 35 ∷ []

abbrev pub security_type_vnc_auth : ℕ
security_type_vnc_auth = 2

abbrev pub vnc_auth_challenge_len : ℕ
vnc_auth_challenge_len = 16

-- `_HTTP_METHODS`
abbrev pub vnc_http_methods : List Text
vnc_http_methods =
    codes "GET "
    ∷ codes "POST "
    ∷ codes "HEAD "
    ∷ codes "PUT "
    ∷ codes "DELETE "
    ∷ codes "OPTIONS "
    ∷ codes "PATCH "
    ∷ codes "CONNECT "
    ∷ codes "TRACE "
    ∷ []

-- `_is_http_probe`
unfoldable pub is_http_probe : Text → Bool
is_http_probe raw = any (λ method. starts_with method raw) vnc_http_methods

abbrev pub hex_digit : ℕ → ℕ
hex_digit n = if ltb n 10 then 48 + n else 87 + n

-- `raw.hex()`
unfoldable pub hex : Text → Text
hex [] = []
hex (c ∷ s) = hex_digit (c / 16) ∷ hex_digit (c % 16) ∷ hex s

-- `extract_vnc_credentials`
unfoldable pub extract_vnc_credentials : Text → Option (Text × Text)
extract_vnc_credentials raw =
    if length raw == vnc_auth_challenge_len
    then some (codes "vnc-authenticated", hex raw)
    else if leb vnc_auth_challenge_len (length raw) && not (text_eq (take 4 raw) (codes "RFB "))
    then some (codes "vnc-authenticated", hex (take vnc_auth_challenge_len raw))
    else none

-- `VNC_CANONICAL_VERSION`
abbrev pub vnc_canonical_version : Text
vnc_canonical_version = codes "RFB 003.008\n"

-- `_generate_security_types`: the count and the one type
abbrev pub generate_security_types : Text
generate_security_types = 1 ∷ security_type_vnc_auth ∷ []

-- `_generate_security_result_ok`
abbrev pub generate_security_result_ok : Text
generate_security_result_ok = 0 ∷ 0 ∷ 0 ∷ 0 ∷ []

-- `struct.pack('>I', n)`, where it is in range
abbrev pub pack_be : ℕ → Text
pack_be n = n / 16777216 % 256 ∷ n / 65536 % 256 ∷ n / 256 % 256 ∷ n % 256 ∷ []

abbrev pub pixel_format : Text
pixel_format = 32 ∷ 24 ∷ 0 ∷ 1 ∷ 0 ∷ 255 ∷ 0 ∷ 255 ∷ 0 ∷ 255 ∷ 16 ∷ 8 ∷ 0 ∷ 0 ∷ 0 ∷ 0 ∷ []

-- `_generate_server_init`: 1024 by 768, the pixel format, and the name with its length
unfoldable pub generate_server_init : Text → Text
generate_server_init name = 4 ∷ 0 ∷ 3 ∷ 0 ∷ pixel_format ++ (pack_be (length name) ++ name)

abbrev http_body : Text
http_body = codes "<!DOCTYPE html><html><head><title>VNC</title></head><body></body></html>"

-- `_generate_http_response`
unfoldable pub vnc_http_response : Text
vnc_http_response =
    codes
      "HTTP/1.1 200 OK\r\nServer: Apache/2.4.57 (Ubuntu)\r\nContent-Type: text/html; charset=UTF-8\r\nContent-Length: "
    ++ (show_nat (length http_body) ++ (codes "\r\nConnection: close\r\n\r\n" ++ http_body))

abbrev pub is_selection : Text → Bool
is_selection [] = false
is_selection (c ∷ s) = any (λ t. c == t) valid_security_types

-- `generate_vnc_response`
unfoldable pub generate_vnc_response : Text → Text → Text → Text
generate_vnc_response challenge name raw =
    if is_http_probe raw
    then vnc_http_response
    else if starts_with (codes "MGLNDD_") raw
    then vnc_canonical_version
    else if text_eq (take 3 raw) (codes "RFB")
    then generate_security_types
    else if length raw == vnc_auth_challenge_len
        || (ltb vnc_auth_challenge_len (length raw) && not (text_eq (take 4 raw) (codes "RFB ")))
    then generate_security_result_ok ++ generate_server_init name
    else if is_selection raw
    then challenge
    else vnc_canonical_version
