-- ===== src/Vnc/Handshake.antt =====
-- The exchange of a client of the Remote Framebuffer protocol with manyfaced/handlers/vnc_handler.py.
use manyfaced_honeypot.Base.{
  ℕ, ◌+◌, ◌-◌, ◌*◌, ◌/◌, ◌%◌, ◌<◌, ltb, drop, List, All, ◌≢◌, if◌then◌else◌, true, false, some, [],
  ◌∷◌, ◌++◌, ◌==◌, any, take, length, Text, codes, starts_with, text_eq, ◌≡◌, refl, arith,
}
use manyfaced_honeypot.Vnc.{
  is_http_probe, hex, hex_digit, extract_vnc_credentials, generate_vnc_response,
  generate_server_init, generate_security_result_ok,
}

-- The bytes of a client's version.
abbrev pub client_version : Text → Text
client_version number = codes "RFB " ++ number

-- A frame that is no greeting of another protocol.
pub record IsAnswer (raw : Text) : Type 0 where
  pub no_http : is_http_probe raw ≡ false
  pub no_masscan : starts_with (codes "MGLNDD_") raw ≡ false
  pub no_version : text_eq (take 3 raw) (codes "RFB") ≡ false

-- Big-endian numbers of two and of four bytes.
abbrev pub read_be16 : Text → ℕ
read_be16 (a ∷ b ∷ _) = 256 * a + b
read_be16 _ = 0

abbrev pub read_be32 : Text → ℕ
read_be32 (a ∷ b ∷ c ∷ d ∷ _) = 16777216 * a + 65536 * b + 256 * c + d
read_be32 _ = 0

-- The security types that a client reads: a count and as many bytes.
abbrev pub offered_types : Text → List ℕ
offered_types [] = []
offered_types (n ∷ types) = take n types

-- What a client reads after its answer: the result 0, a screen of 1024 by 768 with 32 bits a pixel,
-- and the name of the desktop with its length.
pub record IsWelcome (name reply : Text) : Type 0 where
  pub result : take 4 reply ≡ 0 ∷ 0 ∷ 0 ∷ 0 ∷ []
  pub width : read_be16 (drop 4 reply) ≡ 1024
  pub height : read_be16 (drop 6 reply) ≡ 768
  pub bits_per_pixel : take 1 (drop 8 reply) ≡ 32 ∷ []
  pub name_length : read_be32 (drop 24 reply) ≡ length name
  pub name_text : drop 28 reply ≡ name

-- The bytes that a text of hexadecimal digits in lower case stands for.
abbrev pub nibble : ℕ → ℕ
nibble c = if ltb c 97 then c - 48 else c - 87

abbrev pub unhex : Text → Text
unhex (a ∷ b ∷ s) = (16 * nibble a + nibble b) ∷ unhex s
unhex _ = []

nibble-hex_digit : (d : ℕ) → d < 16 → nibble (hex_digit d) ≡ d
nibble-hex_digit d h = ground arith

unhex-hex : (s : Text) → All (λ c. c < 256) s → unhex (hex s) ≡ s
unfolding hex
unhex-hex [] h = refl
unhex-hex (c ∷ s) (small, h) =
    let high : nibble (hex_digit (c / 16)) ≡ c / 16 = nibble-hex_digit (c / 16) (omega arith) in
    let low : nibble (hex_digit (c % 16)) ≡ c % 16 = nibble-hex_digit (c % 16) (omega arith) in
    let byte : 16 * nibble (hex_digit (c / 16)) + nibble (hex_digit (c % 16)) ≡ c =
      omega (arith, high, low) in
    rw (unhex-hex s h, byte) refl

module _ (challenge name : Text) where
  selection :
      (number : Text) (kind : ℕ)
      → any
          (λ t. kind == t)
          (offered_types (generate_vnc_response challenge name (client_version number)))
        ≡ true
      → generate_vnc_response challenge name (kind ∷ []) ≡ challenge
  unfolding generate_vnc_response is_http_probe starts_with text_eq
  selection number kind k = ground arith

  welcome :
      length name < 4294967296
      → IsWelcome name (generate_security_result_ok ++ generate_server_init name)
  unfolding generate_server_init
  welcome short = record {
    result = refl;
    width = refl;
    height = refl;
    bits_per_pixel = refl;
    name_length = omega (arith, short);
    name_text = refl;
  }

  -- A login in three steps, for every version and every answer of sixteen bytes that is no greeting:
  -- the version is answered with a list of security types, any of which is answered with the
  -- challenge; the answer is welcomed with the screen and the name, and is captured with its bytes in
  -- hexadecimal. A name has less than 2^32 bytes.
  pub generate_vnc_response-login :
      (number answer : Text) (kind : ℕ)
      → length name < 4294967296
      → any
          (λ t. kind == t)
          (offered_types (generate_vnc_response challenge name (client_version number)))
        ≡ true
      → IsAnswer answer
      → length answer ≡ 16
      → All (λ c. c < 256) answer
      → (offered_types (generate_vnc_response challenge name (client_version number)) ≢ [])
        × (generate_vnc_response challenge name (kind ∷ []) ≡ challenge)
        × IsWelcome name (generate_vnc_response challenge name answer)
        × ((captured : Text) × (extract_vnc_credentials answer
              ≡ some (codes "vnc-authenticated", captured))
            × (unhex captured ≡ answer))
  unfolding generate_vnc_response extract_vnc_credentials is_http_probe starts_with text_eq
  generate_vnc_response-login number answer kind short k a n bytes = (
    (λ e. never e),
    selection number kind k,
    rw (a.no_http, a.no_masscan, a.no_version, n) (welcome short),
    (hex answer, rw n refl, unhex-hex answer bytes),
  )
    where
      never : ◌≢◌ {A = List ℕ} (2 ∷ []) []
      never e = cc
