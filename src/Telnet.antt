-- ===== src/Telnet.antt =====
-- manyfaced/handlers/telnet_handler.py: the negotiation, the credentials in a frame, and the response. A
-- frame is bytes; what `random.choice` gives is a parameter.
pub mod Passes
pub mod Frames
pub mod Response
use manyfaced_honeypot.Base.{
  ℕ, zero, suc, ◌+◌, Bool, true, false, not, ◌&&◌, ◌||◌, Option, none, some, List, [], ◌∷◌, ◌++◌,
  if◌then◌else◌, ◌==◌, any, Text, codes, is_empty, within,
}
use manyfaced_honeypot.Telnet.Passes.{extract_from}

abbrev pub iac : ℕ
iac = 0xff

abbrev pub will : ℕ
will = 0xfb

abbrev pub wont : ℕ
wont = 0xfc

abbrev pub do_option : ℕ
do_option = 0xfd

abbrev pub dont : ℕ
dont = 0xfe

abbrev pub opt_binary : ℕ
opt_binary = 0x01

abbrev pub opt_echo : ℕ
opt_echo = 0x03

-- `_strip_iac`. The command is an int there, and is compared with the bytes `SB` and `SE`, which is
-- never true, so every IAC takes the two bytes after it along.
unfoldable pub strip_iac : Text → Text
strip_iac [] = []
strip_iac (a ∷ []) = if a == iac then [] else a ∷ []
strip_iac (a ∷ b ∷ []) = let rest = strip_iac (b ∷ []) in if a == iac then [] else a ∷ rest
strip_iac (a ∷ b ∷ c ∷ s) =
    let after = strip_iac s in
    let rest = strip_iac (b ∷ c ∷ s) in if a == iac then after else a ∷ rest

-- the answer to a command and its option
unfoldable pub reply : ℕ → ℕ → Text
reply command option =
    if command == do_option
    then iac ∷ (if option == opt_echo then will else wont) ∷ option ∷ []
    else if command == will
    then iac
      ∷ (if option == opt_echo || option == opt_binary then do_option else dont)
      ∷ option
      ∷ []
    else if command == wont
    then iac ∷ dont ∷ option ∷ []
    else if command == dont
    then iac ∷ wont ∷ option ∷ []
    else []

-- `_handle_telnet_negotiation`
unfoldable pub handle_telnet_negotiation : Text → Text
handle_telnet_negotiation [] = []
handle_telnet_negotiation (a ∷ []) = []
handle_telnet_negotiation (a ∷ b ∷ []) =
    let rest = handle_telnet_negotiation (b ∷ []) in if a == iac then [] else rest
handle_telnet_negotiation (a ∷ b ∷ c ∷ s) =
    let after = handle_telnet_negotiation s in
    let rest = handle_telnet_negotiation (b ∷ c ∷ s) in
    if a == iac then reply b c ++ after else rest

-- `extract_telnet_credentials`
unfoldable pub extract_telnet_credentials : Text → Option (Text × Text)
extract_telnet_credentials raw = extract_from (strip_iac raw)

-- `_generate_login_prompt`, with the banner
unfoldable pub generate_login_prompt : Text → Text
generate_login_prompt banner =
    0xff ∷ 0xfd ∷ 0x03 ∷ 0xff ∷ 0xfb ∷ 0x01 ∷ 0xff ∷ 0xfd ∷ 0x18 ∷ banner ++ codes "\r\nlogin: "

abbrev pub generate_password_prompt : Text
generate_password_prompt = codes "\r\nPassword: "

-- `generate_auth_success`, with the message
unfoldable pub generate_auth_success : Text → Text
generate_auth_success prompt = prompt ++ codes "$ "

-- no byte but ASCII white space, which `bytes.strip` removes
abbrev pub is_blank : Text → Bool
is_blank s = not (any (λ c. not (within 9 13 c || c == 32)) s)

-- What follows the negotiation.
unfoldable pub prompt_for : Text → Text → Option (Text × Text) → Bool → Bool → Text
prompt_for banner prompt (some (c ∷ user, d ∷ password)) had_iac blank =
    generate_auth_success prompt
prompt_for banner prompt (some (c ∷ user, [])) had_iac blank = generate_password_prompt
prompt_for banner prompt creds had_iac blank =
    if blank && had_iac then [] else generate_login_prompt banner

-- `generate_telnet_response`
unfoldable pub generate_telnet_response : Text → Text → Text → Text
generate_telnet_response banner prompt raw =
    let had_iac = any (λ c. c == iac) raw in
    (if had_iac then handle_telnet_negotiation raw else [])
    ++ prompt_for banner prompt (extract_telnet_credentials raw) had_iac (is_blank (strip_iac raw))
