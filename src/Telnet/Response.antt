-- ===== src/Telnet/Response.antt =====
-- The response of manyfaced/handlers/telnet_handler.py to a frame.
use manyfaced_honeypot.Base.{
  Bool, true, false, ◌&&◌, Option, none, some, [], ◌∷◌, ◌++◌, any, ◌==◌, if◌then◌else◌, Text, ◌≡◌,
  refl,
}
use manyfaced_honeypot.Telnet.{
  iac, strip_iac, is_blank, prompt_for, generate_login_prompt, generate_auth_success,
  extract_telnet_credentials, generate_telnet_response,
}

generate_auth_success-nonempty : (prompt : Text) → generate_auth_success prompt ≡ [] → ⊥
unfolding generate_auth_success
generate_auth_success-nonempty [] h = cc
generate_auth_success-nonempty (c ∷ s) h = cc

login_or_nothing :
    (banner : Text) (had_iac blank : Bool)
    → (if blank && had_iac then [] else generate_login_prompt banner) ≡ []
    → (had_iac ≡ true) × (blank ≡ true)
unfolding generate_login_prompt
login_or_nothing banner true true h = (refl, refl)
login_or_nothing banner true false h = cc
login_or_nothing banner false true h = cc
login_or_nothing banner false false h = cc

prompt_for-nothing :
    (banner prompt : Text) (creds : Option (Text × Text)) (had_iac blank : Bool)
    → prompt_for banner prompt creds had_iac blank ≡ []
    → (had_iac ≡ true) × (blank ≡ true)
unfolding prompt_for
prompt_for-nothing banner prompt (some (c ∷ user, d ∷ password)) had_iac blank h =
    absurd (generate_auth_success-nonempty prompt h)
prompt_for-nothing banner prompt (some (c ∷ user, [])) had_iac blank h = cc
prompt_for-nothing banner prompt (some ([], password)) had_iac blank h =
    login_or_nothing banner had_iac blank h
prompt_for-nothing banner prompt none had_iac blank h = login_or_nothing banner had_iac blank h

nothing_after : (s t : Text) → s ++ t ≡ [] → t ≡ []
nothing_after [] t h = h
nothing_after (c ∷ s) t h = cc

-- Only a frame that has an IAC and holds nothing else but white space goes without an answer.
pub generate_telnet_response-nothing :
    (banner prompt raw : Text)
    → generate_telnet_response banner prompt raw ≡ []
    → (any (λ c. c == iac) raw ≡ true) × (is_blank (strip_iac raw) ≡ true)
unfolding generate_telnet_response
generate_telnet_response-nothing banner prompt raw h =
    prompt_for-nothing banner prompt (extract_telnet_credentials raw) _ _ (nothing_after _ _ h)
