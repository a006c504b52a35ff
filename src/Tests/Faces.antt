-- ===== src/Tests/Faces.antt =====
-- Examples on the faces without HTTP.
use manyfaced_honeypot.Base.{
  ◌≢◌, ◌<◌, All, all, ltb, ◌≤◌, true, Option, some, List, [], ◌∷◌, ◌++◌, length, any, ◌==◌, ◌≡◌,
  refl, arith, Text, codes, split, split_once, decode_utf8, starts_with, text_eq, is_space, upper,
  words, pos, show_nat, contains, lower, strip,
}
use manyfaced_honeypot.Mongodb.{
  op_msg, framed, joined, pack_u32, pack_i32, pack_i64, encode_doc, encode_elements, encode_items,
  encode_element, hello_reply_doc,
}
use manyfaced_honeypot.Mongodb.Decoder.{out_of_fuel, generate_op_msg_reply}
use manyfaced_honeypot.Mongodb.Framing.{HasHeader, framed-HasHeader}
use manyfaced_honeypot.Mongodb.Looping.{generate_op_msg_reply-loops}
use manyfaced_honeypot.Extractors.{
  nobody, split_lines, imap_lines, login_line, login_text, extract_pop3_credentials,
  extract_imap_credentials,
}
use manyfaced_honeypot.Extractors.Sessions.{
  Command, user_command, pass_command, wire_of, final, extract_pop3_credentials-wire_of,
}
use manyfaced_honeypot.Vnc.{is_http_probe, extract_vnc_credentials, generate_vnc_response}
use manyfaced_honeypot.Rdp.{
  parse_x224_connection_request, generate_rdp_response, connection_confirm, rdp_probe_signal,
  empty_connection,
}
use manyfaced_honeypot.Rdp.Negotiation.{
  connection_request, generate_rdp_response-request, IsFramed, generate_rdp_response-IsFramed,
}
use manyfaced_honeypot.Vnc.Handshake.{
  offered_types, IsWelcome, unhex, client_version, generate_vnc_response-login,
}
use manyfaced_honeypot.Telnet.{
  iac, do_option, will, opt_echo, strip_iac, handle_telnet_negotiation, extract_telnet_credentials,
  generate_telnet_response, is_blank, reply, prompt_for,
}
use manyfaced_honeypot.Telnet.Passes.{
  extract_from, run_pass, lines_of, remove_pairs, prompt_line, bare_line, pair_line, search_pair,
}
use manyfaced_honeypot.Telnet.Frames.{
  Frame, typed, command, wire, typed_of, Answers, strip_iac-wire, handle_telnet_negotiation-wire,
}
use manyfaced_honeypot.Telnet.Response.{generate_telnet_response-nothing}

-- the client asks for an echo, types a letter, and offers a window size
abbrev telnet_frames : List Frame
telnet_frames = command do_option opt_echo ∷ typed b'a' ∷ command will 0x1f ∷ []

strip_iac-wire_example : strip_iac (wire telnet_frames) ≡ typed_of telnet_frames
strip_iac-wire_example = strip_iac-wire telnet_frames (tt, (omega arith, (tt, tt)))

handle_telnet_negotiation-wire_example :
    Answers telnet_frames (handle_telnet_negotiation (wire telnet_frames))
handle_telnet_negotiation-wire_example =
    handle_telnet_negotiation-wire telnet_frames (tt, (omega arith, (tt, tt)))

-- a command that gets no answer, and a line break
abbrev telnet_noise : Text
telnet_noise = 0xff ∷ 0xf1 ∷ 0x01 ∷ 13 ∷ 10 ∷ []

telnet_noise_silent : generate_telnet_response (codes "x") (codes "y") telnet_noise ≡ []
unfolding generate_telnet_response handle_telnet_negotiation extract_telnet_credentials strip_iac
    reply prompt_for extract_from run_pass lines_of split remove_pairs decode_utf8 prompt_line
    contains lower strip bare_line pair_line search_pair
telnet_noise_silent = refl

generate_telnet_response-nothing_example :
    (any (λ c. c == iac) telnet_noise ≡ true) × (is_blank (strip_iac telnet_noise) ≡ true)
generate_telnet_response-nothing_example =
    generate_telnet_response-nothing (codes "x") (codes "y") telnet_noise telnet_noise_silent

telnet_login :
    extract_telnet_credentials (codes "login: root\r\nPassword: hunter2\r\n")
    ≡ some (codes "root", codes "hunter2")
unfolding extract_telnet_credentials strip_iac extract_from run_pass lines_of split remove_pairs
    decode_utf8 prompt_line contains lower strip split_once
telnet_login = refl

abbrev ascii : Text → Option Text
ascii s = some s

-- an OP_MSG whose document holds an empty document of length -2
abbrev endless : Text
endless =
    37 ∷ 0 ∷ 0 ∷ 0 ∷ 7 ∷ 0 ∷ 0 ∷ 0 ∷ 0 ∷ 0 ∷ 0 ∷ 0 ∷ 0xdd ∷ 7 ∷ 0 ∷ 0 ∷ 0 ∷ 0 ∷ 0 ∷ 0 ∷ 0 ∷ 16 ∷ 0
    ∷ 0 ∷ 0 ∷ 3 ∷ 0 ∷ 0xfe ∷ 0xff ∷ 0xff ∷ 0xff ∷ 0 ∷ 0 ∷ 0 ∷ 0 ∷ 0 ∷ 0 ∷ []

generate_op_msg_reply-loops_example :
    generate_op_msg_reply ascii 4000000000 1 (pos 0) endless ≡ out_of_fuel
generate_op_msg_reply-loops_example =
    generate_op_msg_reply-loops ascii endless (0 ∷ 0 ∷ 0 ∷ 0 ∷ 0 ∷ 0 ∷ []) 37 7 16 4000000000 1
      (pos 0) refl refl refl refl (omega arith) refl refl

-- a message with an empty document
abbrev small_message : Text
small_message =
    26 ∷ 0 ∷ 0 ∷ 0 ∷ 9 ∷ 0 ∷ 0 ∷ 0 ∷ 7 ∷ 0 ∷ 0 ∷ 0 ∷ 0xdd ∷ 7 ∷ 0 ∷ 0 ∷ 0 ∷ 0 ∷ 0 ∷ 0 ∷ 0 ∷ 5 ∷ 0
    ∷ 0 ∷ 0 ∷ 0 ∷ []

small-message : framed 9 7 op_msg (0 ∷ 0 ∷ 0 ∷ 0 ∷ 0 ∷ 5 ∷ 0 ∷ 0 ∷ 0 ∷ 0 ∷ []) ≡ some small_message
unfolding framed joined pack_u32
small-message = refl

framed-HasHeader_example :
    HasHeader 9 7 op_msg (0 ∷ 0 ∷ 0 ∷ 0 ∷ 0 ∷ 5 ∷ 0 ∷ 0 ∷ 0 ∷ 0 ∷ []) small_message
framed-HasHeader_example =
    framed-HasHeader 9 7 op_msg (0 ∷ 0 ∷ 0 ∷ 0 ∷ 0 ∷ 5 ∷ 0 ∷ 0 ∷ 0 ∷ 0 ∷ []) small_message
      small-message

hello_reply : (bytes : Text) × (encode_doc (hello_reply_doc (pos 1767323045000)) ≡ some bytes)
unfolding encode_doc encode_elements encode_items encode_element hello_reply_doc pack_i32 pack_i64
    pack_u32 show_nat
hello_reply = (_, refl)

-- sixteen bytes of an answer to a challenge
abbrev vnc_answer : Text
vnc_answer = 0xaa ∷ 1 ∷ 2 ∷ 3 ∷ 4 ∷ 5 ∷ 6 ∷ 7 ∷ 8 ∷ 9 ∷ 10 ∷ 11 ∷ 12 ∷ 13 ∷ 14 ∷ 15 ∷ []

below : (s : Text) → all (λ c. ltb c 256) s ≡ true → All (λ c. c < 256) s
below [] h = tt
below (c ∷ s) h = ground (arith, below s)

abbrev x11vnc : Text
x11vnc = codes "x11vnc"

abbrev vnc_version : Text
vnc_version = client_version (codes "003.008\n")

generate_vnc_response-login_example :
    (offered_types (generate_vnc_response vnc_answer x11vnc vnc_version) ≢ [])
    × (generate_vnc_response vnc_answer x11vnc (2 ∷ []) ≡ vnc_answer)
    × IsWelcome x11vnc (generate_vnc_response vnc_answer x11vnc vnc_answer)
    × ((captured : Text) × (extract_vnc_credentials vnc_answer
          ≡ some (codes "vnc-authenticated", captured))
        × (unhex captured ≡ vnc_answer))
unfolding is_http_probe starts_with text_eq generate_vnc_response
generate_vnc_response-login_example =
    generate_vnc_response-login vnc_answer x11vnc (codes "003.008\n") vnc_answer 2 (omega arith)
      refl (record { no_http = refl; no_masscan = refl; no_version = refl }) refl
      (below vnc_answer refl)

-- two names, and a password between them
abbrev mail_session : List Command
mail_session =
    user_command (codes "root") ∷ pass_command (codes "Secret1") ∷ user_command (codes "admin") ∷ []

extract_pop3_credentials-wire_of_example :
    extract_pop3_credentials (wire_of mail_session) ≡ login_text (final mail_session nobody)
unfolding is_space
extract_pop3_credentials-wire_of_example = extract_pop3_credentials-wire_of mail_session (
  ((refl, (refl, (refl, (refl, tt)))), refl),
  (
    ((refl, (refl, (refl, (refl, (refl, (refl, (refl, tt))))))), refl),
    (((refl, (refl, (refl, (refl, (refl, tt))))), refl), tt),
  ),
)

-- The case of an IMAP login is lost.
imap_login : extract_imap_credentials (codes "a1 LOGIN bob Secret\r\n") ≡ some (codes "BOB:SECRET")
unfolding extract_imap_credentials split_lines imap_lines login_line login_text contains upper strip
    words split_once
imap_login = refl

-- a client with a cookie that requests TLS and CredSSP
abbrev rdp_cookie : Text
rdp_cookie = codes "Cookie: mstshash=a\r\n"

abbrev rdp_refs : Text
rdp_refs = 0 ∷ 0 ∷ 0 ∷ 0 ∷ 0 ∷ []

abbrev rdp_request : Text
rdp_request = connection_request rdp_refs rdp_cookie 0 (3 ∷ 0 ∷ 0 ∷ 0 ∷ [])

three_packed : pack_u32 3 ≡ some (3 ∷ 0 ∷ 0 ∷ 0 ∷ [])
unfolding pack_u32
three_packed = refl

rdp_request-short : length (rdp_request ++ []) ≤ 100
unfolding connection_request
rdp_request-short = omega arith

generate_rdp_response-request_example :
    (parse_x224_connection_request (rdp_request ++ []) ≡ some 3)
    × (generate_rdp_response [] (rdp_request ++ []) ≡ connection_confirm 3)
generate_rdp_response-request_example =
    generate_rdp_response-request [] rdp_refs rdp_cookie [] 0 3 (3 ∷ 0 ∷ 0 ∷ 0 ∷ []) refl refl
      three_packed rdp_request-short

rdp_probe_blank : rdp_probe_signal (13 ∷ 10 ∷ 32 ∷ []) ≡ some empty_connection
unfolding rdp_probe_signal
rdp_probe_blank = refl

generate_rdp_response-IsFramed_example : IsFramed (generate_rdp_response vnc_answer rdp_request)
generate_rdp_response-IsFramed_example = generate_rdp_response-IsFramed vnc_answer rdp_request refl
