-- ===== src/Tests/Wire.antt =====
-- Concrete inputs of the protocol signatures and of the Redis handler.
use manyfaced_honeypot.Base.{
  show_nat, is_digit_char, strip, ℕ, true, false, not, none, some, List, [], ◌∷◌, ◌≡◌, ◌≢◌, refl,
  arith, Text, codes, ◌<◌, All, all, ltb, ◌==◌, pos, parse_int, decode_utf8, strip, split_once,
}
use manyfaced_honeypot.Protocol.Regex.{is_match}
use manyfaced_honeypot.Protocol.Signatures.{
  detect_protocol, is_http_request, signatures, http_pattern, all_patterns, first_match, ssh, http,
  smtp, mongodb,
}
use manyfaced_honeypot.Protocol.Detection.{
  Verdict, detect_protocol-Verdict, detect_protocol-ne-smtp,
}
use manyfaced_honeypot.Protocol.Info.{capture, found, get_protocol_info}
use manyfaced_honeypot.Redis.Resp.{parse_resp_command, encode_resp_value}
use manyfaced_honeypot.Redis.RoundTrip.{
  command, AllAscii, HasReadableSizes, parse_resp_command-encode,
}
use manyfaced_honeypot.Redis.Reply.{hello_protocol, generate_redis_response}
use manyfaced_honeypot.Redis.Faults.{
  is_sent, raises, is_false_number, generate_redis_response-is_sent,
}

test_ssh :
    get_protocol_info (codes "SSH-2.0-Go \r\n") ≡ record (found (codes "SSH-2.0-Go \r\n") ssh) {
      version = some (codes "SSH-2.0-Go \r");
      client = some (codes "Go");
    }
unfolding get_protocol_info capture strip split_once
test_ssh = refl

test_http : (get_protocol_info (codes "GET  /a HTTP/1.1x")).version ≡ some (codes "1.1")
unfolding get_protocol_info capture
test_http = refl

abbrev ssh_banner : Text
ssh_banner = codes "SSH-2.0-Go\r\n"

abbrev http_get : Text
http_get = codes "GET / HTTP/1.1\r\n\r\n"

abbrev mongo_query : Text
mongo_query =
    58 ∷ 0 ∷ 0 ∷ 0 ∷ 1 ∷ 0 ∷ 0 ∷ 0 ∷ 0 ∷ 0 ∷ 0 ∷ 0 ∷ 212 ∷ 7 ∷ 0 ∷ 0 ∷ 0 ∷ 0 ∷ 0 ∷ 0 ∷ 212 ∷ 7 ∷ 0
    ∷ 0 ∷ []

detect_protocol-Verdict_example :
    Verdict signatures ssh_banner (detect_protocol ssh_banner) × (detect_protocol [] ≡ none)
detect_protocol-Verdict_example = detect_protocol-Verdict b'S' (codes "SH-2.0-Go\r\n")

detect_protocol-ne-smtp_example : detect_protocol (codes "220 mail ESMTP") ≢ some smtp
detect_protocol-ne-smtp_example = detect_protocol-ne-smtp (codes "220 mail ESMTP")

http_get_is_request : is_http_request http_get ≡ true
unfolding is_http_request is_match http_pattern
http_get_is_request = refl

mongo_query_is_mongodb : detect_protocol mongo_query ≡ some mongodb
unfolding detect_protocol all_patterns signatures first_match is_match
mongo_query_is_mongodb = refl

ssh_banner_info : (get_protocol_info ssh_banner).protocol ≡ some ssh
unfolding get_protocol_info capture strip split_once
ssh_banner_info = refl

http_get_info : (get_protocol_info http_get).protocol ≡ some http
unfolding get_protocol_info capture strip split_once
http_get_info = refl

abbrev set_command : List Text
set_command = codes "SET" ∷ codes "k" ∷ codes "a\r\n$b" ∷ []

ascii : (s : Text) → all (λ c. ltb c 128) s ≡ true → All (λ c. c < 128) s
ascii [] h = tt
ascii (c ∷ s) h = ground (arith, ascii s)

not_return : (c : ℕ) → (c == 13) ≡ false → c ≢ 13
not_return c h = ground arith

set_command_is_ascii : AllAscii set_command
set_command_is_ascii =
    (ascii (codes "SET") refl, (ascii (codes "k") refl, (ascii (codes "a\r\n$b") refl, tt)))

set_command_sizes : HasReadableSizes set_command
unfolding show_nat
set_command_sizes = (omega arith, (omega arith, (omega arith, (omega arith, tt))))

-- a circled two is a digit that no number is read from, and an Arabic two is one that is
circled_two : is_false_number (0x2461 ∷ []) ≡ true
unfolding is_digit_char parse_int strip
circled_two = refl

arabic_two : hello_protocol (pos 3) ((0x662 ∷ []) ∷ []) ≡ some (pos 2)
unfolding is_digit_char parse_int hello_protocol strip
arabic_two = refl

parse_resp_command-encode_example :
    parse_resp_command (decode_utf8 (encode_resp_value (command set_command))) ≡ some set_command
parse_resp_command-encode_example =
    parse_resp_command-encode set_command set_command_is_ascii set_command_sizes

generate_redis_response-is_sent_example :
    is_sent (generate_redis_response none (codes "*1\r\n$4\r\nPING\r\n"))
    ≡ not (raises (parse_resp_command (decode_utf8 (codes "*1\r\n$4\r\nPING\r\n"))))
generate_redis_response-is_sent_example =
    generate_redis_response-is_sent none (codes "*1\r\n$4\r\nPING\r\n")

zero_count : parse_int (codes "0") ≡ some (pos 0)
unfolding parse_int
zero_count = refl
