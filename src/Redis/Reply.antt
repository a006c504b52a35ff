-- ===== src/Redis/Reply.antt =====
-- `generate_redis_response` and `extract_redis_credentials` of
-- manyfaced/handlers/redis_handler.py. The logging of credentials is left out; the trap password
-- REDIS_AUTH_PASSWORD is the argument `trap`.
use manyfaced_honeypot.Base.{
  ℕ, Bool, true, false, not, ◌&&◌, ◌||◌, Option, none, some, List, [], ◌∷◌, ◌++◌, if◌then◌else◌,
  ◌==◌, leb, Text, String, codes, is_space, is_digit, is_digit_ascii, text_eq, contains,
  starts_with, split, upper, length, any, parse_int, ℤ, pos, negsuc, decode_utf8,
}
use manyfaced_honeypot.Protocol.Regex.{Class, seq}
use manyfaced_honeypot.Protocol.Signatures.{some_of, literal_ci}
use manyfaced_honeypot.Protocol.Info.{capture}
use manyfaced_honeypot.Redis.Resp.{
  crlf, bulk, parse_resp_command, Values, Fields, int, str, list, dict, nil, cons, end, field,
  encode_resp_value,
}

-- The bytes that are sent, or the exception that leaves the function.
pub data Reply : Type 0 where
  send : Text → Reply
  index_error value_error : Reply

-- `_HELLO_FIELDS`
abbrev hello_fields : Fields
hello_fields = field (codes "server") (str (codes "redis")) (
    field (codes "version") (str (codes "7.2.3")) (
      field (codes "proto") (int 3) (
        field (codes "id") (int 1) (
          field (codes "mode") (str (codes "standalone")) (
            field (codes "role") (str (codes "master"))
              (field (codes "modules") (list nil) end))))))

abbrev flatten : Fields → Values
flatten end = nil
flatten (field k v fs) = cons (str k) (cons v (flatten fs))

-- `_hello_reply`, at a protocol of at most 2 or above
unfoldable pub hello_reply : Bool → Text
unfolding encode_resp_value
hello_reply true = encode_resp_value (list (flatten hello_fields))
hello_reply false = encode_resp_value (dict hello_fields)

abbrev at_most_two : ℤ → Bool
at_most_two (pos n) = leb n 2
at_most_two (negsuc n) = true

-- The loop over the arguments of HELLO; `none` is the ValueError of `int`.
unfoldable pub hello_protocol : ℤ → List Text → Option ℤ
hello_protocol proto [] = some proto
hello_protocol proto (tok ∷ args) = elim (is_digit tok) [
  | true ↦ elim (parse_int tok) [ none ↦ none | some n ↦ hello_protocol n args ]
  | false ↦ hello_protocol proto args
]

unfoldable pub hello : Option ℤ → Reply
hello none = value_error
hello (some proto) = send (hello_reply (at_most_two proto))

-- `re.search(r'AUTH\s+(\S+)\s+(\S+)', text, re.IGNORECASE)`
abbrev not_space : Class
not_space c = not (is_space c)

unfoldable pub search_auth : Text → Option (Text × Text)
unfolding capture is_space
search_auth [] = none
search_auth (c ∷ s) =
    let later = search_auth s in
    elim (capture
      (seq (literal_ci (codes "AUTH")) (some_of is_space)
        ∷ some_of not_space
        ∷ some_of is_space
        ∷ some_of not_space
        ∷ [])
      (c ∷ s)) [ some (_ ∷ user ∷ _ ∷ password ∷ []) ↦ some (user, password) | _ ↦ later ]

-- `re.match(r'^\$(\d+)$', part)`
abbrev after_digits : Text → Bool
after_digits [] = true
after_digits (c ∷ []) = is_digit_ascii c || c == 10
after_digits (c ∷ c' ∷ s) = is_digit_ascii c && after_digits (c' ∷ s)

abbrev is_length_line : Text → Bool
is_length_line (d ∷ c ∷ s) = d == b'$' && is_digit_ascii c && after_digits s
is_length_line _ = false

-- The loop over `parts`: what follows each length line.
unfoldable pub bulk_parts : List Text → List Text
bulk_parts (part ∷ part' ∷ parts) =
    let taken = part' ∷ bulk_parts parts in
    let passed = bulk_parts (part' ∷ parts) in if is_length_line part then taken else passed
bulk_parts _ = []

abbrev second_third : List Text → Option (Text × Text)
second_third (_ ∷ user ∷ password ∷ _) = some (user, password)
second_third _ = none

unfoldable pub bulk_credentials : Text → Option (Text × Text)
unfolding bulk_parts split contains upper
bulk_credentials text =
    if contains (codes "AUTH") (upper text)
    then second_third (bulk_parts (split crlf text))
    else none

unfoldable pub extract_redis_credentials : Text → Option (Text × Text)
unfolding search_auth bulk_credentials starts_with
extract_redis_credentials text = elim (search_auth text) [
  | some (user, password) ↦
      if starts_with (codes "$") user || starts_with (codes "$") password
      then bulk_credentials text
      else some (user, password)
  | none ↦ bulk_credentials text
]

abbrev password_of : Option (Text × Text) → Text
password_of none = []
password_of (some (_, password)) = password

abbrev is_trapped : Option Text → Text → Bool
is_trapped none password = false
is_trapped (some trap) password = not (text_eq password trap)

-- The reply to AUTH.
unfoldable pub auth_reply : Option Text → Text → Text
auth_reply trap text =
    if is_trapped trap (password_of (extract_redis_credentials text))
    then codes "-ERR invalid password" ++ crlf
    else codes "+OK" ++ crlf

-- A reply for each channel, under one header.
unfoldable pub subscriptions : ℕ → List Text → Text
unfolding encode_resp_value
subscriptions n [] = []
subscriptions n (channel ∷ channels) =
    encode_resp_value (str (codes "subscribe"))
    ++ (encode_resp_value (str channel) ++ (encode_resp_value (int n) ++ subscriptions n channels))

abbrev first_upper : List Text → Text
first_upper [] = []
first_upper (a ∷ _) = upper a

unfoldable pub cluster_reply : List Text → Text
unfolding encode_resp_value upper text_eq
cluster_reply args =
    if any (λ w. text_eq (first_upper args) (codes w)) ("INFO" ∷ "NODES" ∷ "SLOTS" ∷ [])
    then encode_resp_value (str [])
    else codes "*0" ++ crlf

unfoldable pub echo_reply : List Text → Text
unfolding encode_resp_value
echo_reply [] = codes "+OK" ++ crlf
echo_reply (a ∷ _) = encode_resp_value (str a)

abbrev line : String → Text
line s = codes s ++ crlf

-- The replies below AUTH, by command.
unfoldable pub simple_reply : Text → List Text → Text
unfolding text_eq cluster_reply echo_reply subscriptions
simple_reply cmd args =
    let is = λ (w : String). text_eq cmd (codes w) in
    if is "PING"
    then line "+PONG"
    else if is "VERSION"
    then line "VERSION 7.2.3"
    else if is "SET"
    then line "+OK"
    else if is "GET"
    then line "$-1"
    else if is "DEL" || is "EXISTS"
    then line ":0"
    else if is "LPUSH" || is "EXPIRE"
    then line ":1"
    else if is "EVAL"
    then bulk (codes "OK")
    else if is "SUBSCRIBE"
    then line "*3" ++ subscriptions (length args) args
    else if is "PUBLISH"
    then line ":0"
    else if is "CLUSTER"
    then cluster_reply args
    else if is "COMMAND"
    then line "*0"
    else if is "ECHO"
    then echo_reply args
    else if is "INFO"
    then line "$0" ++ crlf
    else if is "KEYS" || is "CONFIG" || is "CLIENT" || is "SELECT"
    then line "+OK"
    else line "+PONG"

unfoldable pub command_reply : Option Text → Text → Text → List Text → Reply
unfolding text_eq hello hello_protocol hello_reply auth_reply simple_reply
command_reply trap text cmd args =
    if text_eq cmd (codes "HELLO")
    then hello (hello_protocol (pos 3) args)
    else if text_eq cmd (codes "AUTH")
    then send (auth_reply trap text)
    else send (simple_reply cmd args)

abbrev pub respond : Option Text → Text → Option (List Text) → Reply
respond trap text none = send (line "+PONG")
respond trap text (some []) = index_error
respond trap text (some (name ∷ args)) = command_reply trap text (upper name) args

-- `generate_redis_response` on the bytes of a frame
unfoldable pub generate_redis_response : Option Text → Text → Reply
generate_redis_response trap frame =
    respond trap (decode_utf8 frame) (parse_resp_command (decode_utf8 frame))
