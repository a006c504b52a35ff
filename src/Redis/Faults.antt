-- ===== src/Redis/Faults.antt =====
-- When the handler of manyfaced/handlers/redis_handler.py raises, and how much work a frame asks
-- of its parser.
use manyfaced_honeypot.Base.{
  ℕ, zero, suc, Bool, true, false, Option, none, some, List, [], ◌∷◌, ◌++◌, ◌≡◌, ◌⊎◌, inl, inr,
  ◌&&◌, not, is_some, refl, ap, ◌∙◌, arith, Text, codes, is_digit, text_eq, upper, any, decode_utf8,
  decode_utf8-append, IsAscii, parse_int, show_nat, show_nat-digits, parse_int-show_nat, IsReadable,
  pos, negsuc, ℤ, Option-cases,
}
use manyfaced_honeypot.Redis.Resp.{crlf, parse_resp_command, parse_args, prepend, of_count, parser}
use manyfaced_honeypot.Redis.RoundTrip.{NoReturn, digits-NoReturn, parse_resp_command-array}
use manyfaced_honeypot.Redis.Reply.{
  Reply, respond, send, index_error, hello_protocol, command_reply, generate_redis_response,
}

-- An argument of HELLO that `isdigit` takes for a number and `int` does not read.
abbrev pub is_false_number : Text → Bool
is_false_number tok = is_digit tok && not (is_some (parse_int tok))

hello_protocol-is_some :
    (proto : ℤ) (args : List Text)
    → is_some (hello_protocol proto args) ≡ not (any is_false_number args)
unfolding hello_protocol
hello_protocol-is_some proto [] = refl
hello_protocol-is_some proto (tok ∷ args) = elim (Option-cases (parse_int tok)) [
  | inl fails ↦ ground (arith, hello_protocol-is_some proto args)
  | inr (n, reads) ↦
      ground (arith, hello_protocol-is_some proto args, hello_protocol-is_some n args)
]

-- The frames on which the handler raises: those that parse to no argument, and those of a HELLO
-- with a false number.
abbrev pub raises : Option (List Text) → Bool
raises none = false
raises (some []) = true
raises (some (name ∷ args)) = text_eq (upper name) (codes "HELLO") && any is_false_number args

abbrev pub is_sent : Reply → Bool
is_sent (send out) = true
is_sent _ = false

-- The handler sends a reply to every frame but those that parse to no argument (IndexError), and
-- a HELLO with an argument that `isdigit` takes for a number and `int` does not read (ValueError).
pub generate_redis_response-is_sent :
    (trap : Option Text) (frame : Text)
    → is_sent (generate_redis_response trap frame)
      ≡ not (raises (parse_resp_command (decode_utf8 frame)))
unfolding generate_redis_response
generate_redis_response-is_sent trap frame = go (parse_resp_command (decode_utf8 frame))
  where
    go : (o : Option (List Text)) → is_sent (respond trap (decode_utf8 frame) o) ≡ not (raises o)
    go none = refl
    go (some []) = refl
    go (some (name ∷ args)) =
        unfold command_reply in ground (arith, hello_protocol-is_some (pos 3) args)

decode-array :
    (header body : Text)
    → IsAscii header
    → decode_utf8 ((codes "*" ++ header) ++ (crlf ++ body))
      ≡ (codes "*" ++ header) ++ (crlf ++ decode_utf8 body)
decode-array header body h =
    decode_utf8-append (codes "*" ++ header) (crlf ++ body) (omega arith, h)
    ∙ ap (λ s. (codes "*" ++ header) ++ s)
        (decode_utf8-append crlf body (omega arith, (omega arith, tt)))

respond-of_count :
    (trap : Option Text) (text rest : Text) (o : Option ℤ)
    → (o ≡ some (pos 0)) ⊎ ((n : ℕ) × (o ≡ some (negsuc n)))
    → respond trap text (of_count rest o) ≡ index_error
unfolding parse_args
respond-of_count trap text rest o (inl e) = rw e
respond-of_count trap text rest o (inr (n, e)) = rw e

-- An array that declares no element, or a negative number of them, makes the handler raise,
-- whatever follows its header.
pub generate_redis_response_of_count :
    (trap : Option Text) (header body : Text)
    → IsAscii header
    → NoReturn header
    → (parse_int header ≡ some (pos 0)) ⊎ ((n : ℕ) × (parse_int header ≡ some (negsuc n)))
    → generate_redis_response trap ((codes "*" ++ header) ++ (crlf ++ body)) ≡ index_error
generate_redis_response_of_count trap header body ascii h count =
    unfold generate_redis_response in
    (rw (decode-array header body ascii, parse_resp_command-array header (decode_utf8 body) h)
      (respond-of_count trap _ (decode_utf8 body) (parse_int header) count))

abbrev pub replicate {ℓ} : {A : Type ℓ} → ℕ → A → List A
replicate zero a = []
replicate (suc n) a = a ∷ replicate n a

-- An argument of a negative length, at which the parser's index returns to the start.
abbrev pub rewinding : Text
rewinding = codes "$-7" ++ crlf

rewind :
    (n : ℕ) → parse_args (suc n) rewinding (pos 0) ≡ prepend [] (parse_args n rewinding (pos 0))
unfolding parser
rewind n = refl

parse_args-rewinding : (n : ℕ) → parse_args n rewinding (pos 0) ≡ some (replicate n [])
parse_args-rewinding zero = unfold parse_args in refl
parse_args-rewinding (suc n) = rewind n ∙ rw (parse_args-rewinding n)

-- The arguments of a frame are not bounded by its size: the declared count followed by one length
-- line of -7 gives that many arguments, for every count that `int` reads.
pub parse_resp_command-rewinding :
    (n : ℕ)
    → IsReadable n
    → parse_resp_command ((codes "*" ++ show_nat n) ++ (crlf ++ rewinding)) ≡ some (replicate n [])
parse_resp_command-rewinding n few =
    parse_resp_command-array (show_nat n) rewinding (digits-NoReturn _ (show_nat-digits n))
    ∙ rw (parse_int-show_nat n few) (parse_args-rewinding n)
