-- ===== src/Rdp/Negotiation.antt =====
-- A client's negotiation with manyfaced/handlers/rdp_handler.py, and the framing of the replies.
use manyfaced_honeypot.Base.{
  ℕ, Bool-cases, inl, inr, starts_with, suc, ◌+◌, ◌*◌, ◌/◌, ◌%◌, ◌≤◌, false, Option, none, some, [],
  ◌∷◌, ◌++◌, ◌==◌, any, drop, take, length, length-append, drop-append, Text, ◌≡◌, refl, ap, subst,
  ◌∙◌, arith,
}
use manyfaced_honeypot.Mongodb.{pack_u32}
use manyfaced_honeypot.Mongodb.Framing.{pack_u32-bytes}
use manyfaced_honeypot.Rdp.{
  is_nla, confirm, requested_in, parse_x224, parse_x224_connection_request, connection_confirm,
  generate_rdp_response, initial_response, nla_challenge,
}

-- A client's negotiation request, for the protocols in four bytes.
abbrev pub request_of : ℕ → Text → Text
request_of flags protocols = 1 ∷ flags ∷ 8 ∷ 0 ∷ protocols

-- A client's Connection-Request: the code, two references and a class, a cookie, and the negotiation.
abbrev pub x224_of : Text → Text → ℕ → Text → Text
x224_of refs cookie flags protocols =
    (6 + length (cookie ++ request_of flags protocols)) ∷ 0xe0 ∷ refs
    ++ (cookie ++ request_of flags protocols)

unfoldable pub connection_request : Text → Text → ℕ → Text → Text
connection_request refs cookie flags protocols =
    let x224 = x224_of refs cookie flags protocols in
    3 ∷ 0 ∷ (4 + length x224) / 256 % 256 ∷ (4 + length x224) % 256 ∷ x224

take-append : (xs ys : Text) → take (length xs) (xs ++ ys) ≡ xs
take-append [] ys = refl
take-append (x ∷ xs) ys = ap (λ zs. x ∷ zs) (take-append xs ys)

-- A cookie without the byte 1 is passed over.
requested_in-cookie :
    (cookie s : Text)
    → any (λ c. c == 1) cookie ≡ false
    → requested_in (cookie ++ s) ≡ requested_in s
unfolding requested_in
requested_in-cookie [] s h = refl
requested_in-cookie (c ∷ cookie) s h = ground (arith, requested_in-cookie cookie s)

requested_in-request :
    (flags n : ℕ) (protocols : Text)
    → pack_u32 n ≡ some protocols
    → requested_in (request_of flags protocols) ≡ n
unfolding requested_in
requested_in-request flags n protocols h =
    let (small, e) = pack_u32-bytes n protocols h in
    subst (λ p. requested_in (request_of flags p) ≡ n) e (omega arith)

-- The user data of a Connection-Request is what follows the references.
user_data :
    (refs extra rest : Text) (code : ℕ)
    → length refs ≡ 5
    → drop 7 (take (1 + (6 + length extra)) ((6 + length extra) ∷ code ∷ refs ++ extra ++ rest))
      ≡ extra
user_data refs extra rest code five =
    let total : length (refs ++ extra) ≡ 5 + length extra =
      omega (arith, five, length-append refs extra) in
    let cut : take (5 + length extra) (refs ++ extra ++ rest) ≡ refs ++ extra =
      subst (λ n. take n (refs ++ extra ++ rest) ≡ refs ++ extra) total
        (take-append (refs ++ extra) rest) in
    let frame = (6 + length extra) ∷ code ∷ refs ++ extra ++ rest in
    let size : 1 + (6 + length extra) ≡ suc (suc (5 + length extra)) = omega arith in
    let left : drop 5 (refs ++ extra) ≡ extra =
      subst (λ n. drop n (refs ++ extra) ≡ extra) five (drop-append refs extra) in
    ap (λ n. drop 7 (take n frame)) size ∙ ap (drop 5) cut ∙ left

parse_x224-of :
    (refs extra rest : Text)
    → length refs ≡ 5
    → parse_x224 ((6 + length extra) ∷ 0xe0 ∷ refs ++ extra ++ rest) ≡ some (requested_in extra)
parse_x224-of refs extra rest five =
    let size = length-append (refs ++ extra) rest in
    let inner = length-append refs extra in
    let e = user_data refs extra rest 0xe0 five in
    ground (arith, size, inner, five, ap requested_in e)

answered :
    (nonce raw : Text) (n : ℕ)
    → length raw ≤ 100
    → parse_x224_connection_request raw ≡ some n
    → generate_rdp_response nonce raw ≡ connection_confirm n
unfolding generate_rdp_response
answered nonce raw n small read = ground (arith, read)

-- The header of a reply: version 3, the length of what follows it, and the length indicator, which
-- counts what follows itself.
abbrev pub IsFramed : Text → Type 0
IsFramed (version ∷ reserved ∷ high ∷ low ∷ li ∷ rest) =
    (version ≡ 3) × (reserved ≡ 0) × (256 * high + low ≡ suc (length rest)) × (li ≡ length rest)
IsFramed _ = ⊥

confirm-IsFramed : (requested : Option ℕ) → IsFramed (confirm requested)
unfolding initial_response connection_confirm
confirm-IsFramed none = (refl, refl, refl, refl)
confirm-IsFramed (some n) = (refl, refl, refl, refl)

-- Every reply to every frame, with a nonce of sixteen bytes, starts with version 3, a reserved 0 and the
-- length of what follows these four bytes; then comes the length indicator, which counts all the bytes
-- after itself.
pub generate_rdp_response-IsFramed :
    (nonce raw : Text) → length nonce ≡ 16 → IsFramed (generate_rdp_response nonce raw)
unfolding generate_rdp_response nla_challenge
generate_rdp_response-IsFramed nonce raw size = elim (Bool-cases (is_nla raw)) [
  | inl h ↦ rw h (refl, refl, omega (arith, size), omega (arith, size))
  | inr h ↦ rw h (confirm-IsFramed (parse_x224_connection_request raw))
]

-- A client's Connection-Request of at most a hundred bytes, with what came after it, whose cookie holds
-- no byte 1, is read as the protocols that it requests, and is answered with the Connection-Confirm.
pub generate_rdp_response-request :
    (nonce refs cookie rest : Text) (flags n : ℕ) (protocols : Text)
    → length refs ≡ 5
    → any (λ c. c == 1) cookie ≡ false
    → pack_u32 n ≡ some protocols
    → length (connection_request refs cookie flags protocols ++ rest) ≤ 100
    → (parse_x224_connection_request (connection_request refs cookie flags protocols ++ rest)
        ≡ some n)
      × (generate_rdp_response nonce (connection_request refs cookie flags protocols ++ rest)
          ≡ connection_confirm n)
unfolding parse_x224_connection_request connection_request starts_with
generate_rdp_response-request nonce refs cookie rest flags n protocols five clean packed small =
    let user = cookie ++ request_of flags protocols in
    let raw = connection_request refs cookie flags protocols ++ rest in
    let wanted : requested_in user ≡ n =
      requested_in-cookie cookie _ clean ∙ requested_in-request flags n protocols packed in
    let parsed = parse_x224-of refs user rest five in
    let read : parse_x224_connection_request raw ≡ some n = ground (
      arith,
      five,
      length-append (refs ++ user) rest,
      length-append refs user,
      parsed ∙ ap some wanted,
    ) in
    (read, answered nonce raw n small read)
