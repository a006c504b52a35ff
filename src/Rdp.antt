-- ===== src/Rdp.antt =====
-- manyfaced/handlers/rdp_handler.py: the frames that it reads and the replies that it writes. A frame is
-- bytes; the random nonce is a parameter. The credentials are only logged and are left out.
pub mod Negotiation
use manyfaced_honeypot.Base.{
  ℕ, ◌+◌, ◌*◌, ◌/◌, ◌%◌, Bool, true, false, not, ◌&&◌, ◌||◌, Option, none, some, [], ◌∷◌, ◌++◌,
  if◌then◌else◌, ◌==◌, ltb, leb, all, map, drop, take, length, Text, codes, starts_with, contains,
}
use manyfaced_honeypot.Protocol.Mongo.{read_le}

-- the bytes that `bytes.strip` removes
abbrev pub is_space_byte : ℕ → Bool
is_space_byte c = (leb 9 c && leb c 13) || c == 32

-- `EMPTY_CONNECTION`
abbrev pub empty_connection : ℕ
empty_connection = 4294967291

-- `rdp_probe_signal`
unfoldable pub rdp_probe_signal : Text → Option ℕ
rdp_probe_signal raw = if all is_space_byte raw then some empty_connection else none

-- a negotiation request: eight bytes, which say that they are eight
abbrev pub is_neg_req : Text → Bool
is_neg_req (kind ∷ flags ∷ low ∷ high ∷ a ∷ b ∷ c ∷ d ∷ _) = low + 256 * high == 8
is_neg_req _ = false

-- the loop over the positions of the byte 1 in the user data
unfoldable pub requested_in : Text → ℕ
requested_in [] = 0
requested_in (c ∷ s) =
    let rest = requested_in s in
    if c == 1 && is_neg_req (c ∷ s) then read_le (drop 4 (c ∷ s)) else rest

-- what follows the TPKT header
abbrev pub parse_x224 : Text → Option ℕ
parse_x224 (li ∷ code ∷ s) =
    if not (code / 16 == 14)
    then none
    else if ltb li 6 || ltb (length (li ∷ code ∷ s)) (1 + li)
    then none
    else some (requested_in (drop 7 (take (1 + li) (li ∷ code ∷ s))))
parse_x224 _ = none

-- `_parse_x224_connection_request`
unfoldable pub parse_x224_connection_request : Text → Option ℕ
parse_x224_connection_request raw =
    if ltb (length raw) 7 || not (starts_with (3 ∷ []) raw) then none else parse_x224 (drop 4 raw)

-- the TPKT header with the length of what follows it
abbrev pub tpkt : Text → Text
tpkt payload = 3 ∷ 0 ∷ length payload / 256 % 256 ∷ length payload % 256 ∷ payload

-- `_generate_initial_response`
unfoldable pub initial_response : Text
initial_response = tpkt (6 ∷ 0xd0 ∷ 0 ∷ 0 ∷ 0 ∷ 0 ∷ 0 ∷ [])

abbrev pub neg_rsp : Text
neg_rsp = 2 ∷ 0 ∷ 8 ∷ 0 ∷ 0 ∷ 0 ∷ 0 ∷ 0 ∷ []

-- `_generate_connection_confirm`: classic security, whatever was requested
unfoldable pub connection_confirm : ℕ → Text
connection_confirm requested = tpkt ((6 + length neg_rsp) ∷ 0xd0 ∷ 0 ∷ 0 ∷ 0 ∷ 1 ∷ 0 ∷ neg_rsp)

abbrev pub ts_request : Text → Text
ts_request nonce =
    0x30 ∷ (4 + length nonce) ∷ 0xa0 ∷ (2 + length nonce) ∷ 0x30 ∷ length nonce ∷ nonce

-- `_generate_nla_challenge`
unfoldable pub nla_challenge : Text → Text
nla_challenge nonce = tpkt ((1 + length (ts_request nonce)) ∷ 0xf0 ∷ ts_request nonce)

-- `bytes.lower`
abbrev pub lower_byte : ℕ → ℕ
lower_byte c = if leb 65 c && leb c 90 then c + 32 else c

abbrev pub is_nla : Text → Bool
is_nla raw =
    ltb 100 (length raw)
    && (contains (codes "nla") (map lower_byte raw)
        || contains (codes "tsrequest") (map lower_byte raw))

-- the reply to a Connection-Request, and to what is none
abbrev pub confirm : Option ℕ → Text
confirm none = initial_response
confirm (some requested) = connection_confirm requested

-- `generate_rdp_response`
unfoldable pub generate_rdp_response : Text → Text → Text
generate_rdp_response nonce raw =
    if is_nla raw then nla_challenge nonce else confirm (parse_x224_connection_request raw)
