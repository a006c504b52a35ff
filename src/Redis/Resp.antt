-- ===== src/Redis/Resp.antt =====
-- RESP frames as manyfaced/handlers/redis_handler.py parses and encodes them
-- (`_parse_resp_command`, `_encode_resp_value`).
use manyfaced_honeypot.Base.{
  ℕ, zero, suc, ◌+◌, Bool, true, false, Option, none, some, List, [], ◌∷◌, ◌++◌, if◌then◌else◌,
  Text, codes, is_empty, drop, length, starts_with, split_once, strip, words, show_nat, parse_int,
  ℤ, pos, negsuc, ◌+ℤ◌, clip, slice, encode_utf8,
}

abbrev pub crlf : Text
crlf = 13 ∷ 10 ∷ []

-- Where the first CRLF stands in a text that begins at offset `n`.
unfoldable pub crlf_at : ℕ → Text → Option ℕ
unfolding starts_with
crlf_at n [] = none
crlf_at n (c ∷ s) = if starts_with crlf (c ∷ s) then some n else crlf_at (suc n) s

-- `s.find('\r\n', idx)`
unfoldable pub find_crlf : Text → ℤ → Option ℕ
unfolding crlf_at clip
find_crlf s idx = crlf_at (clip (length s) idx) (drop (clip (length s) idx) s)

abbrev pub prepend : Text → Option (List Text) → Option (List Text)
prepend a none = none
prepend a (some args) = some (a ∷ args)

-- The length line of an argument, `$n`; `none` where the parser gives up.
unfoldable pub bulk_length : Text → Option ℤ
bulk_length line = if starts_with (codes "$") line then parse_int (drop 1 line) else none

-- The loop over the arguments of an array, at index `idx` of what follows the header.
unfoldable pub parse_args : ℕ → Text → ℤ → Option (List Text)
parse_args zero rest idx = some []
parse_args (suc n) rest idx = elim (find_crlf rest idx) [
  | none ↦ none
  | some nl ↦ elim (bulk_length (slice rest idx (pos nl))) [
    | none ↦ none
    | some blen ↦
        prepend (slice rest (pos (nl + 2)) (pos (nl + 2) +ℤ blen))
          (parse_args n rest (pos (nl + 2) +ℤ blen +ℤ pos 2))
  ]
]

abbrev pub of_count : Text → Option ℤ → Option (List Text)
of_count rest none = none
of_count rest (some (pos n)) = parse_args n rest (pos 0)
of_count rest (some (negsuc n)) = some []

-- `text.partition('\r\n')`, without the separator
unfoldable pub partition_crlf : Text → Text × Text
partition_crlf s = elim (split_once crlf s) [ none ↦ (s, []) | some parts ↦ parts ]

-- `_parse_resp_command`, on the decoded frame
unfoldable pub parse_resp_command : Text → Option (List Text)
parse_resp_command [] = none
parse_resp_command (c ∷ s) =
    if starts_with (codes "*") (c ∷ s)
    then (let (header, rest) = partition_crlf (c ∷ s) in of_count rest (parse_int (drop 1 header)))
    else (let line = strip (c ∷ s) in if is_empty line then none else some (words line))

-- What `_encode_resp_value` is handed.
mutual
  pub data Value : Type 0 where
    bool : Bool → Value
    int : ℕ → Value
    str : Text → Value
    raw : Text → Value
    list : Values → Value
    dict : Fields → Value

  pub data Values : Type 0 where
    nil : Values
    cons : Value → Values → Values

  pub data Fields : Type 0 where
    end : Fields
    field : Text → Value → Fields → Fields

abbrev pub count_values : Values → ℕ
count_values nil = 0
count_values (cons v vs) = suc (count_values vs)

abbrev pub count_fields : Fields → ℕ
count_fields end = 0
count_fields (field k v fs) = suc (count_fields fs)

-- `$n`, the bytes and the two ends of line
abbrev pub bulk : Text → Text
bulk b = codes "$" ++ (show_nat (length b) ++ (crlf ++ (b ++ crlf)))

unfoldable mutual
  pub encode_resp_value : Value → Text
  encode_resp_value (bool true) = codes ":1" ++ crlf
  encode_resp_value (bool false) = codes ":0" ++ crlf
  encode_resp_value (int n) = codes ":" ++ (show_nat n ++ crlf)
  encode_resp_value (str s) = bulk (encode_utf8 s)
  encode_resp_value (raw b) = bulk b
  encode_resp_value (list vs) =
      codes "*" ++ (show_nat (count_values vs) ++ (crlf ++ encode_values vs))
  encode_resp_value (dict fs) =
      codes "%" ++ (show_nat (count_fields fs) ++ (crlf ++ encode_fields fs))

  pub encode_values : Values → Text
  encode_values nil = []
  encode_values (cons v vs) = encode_resp_value v ++ encode_values vs

  pub encode_fields : Fields → Text
  encode_fields end = []
  encode_fields (field k v fs) = bulk (encode_utf8 k) ++ (encode_resp_value v ++ encode_fields fs)

-- Everything that a run of the parser has to open.
unfoldable pub parser : Unit {0}
unfolding parse_resp_command partition_crlf split_once starts_with strip words parse_args parse_int
    find_crlf bulk_length slice ◌+ℤ◌
parser = tt
