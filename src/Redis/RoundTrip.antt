-- ===== src/Redis/RoundTrip.antt =====
-- A client's command, an array of bulk strings, is parsed back by the handler of
-- manyfaced/handlers/redis_handler.py, whatever its arguments contain, if they are ASCII.
use manyfaced_honeypot.Base.{
  ℕ, suc, ◌+◌, ◌-◌, ◌≤◌, ◌<◌, some, List, [], ◌∷◌, ◌++◌, ◌≡◌, ◌≢◌, refl, sym, ap, subst, ◌∙◌, arith,
  Text, codes, length, take-append, drop-append, length-append, All, All-append, append_assoc,
  append-nil, show_nat, show_nat-digits, IsDigit, parse_int, parse_int-show_nat, IsReadable, ℤ, pos,
  ◌+ℤ◌, clip, slice, encode_utf8_ascii, decode_utf8, decode_utf8-append, IsAscii, split_once,
  starts_with, min,
}
use manyfaced_honeypot.Redis.Resp.{
  crlf, crlf_at, find_crlf, bulk_length, parse_args, partition_crlf, parse_resp_command, prepend,
  of_count, Value, Values, str, list, nil, cons, encode_resp_value, encode_values, count_values,
}

-- The value that a client encodes for a command.
abbrev pub texts : List Text → Values
texts [] = nil
texts (a ∷ args) = cons (str a) (texts args)

abbrev pub command : List Text → Value
command args = list (texts args)

abbrev pub NoReturn : Text → Type 0
NoReturn = All (λ c. c ≢ 13)

pub digits-NoReturn : (s : Text) → All IsDigit s → NoReturn s
digits-NoReturn [] h = tt
digits-NoReturn (c ∷ s) (p, h) = (omega arith, digits-NoReturn s h)

digits-IsAscii : (s : Text) → All IsDigit s → IsAscii s
digits-IsAscii [] h = tt
digits-IsAscii (c ∷ s) (p, h) = (omega arith, digits-IsAscii s h)

crlf_at-append :
    (n : ℕ) (p q : Text) → NoReturn p → crlf_at n (p ++ (crlf ++ q)) ≡ some (n + length p)
unfolding crlf_at
crlf_at-append n [] q h = ground arith
crlf_at-append n (c ∷ p) q (other, h) = ground (arith, crlf_at-append (suc n) p q h)

split_once-crlf : (p q : Text) → NoReturn p → split_once crlf (p ++ (crlf ++ q)) ≡ some (p, q)
unfolding split_once
split_once-crlf [] q h = refl
split_once-crlf (c ∷ p) q (other, h) = ground (arith, split_once-crlf p q h)

clip_pos : (n len : ℕ) → n ≤ len → clip len (pos n) ≡ n
unfolding clip
clip_pos n len h = omega arith

-- A slice between two lengths takes what stands between.
slice-append :
    (x y z : Text) (i j : ℕ)
    → i ≡ length x
    → j ≡ length x + length y
    → slice (x ++ (y ++ z)) (pos i) (pos j) ≡ y
unfolding slice
slice-append x y z i j ei ej =
    let len : length (x ++ (y ++ z)) ≡ length x + (length y + length z) =
      length-append x (y ++ z) ∙ ap (λ (m : ℕ). length x + m) (length-append y z) in
    let from : min i (length (x ++ (y ++ z))) ≡ length x = omega arith in
    let to : min j (length (x ++ (y ++ z))) ≡ length x + length y = omega arith in
    let size : length x + length y - length x ≡ length y = omega arith in
    rw (from, to, drop-append x (y ++ z), size) (take-append y z)

find_crlf-append :
    (x p q : Text)
    → NoReturn p
    → find_crlf (x ++ (p ++ (crlf ++ q))) (pos (length x)) ≡ some (length x + length p)
unfolding find_crlf
find_crlf-append x p q h =
    let fits : clip (length (x ++ (p ++ (crlf ++ q)))) (pos (length x)) ≡ length x =
      clip_pos (length x) _ (omega (arith, length-append x (p ++ (crlf ++ q)))) in
    rw (fits, drop-append x (p ++ (crlf ++ q))) (crlf_at-append (length x) p q h)

dollar_line : ℕ → Text
dollar_line n = codes "$" ++ show_nat n

bulk_length-dollar_line : (n : ℕ) → IsReadable n → bulk_length (dollar_line n) ≡ some (pos n)
unfolding bulk_length starts_with dollar_line
bulk_length-dollar_line n few = parse_int-show_nat n few

dollar_line-NoReturn : (n : ℕ) → NoReturn (dollar_line n)
unfolding dollar_line
dollar_line-NoReturn n = (omega arith, digits-NoReturn (show_nat n) (show_nat-digits n))

pos_add : (a b : ℕ) → pos a +ℤ pos b ≡ pos (a + b)
unfolding ◌+ℤ◌
pos_add a b = ground arith

regroup :
    (x line a more : Text)
    → (x ++ (line ++ crlf)) ++ (a ++ (crlf ++ more))
      ≡ x ++ (line ++ (crlf ++ (a ++ (crlf ++ more))))
regroup x line a more = simp append_assoc

-- One round of the parser's loop, where its tests succeed.
parse_args_step :
    (n : ℕ) (rest : Text) (idx : ℤ) (nl : ℕ) (blen : ℤ)
    → find_crlf rest idx ≡ some nl
    → bulk_length (slice rest idx (pos nl)) ≡ some blen
    → parse_args (suc n) rest idx
      ≡ prepend
          (slice rest (pos (nl + 2)) (pos (nl + 2) +ℤ blen))
          (parse_args n rest (pos (nl + 2) +ℤ blen +ℤ pos 2))
unfolding parse_args
parse_args_step n rest idx nl blen found size = ground arith

-- One round of the parser's loop at the start of a bulk string.
parse_args-bulk :
    (n : ℕ) (x a more : Text)
    → IsReadable (length a)
    → parse_args
        (suc n)
        (x ++ (dollar_line (length a) ++ (crlf ++ (a ++ (crlf ++ more)))))
        (pos (length x))
      ≡ prepend a (
          parse_args n
            (x ++ (dollar_line (length a) ++ (crlf ++ (a ++ (crlf ++ more)))))
            (pos (length x + length (dollar_line (length a)) + 2 + length a + 2)))
parse_args-bulk n x a more few =
    let line = dollar_line (length a) in
    let w = x ++ (line ++ (crlf ++ (a ++ (crlf ++ more)))) in
    let nl = length x + length line in
    let found : find_crlf w (pos (length x)) ≡ some nl =
      find_crlf-append x line (a ++ (crlf ++ more)) (dollar_line-NoReturn (length a)) in
    let header : slice w (pos (length x)) (pos nl) ≡ line =
      slice-append x line (crlf ++ (a ++ (crlf ++ more))) (length x) nl refl refl in
    let size : bulk_length line ≡ some (pos (length a)) = bulk_length-dollar_line (length a) few in
    let body : slice w (pos (nl + 2)) (pos (nl + 2 + length a)) ≡ a =
      subst (λ v. slice v (pos (nl + 2)) (pos (nl + 2 + length a)) ≡ a) (regroup x line a more)
        (slice-append (x ++ (line ++ crlf)) a (crlf ++ more) (nl + 2) (nl + 2 + length a)
          (omega (arith, length-append x (line ++ crlf), length-append line crlf))
          (omega (arith, length-append x (line ++ crlf), length-append line crlf))) in
    parse_args_step n w (pos (length x)) nl (pos (length a)) found (rw header size)
    ∙ rw (pos_add (nl + 2) (length a), pos_add (nl + 2 + length a) 2, body)

-- The number of the arguments and the size of each are written in at most 4300 digits.
abbrev pub HasReadableSizes : List Text → Type 0
HasReadableSizes args = IsReadable (length args) × All (λ a. IsReadable (length a)) args

abbrev bulks : List Text → Text
bulks [] = []
bulks (a ∷ args) = dollar_line (length a) ++ (crlf ++ (a ++ (crlf ++ bulks args)))

-- The loop reads the bulk strings that begin where it stands.
parse_args-bulks :
    (x : Text) (args : List Text)
    → All (λ a. IsReadable (length a)) args
    → parse_args (length args) (x ++ bulks args) (pos (length x)) ≡ some args
parse_args-bulks x [] h = unfold parse_args in refl
parse_args-bulks x (a ∷ args) (few, h) =
    let line = dollar_line (length a) in
    let x' = x ++ (line ++ (crlf ++ (a ++ crlf))) in
    let same : x' ++ bulks args ≡ x ++ bulks (a ∷ args) = simp append_assoc in
    let far : length x + length line + 2 + length a + 2 ≡ length x' = omega (
      arith,
      length-append x (line ++ (crlf ++ (a ++ crlf))),
      length-append line (crlf ++ (a ++ crlf)),
      length-append a crlf,
    ) in
    parse_args-bulk (length args) x a (bulks args) few
    ∙ rw (far, ← same) (rw (parse_args-bulks x' args h) refl)

count_values-texts : (args : List Text) → count_values (texts args) ≡ length args
count_values-texts [] = refl
count_values-texts (a ∷ args) = ap suc (count_values-texts args)

IsAscii-append : (s t : Text) → IsAscii s → IsAscii t → IsAscii (s ++ t)
IsAscii-append s t h k = All-append (λ c. c < 128) s t h k

abbrev pub AllAscii : List Text → Type 0
AllAscii = All IsAscii

encode_values-texts : (args : List Text) → AllAscii args → encode_values (texts args) ≡ bulks args
unfolding encode_resp_value dollar_line
encode_values-texts [] h = refl
encode_values-texts (a ∷ args) (p, h) =
    simp (encode_utf8_ascii a p, encode_values-texts args h, append_assoc)

bulks-IsAscii : (args : List Text) → AllAscii args → IsAscii (bulks args)
unfolding dollar_line
bulks-IsAscii [] h = tt
bulks-IsAscii (a ∷ args) (p, h) = (
  omega arith,
  IsAscii-append (show_nat (length a)) _ (digits-IsAscii _ (show_nat-digits (length a))) (
    omega arith,
    (omega arith, IsAscii-append a _ p (omega arith, (omega arith, bulks-IsAscii args h))),
  ),
)

decode_utf8-ascii : (s : Text) → IsAscii s → decode_utf8 s ≡ s
decode_utf8-ascii s h = sym (ap decode_utf8 (append-nil s)) ∙ decode_utf8-append s [] h ∙ tail
  where
    tail : s ++ decode_utf8 [] ≡ s
    tail = unfold decode_utf8 in append-nil s

-- The frame of a command, with its header and its arguments apart.
frame : List Text → Text
frame args = (codes "*" ++ show_nat (length args)) ++ (crlf ++ bulks args)

encode-command : (args : List Text) → AllAscii args → encode_resp_value (command args) ≡ frame args
unfolding encode_resp_value frame
encode-command args h = simp (count_values-texts args, encode_values-texts args h, append_assoc)

frame-IsAscii : (args : List Text) → AllAscii args → IsAscii (frame args)
unfolding frame
frame-IsAscii args h = (
  omega arith,
  IsAscii-append (show_nat (length args)) _ (digits-IsAscii _ (show_nat-digits (length args)))
      (omega arith, (omega arith, bulks-IsAscii args h)),
)

partition_crlf-append : (p q : Text) → NoReturn p → partition_crlf (p ++ (crlf ++ q)) ≡ (p, q)
unfolding partition_crlf
partition_crlf-append p q h = rw (split_once-crlf p q h, partition_crlf)

-- A frame that begins with a star is a header, up to the first end of line, and its arguments.
pub parse_resp_command-array :
    (header rest : Text)
    → NoReturn header
    → parse_resp_command ((codes "*" ++ header) ++ (crlf ++ rest))
      ≡ of_count rest (parse_int header)
unfolding parse_resp_command starts_with
parse_resp_command-array header rest h =
    rw (partition_crlf-append (codes "*" ++ header) rest (omega arith, h), parse_resp_command)

parse-frame :
    (args : List Text) → HasReadableSizes args → parse_resp_command (frame args) ≡ some args
unfolding frame
parse-frame args (few, h) =
    parse_resp_command-array (show_nat (length args)) (bulks args)
      (digits-NoReturn _ (show_nat-digits (length args)))
    ∙ rw (parse_int-show_nat (length args) few) (parse_args-bulks [] args h)

-- A command that a client encodes is parsed back to its arguments, if these are ASCII, and their
-- number and sizes have at most 4300 digits, the default limit of `int`. The arguments may be
-- empty, hold spaces, line ends or dollar signs.
pub parse_resp_command-encode :
    (args : List Text)
    → AllAscii args
    → HasReadableSizes args
    → parse_resp_command (decode_utf8 (encode_resp_value (command args))) ≡ some args
parse_resp_command-encode args h few =
    rw (encode-command args h, decode_utf8-ascii (frame args) (frame-IsAscii args h))
      (parse-frame args few)
