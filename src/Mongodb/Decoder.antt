-- ===== src/Mongodb/Decoder.antt =====
-- The BSON reader of manyfaced/handlers/mongodb_handler.py. A position is a Python int, and may fall below the
-- start of the buffer, from where Python reads from the end: the model stops there. The loops run on
-- fuel.
use manyfaced_honeypot.Base.{
  ℕ, zero, suc, ◌+◌, ◌-◌, ◌*◌, ◌^◌, slice, Bool, true, false, not, ◌||◌, Option, none, some, [],
  ◌∷◌, if◌then◌else◌, ◌==◌, ltb, drop, take, length, Text, text_eq, ℤ, pos, negsuc, ◌+ℤ◌, negate,
  show_nat,
}
use manyfaced_honeypot.Mongodb.{
  Bson, double, text, document, array, boolean, date, null, integer, Elements, end, element, Items,
  nil, cons, encode_doc, hello_reply_doc, op_msg_of,
}

pub data Decoded (A : Type 0) : Type 0 where
  done : A → Decoded A
  raised below_start out_of_fuel : Decoded A

infixl 5 ◌>>=◌
abbrev pub ◌>>=◌ : {A B : Type 0} → Decoded A → (A → Decoded B) → Decoded B
done a >>= f = f a
raised >>= f = raised
below_start >>= f = below_start
out_of_fuel >>= f = out_of_fuel

-- a signed number of `w` bits
abbrev pub signed : ℕ → ℕ → ℤ
signed w n = if ltb n (2 ^ (w - 1)) then pos n else negate (2 ^ w - n)

abbrev pub int32_at : Text → Decoded ℤ
int32_at (a ∷ b ∷ c ∷ d ∷ s) = done (signed 32 (a + 256 * b + 65536 * c + 16777216 * d))
int32_at s = raised

abbrev pub int64_at : Text → Decoded ℤ
int64_at (a ∷ b ∷ c ∷ d ∷ e ∷ f ∷ g ∷ h ∷ s) = done (
    signed 64 (
      a
      + 256 * b
      + 65536 * c
      + 16777216 * d
      + 4294967296 * (e + 256 * f + 65536 * g + 16777216 * h)))
int64_at s = raised

abbrev pub byte_at : Text → Decoded ℕ
byte_at [] = raised
byte_at (c ∷ s) = done c

-- the bytes before the next NUL, and how many were passed with it
unfoldable pub cstring_at : Text → Decoded (Text × ℕ)
cstring_at [] = raised
cstring_at (c ∷ s) =
    let rest = (do (name, n) ← cstring_at s; done (c ∷ name, suc n)) in
    if c == 0 then done ([], 1) else rest

abbrev pub eight_at : Text → Decoded Text
eight_at s = if ltb (length s) 8 then raised else done (take 8 s)

-- what is read from a position on
abbrev pub from : {A : Type 0} → (Text → Decoded A) → Text → ℤ → Decoded A
from f buf (pos p) = f (drop p buf)
from f buf (negsuc n) = below_start

-- `p < q`
unfoldable pub ltz : ℤ → ℤ → Bool
ltz (pos m) (pos n) = ltb m n
ltz (pos m) (negsuc n) = false
ltz (negsuc m) (pos n) = true
ltz (negsuc m) (negsuc n) = ltb n m

-- `doc[name] = value`
abbrev pub set_element : Text → Bson → Elements → Elements
set_element name v end = element name v end
set_element name v (element k w es) =
    if text_eq k name then element k v es else element k w (set_element name v es)

abbrev pub find_element : Text → Elements → Option Bson
find_element name end = none
find_element name (element k v es) = if text_eq k name then some v else find_element name es

abbrev pub size : Elements → ℕ
size end = 0
size (element k v es) = suc (size es)

-- `[sub[str(i)] for i in range(len(sub))]` from an index on, with the number of indices left
abbrev pub items_from : ℕ → ℕ → Elements → Decoded Items
items_from i zero sub = done nil
items_from i (suc n) sub = elim (find_element (show_nat i) sub) [
  | none ↦ raised
  | some v ↦ do vs ← items_from (suc i) n sub; done (cons v vs)
]

abbrev pub decoded_text : Option Text → Decoded Text
decoded_text none = raised
decoded_text (some s) = done s

-- `buf[p : p + ln - 1]`
abbrev pub text_slice : Text → ℤ → ℤ → Text
text_slice buf p ln = slice buf p (p +ℤ ln +ℤ negsuc 0)

pub data Kind : Type 0 where
  double_kind text_kind document_kind array_kind boolean_kind null_kind int32_kind int64_kind : Kind
  date_kind unknown_kind : Kind

-- the kind of a type byte
abbrev pub kind_of : ℕ → Kind
kind_of t =
    if t == 0x01
    then double_kind
    else if t == 0x02
    then text_kind
    else if t == 0x03
    then document_kind
    else if t == 0x04
    then array_kind
    else if t == 0x08
    then boolean_kind
    else if t == 0x0a
    then null_kind
    else if t == 0x10
    then int32_kind
    else if t == 0x12
    then int64_kind
    else if t == 0x09
    then date_kind
    else unknown_kind

-- a section of kind 0 with the document, or any other
abbrev pub section_of : Decoded Elements → Text → Decoded Elements
section_of doc [] = done end
section_of doc (kind ∷ _) = if kind == 0 then doc else done end

module _ (decode_strict : Text → Option Text) where
  unfoldable mutual
    pub decode_doc : ℕ → Text → ℤ → Decoded (Elements × ℤ)
    decode_doc zero buf p = out_of_fuel
    decode_doc (suc f) buf p = do
      doc_len ← from int32_at buf p
      doc ← decode_elements f buf (p +ℤ doc_len) (p +ℤ pos 4) end
      done (doc, p +ℤ doc_len)

    -- the loop: while `p < end - 1`
    pub decode_elements : ℕ → Text → ℤ → ℤ → Elements → Decoded Elements
    decode_elements zero buf last p doc = out_of_fuel
    decode_elements (suc f) buf last p doc = elim (ltz p (last +ℤ negsuc 0)) [
      | false ↦ done doc
      | true ↦ do
        elem_type ← from byte_at buf p
        (bytes, n) ← from cstring_at buf (p +ℤ pos 1)
        name ← decoded_text (decode_strict bytes)
        (value, next) ← decode_value f elem_type buf (p +ℤ pos (suc n))
        decode_elements f buf last next (set_element name value doc)
    ]

    pub decode_value : ℕ → ℕ → Text → ℤ → Decoded (Bson × ℤ)
    decode_value zero elem_type buf p = out_of_fuel
    decode_value (suc f) elem_type buf p = elim (kind_of elem_type) [
      | double_kind ↦ do bytes ← from eight_at buf p; done (double bytes, p +ℤ pos 8)
      | text_kind ↦ do
        ln ← from int32_at buf p
        s ← decoded_text (decode_strict (text_slice buf (p +ℤ pos 4) ln))
        done (text s, p +ℤ pos 4 +ℤ ln)
      | document_kind ↦ do (doc, next) ← decode_doc f buf p; done (document doc, next)
      | array_kind ↦ do
        (sub, next) ← decode_doc f buf p
        vs ← items_from 0 (size sub) sub
        done (array vs, next)
      | boolean_kind ↦ do b ← from byte_at buf p; done (boolean (not (b == 0)), p +ℤ pos 1)
      | null_kind ↦ done (null, p)
      | int32_kind ↦ do n ← from int32_at buf p; done (integer n, p +ℤ pos 4)
      | int64_kind ↦ do n ← from int64_at buf p; done (integer n, p +ℤ pos 8)
      | date_kind ↦ do n ← from int64_at buf p; done (date n, p +ℤ pos 8)
      | unknown_kind ↦ raised
    ]

  abbrev pub u32_at : Text → Decoded ℕ
  u32_at (a ∷ b ∷ c ∷ d ∷ s) = done (a + 256 * b + 65536 * c + 16777216 * d)
  u32_at s = raised

  -- the document of the first section, where that is of kind 0
  abbrev pub first_section : ℕ → Text → Decoded Elements
  first_section f raw = section_of (do (doc, _) ← decode_doc f raw (pos 21); done doc) (drop 20 raw)

  -- The `responseTo` of the reply in `generate_op_msg_reply`, up to its last line.
  unfoldable pub op_msg_response_to : ℕ → Text → Decoded ℕ
  op_msg_response_to f raw = do
    message_length ← u32_at raw
    request_id ← u32_at (drop 4 raw)
    _ ← first_section f raw
    done (if ltb (length raw) 16 || not (message_length == length raw) then 0 else request_id)

  -- the reply; an exception makes it one to no request
  abbrev pub op_msg_reply : ℕ → ℤ → Decoded ℕ → Decoded (Option Text)
  op_msg_reply request_id now (done response_to) =
      done (op_msg_of request_id response_to (encode_doc (hello_reply_doc now)))
  op_msg_reply request_id now raised =
      done (op_msg_of request_id 0 (encode_doc (hello_reply_doc now)))
  op_msg_reply request_id now below_start = below_start
  op_msg_reply request_id now out_of_fuel = out_of_fuel

  -- `generate_op_msg_reply`, with the next request id and the time. What it logs of credentials is
  -- left out.
  unfoldable pub generate_op_msg_reply : ℕ → ℕ → ℤ → Text → Decoded (Option Text)
  generate_op_msg_reply f request_id now raw =
      op_msg_reply request_id now (op_msg_response_to f raw)
