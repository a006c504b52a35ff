-- ===== src/Mongodb.antt =====
-- manyfaced/handlers/mongodb_handler.py: the wire messages, and the BSON that it writes and reads. Texts are
-- their bytes, a double is its eight bytes, and a time is its milliseconds. The strict UTF-8 decoder is
-- a parameter.
pub mod Decoder
pub mod Framing
pub mod Looping
use manyfaced_honeypot.Base.{
  ℕ, zero, suc, ◌+◌, ◌-◌, ◌*◌, ◌/◌, ◌%◌, ◌^◌, Bool, true, false, not, ◌&&◌, Option, none, some,
  List, [], ◌∷◌, ◌++◌, if◌then◌else◌, ◌==◌, ltb, drop, take, length, Text, codes, text_eq, ℤ, pos,
  negsuc, ◌+ℤ◌, negate, show_nat, slice,
}

infixl 5 ◌>>=◌
abbrev ◌>>=◌ : {A B : Type 0} → Option A → (A → Option B) → Option B
none >>= f = none
some a >>= f = f a

-- `struct.pack('<I', n)`
unfoldable pub pack_u32 : ℕ → Option Text
pack_u32 n =
    if ltb n 4294967296
    then some (n % 256 ∷ n / 256 % 256 ∷ n / 65536 % 256 ∷ n / 16777216 % 256 ∷ [])
    else none

-- `struct.pack('<i', n)`
unfoldable pub pack_i32 : ℤ → Option Text
unfolding pack_u32
pack_i32 (pos n) = if ltb n 2147483648 then pack_u32 n else none
pack_i32 (negsuc n) = if ltb n 2147483648 then pack_u32 (4294967295 - n) else none

-- `struct.pack('<q', n)`
abbrev bytes_of : ℕ → ℕ → Text
bytes_of zero n = []
bytes_of (suc k) n = n % 256 ∷ bytes_of k (n / 256)

unfoldable pub pack_i64 : ℤ → Option Text
pack_i64 (pos n) = if ltb n (2 ^ 63) then some (bytes_of 8 n) else none
pack_i64 (negsuc n) = if ltb n (2 ^ 63) then some (bytes_of 8 (2 ^ 64 - 1 - n)) else none

mutual
  pub data Bson : Type 0 where
    double : Text → Bson
    text : Text → Bson
    document : Elements → Bson
    array : Items → Bson
    boolean : Bool → Bson
    date : ℤ → Bson
    null : Bson
    integer : ℤ → Bson

  pub data Elements : Type 0 where
    end : Elements
    element : Text → Bson → Elements → Elements

  pub data Items : Type 0 where
    nil : Items
    cons : Bson → Items → Items

-- the type byte, the name and the value
abbrev pub element_of : ℕ → Text → Option Text → Option Text
element_of kind name none = none
element_of kind name (some value) = some (kind ∷ name ++ 0 ∷ value)

abbrev pub prefixed : Option Text → Text → Option Text
prefixed none rest = none
prefixed (some prefix) rest = some (prefix ++ rest)

-- the length prefix, the body and the last NUL
abbrev pub framed_doc : Option Text → Option Text
framed_doc none = none
framed_doc (some bytes) = prefixed (pack_i32 (pos (length bytes + 5))) (bytes ++ 0 ∷ [])

-- a text with its length, which counts the NUL
abbrev pub framed_text : Text → Option Text
framed_text s = prefixed (pack_i32 (pos (length s + 1))) (s ++ 0 ∷ [])

-- `_bson_encode_element`, and the joined elements of a dict and of a list; none is the struct.error of a number out of range.
unfoldable mutual
  pub encode_elements : Elements → Option Text
  encode_elements end = some []
  encode_elements (element name v es) = do
    first ← encode_element name v
    rest ← encode_elements es
    some (first ++ rest)

  pub encode_items : ℕ → Items → Option Text
  encode_items i nil = some []
  encode_items i (cons v vs) = do
    first ← encode_element (show_nat i) v
    rest ← encode_items (suc i) vs
    some (first ++ rest)

  pub encode_element : Text → Bson → Option Text
  encode_element name (double bytes) = element_of 1 name (some bytes)
  encode_element name (text s) = element_of 2 name (framed_text s)
  encode_element name (document es) = element_of 3 name (framed_doc (encode_elements es))
  encode_element name (array vs) = element_of 4 name (framed_doc (encode_items 0 vs))
  encode_element name (boolean b) = element_of 8 name (some ((if b then 1 else 0) ∷ []))
  encode_element name (date ms) = element_of 9 name (pack_i64 ms)
  encode_element name null = element_of 10 name (some [])
  encode_element name (integer n) = element_of 16 name (pack_i32 n)

-- `_bson_encode_doc`
unfoldable pub encode_doc : Elements → Option Text
encode_doc es = framed_doc (encode_elements es)

abbrev pub op_reply : ℕ
op_reply = 1

abbrev pub op_msg : ℕ
op_msg = 2013

-- the four packed numbers of the header before the rest
unfoldable pub joined : Option Text → Option Text → Option Text → Option Text → Text → Option Text
joined message_length request response opcode payload = do
  a ← message_length
  b ← request
  c ← response
  d ← opcode
  some (a ++ (b ++ (c ++ (d ++ payload))))

-- the standard header, then the rest of a message
unfoldable pub framed : ℕ → ℕ → ℕ → Text → Option Text
framed request_id response_to opcode payload =
    joined (pack_u32 (16 + length payload)) (pack_u32 request_id) (pack_u32 response_to)
      (pack_u32 opcode) payload

-- `_build_message`, with the next request id
abbrev pub build_message : ℕ → Text → ℕ → Option Text
build_message request_id body opcode = framed request_id 0 opcode body

-- `_build_op_msg`: no flags, and one section of kind 0
abbrev pub build_op_msg : ℕ → Text → ℕ → Option Text
build_op_msg request_id body response_to =
    framed request_id response_to op_msg (0 ∷ 0 ∷ 0 ∷ 0 ∷ 0 ∷ body)

-- `_hello_reply_doc` at a time
unfoldable pub hello_reply_doc : ℤ → Elements
hello_reply_doc now = element (codes "ismaster") (boolean true) (
    element (codes "helloOk") (boolean true) (
      element (codes "topologyVersion")
        (document (
          element (codes "processId") (text (codes "000000000000000000000001"))
            (element (codes "counter") (integer (pos 0)) end)))
        (element (codes "hosts") (array (cons (text (codes "mongo-honeypot:27017")) nil)) (
          element (codes "setName") (text (codes "honeypot-rs")) (
            element (codes "setVersion") (integer (pos 1)) (
              element (codes "me") (text (codes "mongo-honeypot:27017")) (
                element (codes "maxBsonObjectSize") (integer (pos 16777216)) (
                  element (codes "maxMessageSizeBytes") (integer (pos 48000000)) (
                    element (codes "maxWriteBatchSize") (integer (pos 1000)) (
                      element (codes "localTime") (date now) (
                        element (codes "logicalSessionTimeoutMinutes") (integer (pos 30)) (
                          element (codes "minWireVersion") (integer (pos 0)) (
                            element (codes "maxWireVersion") (integer (pos 21)) (
                              element (codes "readOnly") (boolean false) (
                                element (codes "authMechanisms")
                                  (array (
                                    cons (text (codes "MONGODB-CR")) (
                                      cons (text (codes "SCRAM-SHA-1"))
                                        (cons (text (codes "SCRAM-SHA-256")) nil))))
                                  (element (codes "ok")
                                    (double (0 ∷ 0 ∷ 0 ∷ 0 ∷ 0 ∷ 0 ∷ 0xf0 ∷ 0x3f ∷ []))
                                    end))))))))))))))))

abbrev pub op_msg_of : ℕ → ℕ → Option Text → Option Text
op_msg_of request_id response_to none = none
op_msg_of request_id response_to (some body) = build_op_msg request_id body response_to
