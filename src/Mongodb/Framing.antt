-- ===== src/Mongodb/Framing.antt =====
-- The lengths in the messages and documents of manyfaced/handlers/mongodb_handler.py.
use manyfaced_honeypot.Base.{
  ℕ, zero, suc, ◌+◌, ◌/◌, ◌%◌, ◌<◌, Option, none, some, [], ◌∷◌, ◌++◌, length, length-append, drop,
  Text, ◌≡◌, refl, ap, sym, subst, ◌∙◌, arith, pos,
}
use manyfaced_honeypot.Protocol.Mongo.{read_le}
use manyfaced_honeypot.Mongodb.{
  pack_u32, framed, prefixed, framed_doc, encode_elements, encode_doc, joined, Elements, pack_i32,
}

drop-nil : (m : ℕ) → drop {A = ℕ} m [] ≡ []
drop-nil zero = refl
drop-nil (suc m) = refl

drop-drop : (n m : ℕ) (s : Text) → drop (n + m) s ≡ drop m (drop n s)
drop-drop zero m s = let e : 0 + m ≡ m = omega arith in ap (λ k. drop k s) e
drop-drop (suc n) m [] = drop-nil (suc n + m) ∙ sym (drop-nil m)
drop-drop (suc n) m (c ∷ s) =
    let e : suc n + m ≡ suc (n + m) = omega arith in ap (λ k. drop k (c ∷ s)) e ∙ drop-drop n m s

pub pack_u32-bytes :
    (n : ℕ) (bytes : Text)
    → pack_u32 n ≡ some bytes
    → (n < 4294967296)
      × (n % 256 ∷ n / 256 % 256 ∷ n / 65536 % 256 ∷ n / 16777216 % 256 ∷ [] ≡ bytes)
unfolding pack_u32
pack_u32-bytes n bytes h = ground arith

-- A number that is packed is read back, whatever follows.
pub read_le-pack_u32 :
    (n : ℕ) (bytes rest : Text)
    → pack_u32 n ≡ some bytes
    → (read_le (bytes ++ rest) ≡ n) × (length bytes ≡ 4) × (drop 4 (bytes ++ rest) ≡ rest)
read_le-pack_u32 n bytes rest h =
    let (small, e) = pack_u32-bytes n bytes h in
    subst (λ b. (read_le (b ++ rest) ≡ n) × (length b ≡ 4) × (drop 4 (b ++ rest) ≡ rest)) e
      (omega arith, refl, refl)

pack_i32-pos : (n : ℕ) (p : Text) → pack_i32 (pos n) ≡ some p → pack_u32 n ≡ some p
unfolding pack_i32
pack_i32-pos n p h = ground arith

prefixed-length :
    (n : ℕ) (o : Option Text) (rest bytes : Text)
    → pack_i32 (pos n) ≡ o
    → n ≡ 4 + length rest
    → prefixed o rest ≡ some bytes
    → read_le bytes ≡ length bytes
prefixed-length n none rest bytes e len h = cc
prefixed-length n (some p) rest bytes e len h =
    let (value, size, _) = read_le-pack_u32 n p rest (pack_i32-pos n p e) in
    let same : p ++ rest ≡ bytes = cc in
    let total : n ≡ length (p ++ rest) = omega (arith, len, size, length-append p rest) in
    subst (λ b. read_le b ≡ length b) same (value ∙ total)

framed_doc-length :
    (body : Option Text) (bytes : Text)
    → framed_doc body ≡ some bytes
    → read_le bytes ≡ length bytes
framed_doc-length none bytes h = cc
framed_doc-length (some b) bytes h =
    prefixed-length (length b + 5) _ (b ++ 0 ∷ []) bytes refl
      (omega (arith, length-append b (0 ∷ []))) h

-- What a message says in its header.
pub record HasHeader (request_id response_to opcode : ℕ) (payload message : Text) : Type 0 where
  pub message_length : read_le message ≡ length message
  pub request : read_le (drop 4 message) ≡ request_id
  pub response : read_le (drop 8 message) ≡ response_to
  pub opcode_code : read_le (drop 12 message) ≡ opcode
  pub body : drop 16 message ≡ payload

joined-HasHeader :
    (n request_id response_to opcode : ℕ) (l r s o : Option Text) (payload message : Text)
    → n ≡ 16 + length payload
    → pack_u32 n ≡ l
    → pack_u32 request_id ≡ r
    → pack_u32 response_to ≡ s
    → pack_u32 opcode ≡ o
    → joined l r s o payload ≡ some message
    → HasHeader request_id response_to opcode payload message
unfolding joined
joined-HasHeader n request_id response_to opcode (some a) (some b) (some c) (some d) payload message
      len l r s o h =
    let (n1, l1, d1) = read_le-pack_u32 n a (b ++ (c ++ (d ++ payload))) l in
    let (n2, l2, d2) = read_le-pack_u32 request_id b (c ++ (d ++ payload)) r in
    let (n3, l3, d3) = read_le-pack_u32 response_to c (d ++ payload) s in
    let (n4, l4, d4) = read_le-pack_u32 opcode d payload o in
    let same : a ++ (b ++ (c ++ (d ++ payload))) ≡ message = cc in
    let m = a ++ (b ++ (c ++ (d ++ payload))) in
    let at8 : drop 8 m ≡ c ++ (d ++ payload) = drop-drop 4 4 m ∙ ap (drop 4) d1 ∙ d2 in
    let at12 : drop 12 m ≡ d ++ payload = drop-drop 8 4 m ∙ ap (drop 4) at8 ∙ d3 in
    let at16 : drop 16 m ≡ payload = drop-drop 12 4 m ∙ ap (drop 4) at12 ∙ d4 in
    let total : 16 + length payload ≡ length m = omega (
      arith,
      l1,
      l2,
      l3,
      l4,
      length-append a (b ++ (c ++ (d ++ payload))),
      length-append b (c ++ (d ++ payload)),
      length-append c (d ++ payload),
      length-append d payload,
    ) in
    subst (HasHeader request_id response_to opcode payload) same (record {
      message_length = n1 ∙ len ∙ total;
      request = ap read_le d1 ∙ n2;
      response = ap read_le at8 ∙ n3;
      opcode_code = ap read_le at12 ∙ n4;
      body = at16;
    })
joined-HasHeader n request_id response_to opcode none r s o payload message len e1 e2 e3 e4 h = cc
joined-HasHeader n request_id response_to opcode (some a) none s o payload message len e1 e2 e3 e4
      h =
    cc
joined-HasHeader n request_id response_to opcode (some a) (some b) none o payload message len e1 e2
      e3 e4 h =
    cc
joined-HasHeader n request_id response_to opcode (some a) (some b) (some c) none payload message len
      e1 e2 e3 e4 h =
    cc

-- A message that is built says its own length, the two ids and the opcode in its header, and the
-- payload follows.
pub framed-HasHeader :
    (request_id response_to opcode : ℕ) (payload message : Text)
    → framed request_id response_to opcode payload ≡ some message
    → HasHeader request_id response_to opcode payload message
unfolding framed
framed-HasHeader request_id response_to opcode payload message h =
    joined-HasHeader (16 + length payload) request_id response_to opcode _ _ _ _ payload message
      refl refl refl refl refl h

-- A document that is encoded starts with its own length.
pub read_le-encode_doc :
    (es : Elements) (bytes : Text) → encode_doc es ≡ some bytes → read_le bytes ≡ length bytes
unfolding encode_doc
read_le-encode_doc es bytes h = framed_doc-length (encode_elements es) bytes h
