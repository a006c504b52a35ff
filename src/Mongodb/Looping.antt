-- ===== src/Mongodb/Looping.antt =====
-- The BSON reader of manyfaced/handlers/mongodb_handler.py on an element whose length leads back to it.
use manyfaced_honeypot.Base.{
  ℕ, zero, suc, ◌+◌, ◌<◌, true, false, Option, some, [], ◌∷◌, drop, Text, ℤ, pos, negsuc, ◌+ℤ◌, ◌≡◌,
  refl, arith, subst, ◌⊎◌, inl, inr,
}
use manyfaced_honeypot.Mongodb.{Elements, end, document}
use manyfaced_honeypot.Mongodb.Decoder.{
  done, out_of_fuel, int32_at, cstring_at, ltz, set_element, decode_doc, decode_elements,
  decode_value, u32_at, op_msg_response_to, generate_op_msg_reply,
}

back : (p : ℕ) → pos (p + 2) +ℤ negsuc 1 ≡ pos p
unfolding ◌+ℤ◌
back p = ground arith

forward : (p n : ℕ) → pos p +ℤ pos n ≡ pos (p + n)
unfolding ◌+ℤ◌
forward p n = ground arith

not_before : (p : ℕ) → ltz (pos (p + 2 + 4)) (pos p +ℤ negsuc 0) ≡ false
unfolding ◌+ℤ◌ ltz
not_before zero = refl
not_before (suc p) = ground arith

inside_doc : (n : ℕ) → 5 < n → ltz (pos 25) (pos 21 +ℤ pos n +ℤ negsuc 0) ≡ true
unfolding ◌+ℤ◌ ltz
inside_doc n h = ground arith

drop_next : (p c : ℕ) (s t : Text) → drop p s ≡ c ∷ t → drop (suc p) s ≡ t
drop_next zero c [] t h = cc
drop_next zero c (d ∷ s) t h = cc
drop_next (suc p) c [] t h = cc
drop_next (suc p) c (d ∷ s) t h = drop_next p c s t h

drop_after : (p n c : ℕ) (s t : Text) → drop (p + n) s ≡ c ∷ t → drop (p + suc n) s ≡ t
drop_after p n c s t h =
    let e : suc (p + n) ≡ p + suc n = omega arith in
    subst (λ m. drop m s ≡ t) e (drop_next (p + n) c s t h)

module _ (decode_strict : Text → Option Text) (buf : Text) (p : ℕ) (rest : Text) where
  decode_elements-stop :
      (f : ℕ) (last q : ℤ) (doc : Elements)
      → ltz q (last +ℤ negsuc 0) ≡ false
      → decode_elements decode_strict (suc f) buf last q doc ≡ done doc
  unfolding decode_elements
  decode_elements-stop f last q doc h = rw (decode_elements, h) refl

  -- A document of length -2 at a position is empty and ends two bytes before it.
  decode_doc-back :
      (f : ℕ)
      → drop (p + 2) buf ≡ 0xfe ∷ 0xff ∷ 0xff ∷ 0xff ∷ rest
      → decode_doc decode_strict (suc (suc f)) buf (pos (p + 2)) ≡ done (end, pos p)
  unfolding decode_doc
  decode_doc-back f h =
      rw (h, back p, forward (p + 2) 4)
        (rw (decode_elements-stop f (pos p) (pos (p + 2 + 4)) end (not_before p)) refl)

  decode_value-back :
      (f : ℕ)
      → drop (p + 2) buf ≡ 0xfe ∷ 0xff ∷ 0xff ∷ 0xff ∷ rest
      → (decode_value decode_strict f 3 buf (pos (p + 2)) ≡ done (document end, pos p))
        ⊎ (decode_value decode_strict f 3 buf (pos (p + 2)) ≡ out_of_fuel)
  unfolding decode_value
  decode_value-back zero h = inr refl
  decode_value-back (suc zero) h = inr (unfold decode_doc in refl)
  decode_value-back (suc (suc zero)) h = inr (unfold decode_doc in rw (h, decode_elements) refl)
  decode_value-back (suc (suc (suc f))) h = inl (rw (decode_doc-back f h) refl)

  -- An element of kind document, without a name and of length -2, is read again and again: whatever
  -- the buffer holds besides, the loop that comes to it ends on no amount of fuel.
  pub decode_elements-loops :
      (f : ℕ) (last : ℤ) (doc : Elements)
      → drop p buf ≡ 3 ∷ 0 ∷ 0xfe ∷ 0xff ∷ 0xff ∷ 0xff ∷ rest
      → ltz (pos p) (last +ℤ negsuc 0) ≡ true
      → decode_strict [] ≡ some []
      → decode_elements decode_strict f buf last (pos p) doc ≡ out_of_fuel
  unfolding cstring_at decode_elements
  decode_elements-loops zero last doc h inside d = unfold decode_elements in refl
  decode_elements-loops (suc f) last doc h inside d =
      let h0 : drop (p + 0) buf ≡ 3 ∷ 0 ∷ 0xfe ∷ 0xff ∷ 0xff ∷ 0xff ∷ rest =
        (let e : p ≡ p + 0 = omega arith in
          subst (λ m. drop m buf ≡ 3 ∷ 0 ∷ 0xfe ∷ 0xff ∷ 0xff ∷ 0xff ∷ rest) e h) in
      let h1 = drop_after p 0 3 buf (0 ∷ 0xfe ∷ 0xff ∷ 0xff ∷ 0xff ∷ rest) h0 in
      let h2 = drop_after p 1 0 buf (0xfe ∷ 0xff ∷ 0xff ∷ 0xff ∷ rest) h1 in
      rw (decode_elements, inside, h, forward p 1, h1, d, forward p 2)
        (elim (decode_value-back f h2) [
          | inl again ↦
              rw again (decode_elements-loops f last (set_element [] (document end) doc) h inside d)
          | inr spent ↦ rw spent refl
        ])

-- A message that says OP_MSG with one section of kind 0 can keep the handler busy for ever: where the
-- document starts with an element of kind document, without a name and of length -2, no amount of fuel
-- gives a reply, whatever stands before and after.
pub generate_op_msg_reply-loops :
    (decode_strict : Text → Option Text) (raw rest : Text) (message_length request_id : ℕ)
    (doc_len : ℕ) (f next : ℕ) (now : ℤ)
    → u32_at decode_strict raw ≡ done message_length
    → u32_at decode_strict (drop 4 raw) ≡ done request_id
    → (drop 20 raw ≡ 0 ∷ drop 21 raw)
    → int32_at (drop 21 raw) ≡ done (pos doc_len)
    → 5 < doc_len
    → drop 25 raw ≡ 3 ∷ 0 ∷ 0xfe ∷ 0xff ∷ 0xff ∷ 0xff ∷ rest
    → decode_strict [] ≡ some []
    → generate_op_msg_reply decode_strict f next now raw ≡ out_of_fuel
unfolding generate_op_msg_reply op_msg_response_to decode_doc ◌+ℤ◌
generate_op_msg_reply-loops decode_strict raw rest message_length request_id doc_len zero next now a
      b kind l big evil d =
    rw (a, b, kind) refl
generate_op_msg_reply-loops decode_strict raw rest message_length request_id doc_len (suc f) next
      now a b kind l big evil d =
    let inside : ltz (pos 25) (pos 21 +ℤ pos doc_len +ℤ negsuc 0) ≡ true = inside_doc doc_len big in
    rw
      (
        a,
        b,
        kind,
        l,
        decode_elements-loops decode_strict raw 25 rest f (pos 21 +ℤ pos doc_len) end evil inside d,
      )
      refl
