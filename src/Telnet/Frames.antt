-- ===== src/Telnet/Frames.antt =====
-- The negotiation of manyfaced/handlers/telnet_handler.py against a reading of the bytes as a sequence of typed
-- bytes and commands with an option.
use manyfaced_honeypot.Base.{
  ℕ, ◌≤◌, List, [], ◌∷◌, ◌++◌, length, length-append, All, ◌==◌, Text, ◌≡◌, ◌≢◌, refl, ap, arith,
  ◌∙◌, Bool-cases, inl, inr, ◌⊎◌, ◌<◌, subst, sym, true, false, ◌||◌,
}
use manyfaced_honeypot.Telnet.{iac, strip_iac, reply, handle_telnet_negotiation}

-- a typed byte, or a command with its option
pub data Frame : Type 0 where
  typed : ℕ → Frame
  command : ℕ → ℕ → Frame

-- A typed byte is no IAC.
abbrev pub IsTyped : Frame → Type 0
IsTyped (typed c) = c ≢ iac
IsTyped (command c o) = Unit

-- the bytes on the wire
unfoldable pub wire : List Frame → Text
wire [] = []
wire (typed c ∷ fs) = c ∷ wire fs
wire (command c o ∷ fs) = iac ∷ c ∷ o ∷ wire fs

unfoldable pub typed_of : List Frame → Text
typed_of [] = []
typed_of (typed c ∷ fs) = c ∷ typed_of fs
typed_of (command c o ∷ fs) = typed_of fs

-- The answers to a sequence of frames, byte by byte: only ECHO (3) is done on demand, ECHO and BINARY
-- (1) are welcome, every refusal is confirmed, and any other command goes without an answer.
pub data Answers : List Frame → Text → Type 0 where
  silence : Answers [] []
  skipped : {fs : List Frame} {out : Text} (c : ℕ) → Answers fs out → Answers (typed c ∷ fs) out
  do_echo :
      {fs : List Frame} {out : Text}
      → Answers fs out
      → Answers (command 0xfd 3 ∷ fs) (0xff ∷ 0xfb ∷ 3 ∷ out)
  do_other :
      {fs : List Frame} {out : Text} (o : ℕ)
      → o ≢ 3
      → Answers fs out
      → Answers (command 0xfd o ∷ fs) (0xff ∷ 0xfc ∷ o ∷ out)
  will_known :
      {fs : List Frame} {out : Text} (o : ℕ)
      → (o ≡ 3) ⊎ (o ≡ 1)
      → Answers fs out
      → Answers (command 0xfb o ∷ fs) (0xff ∷ 0xfd ∷ o ∷ out)
  will_other :
      {fs : List Frame} {out : Text} (o : ℕ)
      → o ≢ 3
      → o ≢ 1
      → Answers fs out
      → Answers (command 0xfb o ∷ fs) (0xff ∷ 0xfe ∷ o ∷ out)
  wont_any :
      {fs : List Frame} {out : Text} (o : ℕ)
      → Answers fs out
      → Answers (command 0xfc o ∷ fs) (0xff ∷ 0xfe ∷ o ∷ out)
  dont_any :
      {fs : List Frame} {out : Text} (o : ℕ)
      → Answers fs out
      → Answers (command 0xfe o ∷ fs) (0xff ∷ 0xfc ∷ o ∷ out)
  unanswered :
      {fs : List Frame} {out : Text} (c o : ℕ)
      → (c < 0xfb) ⊎ (0xfe < c)
      → Answers fs out
      → Answers (command c o ∷ fs) out

strip_iac-typed : (c : ℕ) (s : Text) → c ≢ iac → strip_iac (c ∷ s) ≡ c ∷ strip_iac s
unfolding strip_iac
strip_iac-typed c [] h = ground arith
strip_iac-typed c (a ∷ []) h = ground arith
strip_iac-typed c (a ∷ b ∷ s) h = ground arith

-- Any sequence of typed bytes and commands, in any order, is stripped to its typed bytes.
pub strip_iac-wire : (fs : List Frame) → All IsTyped fs → strip_iac (wire fs) ≡ typed_of fs
unfolding strip_iac wire typed_of
strip_iac-wire [] h = refl
strip_iac-wire (typed c ∷ fs) (n, h) =
    strip_iac-typed c (wire fs) n ∙ ap (◌∷◌ c) (strip_iac-wire fs h)
strip_iac-wire (command c o ∷ fs) (_, h) = strip_iac-wire fs h

negotiation-typed :
    (c : ℕ) (s : Text) → c ≢ iac → handle_telnet_negotiation (c ∷ s) ≡ handle_telnet_negotiation s
unfolding handle_telnet_negotiation
negotiation-typed c [] h = refl
negotiation-typed c (a ∷ []) h = ground arith
negotiation-typed c (a ∷ b ∷ s) h = ground arith

module _ {fs : List Frame} {out : Text} (h : Answers fs out) where
  do-Answers : (o : ℕ) → Answers (command 0xfd o ∷ fs) (reply 0xfd o ++ out)
  unfolding reply
  do-Answers o = elim (Bool-cases (o == 3)) [
    | inl e ↦ subst (λ p. Answers (command 0xfd p ∷ fs) (reply 0xfd p ++ out)) (echo e) (do_echo h)
    | inr e ↦ rw e (do_other o (ground arith) h)
  ]
    where
      echo : (o == 3) ≡ true → 3 ≡ o
      echo e = ground arith

  will-Answers : (o : ℕ) → Answers (command 0xfb o ∷ fs) (reply 0xfb o ++ out)
  unfolding reply
  will-Answers o = elim (Bool-cases (o == 3 || o == 1)) [
    | inl e ↦ rw e (will_known o (ground arith) h)
    | inr e ↦ rw e (will_other o (ground arith) (ground arith) h)
  ]

  -- a command that is none of the four
  other-Answers :
      (c o : ℕ)
      → (c == 0xfd) ≡ false
      → (c == 0xfb) ≡ false
      → (c == 0xfc) ≡ false
      → (c == 0xfe) ≡ false
      → Answers (command c o ∷ fs) (reply c o ++ out)
  unfolding reply
  other-Answers c o e1 e2 e3 e4 = rw (e1, e2, e3, e4) (unanswered c o (ground arith) h)

  reply-Answers : (c o : ℕ) → Answers (command c o ∷ fs) (reply c o ++ out)
  reply-Answers c o = elim (Bool-cases (c == 0xfd)) [
    | inl e ↦ at 0xfd e (do-Answers o)
    | inr e1 ↦ elim (Bool-cases (c == 0xfb)) [
      | inl e ↦ at 0xfb e (will-Answers o)
      | inr e2 ↦ elim (Bool-cases (c == 0xfc)) [
        | inl e ↦ at 0xfc e (unfold reply in wont_any o h)
        | inr e3 ↦ elim (Bool-cases (c == 0xfe)) [
          | inl e ↦ at 0xfe e (unfold reply in dont_any o h)
          | inr e4 ↦ other-Answers c o e1 e2 e3 e4
        ]
      ]
    ]
  ]
    where
      at :
          (n : ℕ)
          → (c == n) ≡ true
          → Answers (command n o ∷ fs) (reply n o ++ out)
          → Answers (command c o ∷ fs) (reply c o ++ out)
      at n e k =
          let same : n ≡ c = ground arith in
          subst (λ m. Answers (command m o ∷ fs) (reply m o ++ out)) same k

-- The negotiation answers the sequence, in its order: DO, WILL, WONT and DONT with three bytes as
-- listed, and nothing else.
pub handle_telnet_negotiation-wire :
    (fs : List Frame) → All IsTyped fs → Answers fs (handle_telnet_negotiation (wire fs))
unfolding handle_telnet_negotiation wire
handle_telnet_negotiation-wire [] h = silence
handle_telnet_negotiation-wire (typed c ∷ fs) (n, h) =
    subst (Answers (typed c ∷ fs)) (sym (negotiation-typed c (wire fs) n))
      (skipped c (handle_telnet_negotiation-wire fs h))
handle_telnet_negotiation-wire (command c o ∷ fs) (_, h) =
    reply-Answers (handle_telnet_negotiation-wire fs h) c o

length-reply : (c o : ℕ) → length (reply c o) ≤ 3
unfolding reply
length-reply c o = ground arith

-- The answer to a frame of any bytes is no longer than the frame.
pub length-handle_telnet_negotiation :
    (raw : Text) → length (handle_telnet_negotiation raw) ≤ length raw
unfolding handle_telnet_negotiation
length-handle_telnet_negotiation [] = omega arith
length-handle_telnet_negotiation (a ∷ []) = omega arith
length-handle_telnet_negotiation (a ∷ b ∷ []) = ground arith
length-handle_telnet_negotiation (a ∷ b ∷ c ∷ s) = elim (Bool-cases (a == iac)) [
  | inl is_iac ↦ rw is_iac (
      omega (
        arith,
        length-append (reply b c) (handle_telnet_negotiation s),
        length-reply b c,
        length-handle_telnet_negotiation s,
      ))
  | inr other ↦ rw other (omega (arith, length-handle_telnet_negotiation (b ∷ c ∷ s)))
]
