-- ===== src/Profile/History.antt =====
-- The bounded histories of BotProfile, manyfaced/handlers/bot_profile.py.
use manyfaced_honeypot.Base.{
  ℕ, suc, ◌+◌, ◌-◌, ◌≤◌, min, List, [], ◌∷◌, ◌++◌, ◌≡◌, refl, sym, ap, ◌∙◌, arith, Text, ltb,
  length, drop, length-append, inl, inr, Bool-cases, append-nil, append_assoc,
}
use manyfaced_honeypot.Profile.{
  Request, Entry, BotProfile, new_profile, trim, update_escalation, analyze_request, max_history,
  max_dialogue,
}
use manyfaced_honeypot.Profile.Recording.{
  record_request, record_interaction, capture_credentials, truncate_raw,
}
use manyfaced_honeypot.Profile.Severity.{Event, requested, interacted, captured, record_events}

module _ {A : Type 0} where
  trim_all : (n : ℕ) (l : List A) → length l ≤ n → trim n l ≡ l
  unfolding trim
  trim_all n [] h = refl
  trim_all n (x ∷ l) h = ground arith

  trim-cons : (n : ℕ) (x : A) (l : List A) → n ≤ length l → trim n (x ∷ l) ≡ trim n l
  unfolding trim
  trim-cons n x l h = ground arith

  -- `trim` keeps the last `limit` entries.
  pub trim-drop : (n : ℕ) (l : List A) → trim n l ≡ drop (length l - n) l
  unfolding trim
  trim-drop n [] = ground arith
  trim-drop n (x ∷ l) = elim (Bool-cases (ltb n (length (x ∷ l)))) [
    | inl long ↦
        let e : length (x ∷ l) - n ≡ suc (length l - n) = ground arith in
        rw (long, trim, e) (trim-drop n l)
    | inr short ↦ let e : length (x ∷ l) - n ≡ 0 = ground arith in rw (short, trim, e)
  ]

  -- Trimming after every append is trimming once at the end.
  trim-append : (n : ℕ) (l m : List A) → trim n (trim n l ++ m) ≡ trim n (l ++ m)
  unfolding trim
  trim-append n [] m = refl
  trim-append n (x ∷ l) m = elim (Bool-cases (ltb n (length (x ∷ l)))) [
    | inl long ↦
        ap (λ k. trim n (k ++ m)) (trim-cons n x l (ground arith))
        ∙ trim-append n l m
        ∙ sym (trim-cons n x (l ++ m) (ground (arith, length-append l m)))
    | inr short ↦ ap (λ k. trim n (k ++ m)) (trim_all n (x ∷ l) (ground arith))
  ]

  length-trim : (n : ℕ) (l : List A) → length (trim n l) ≡ min n (length l)
  unfolding trim
  length-trim n [] = omega arith
  length-trim n (x ∷ l) = ground (arith, length-trim n l)

-- The requests of a history, and the dialogue it makes when entries are never dropped: the k-th
-- interaction has the sequence number min k 501.
abbrev pub requests : List Event → List Request
requests [] = []
requests (requested now r ∷ es) = r ∷ requests es
requests (interacted now r response detected ∷ es) = requests es
requests (captured now credentials ∷ es) = requests es

-- the entry of an interaction on a dialogue of `n` entries
abbrev pub entry_at : ℕ → Text → Request → Text → ℕ → Entry
entry_at n now r response detected = record {
  sequence = n + 1;
  timestamp = now;
  path = r.path;
  method = r.method;
  raw_request = truncate_raw r.raw;
  headers = r.headers;
  raw_response = truncate_raw response;
  size = length response;
  detected = detected;
}

abbrev pub entries : ℕ → List Event → List Entry
entries k [] = []
entries k (requested now r ∷ es) = entries k es
entries k (interacted now r response detected ∷ es) =
    entry_at (min k max_dialogue) now r response detected ∷ entries (suc k) es
entries k (captured now credentials ∷ es) = entries k es

-- What no recording operation but its own changes.
update_escalation-rest :
    (p : BotProfile)
    → ((update_escalation p).request_history ≡ p.request_history)
      × ((update_escalation p).dialogue ≡ p.dialogue)
unfolding update_escalation
update_escalation-rest p = ground arith

record_request-histories :
    (now : Text) (r : Request) (p : BotProfile)
    → ((record_request now r p).request_history ≡ trim max_history (p.request_history ++ r ∷ []))
      × ((record_request now r p).dialogue ≡ p.dialogue)
unfolding record_request analyze_request update_escalation
record_request-histories now r p = ground arith

-- The histories hold the last entries of `rs` and `ds`.
record HoldsLast (rs : List Request) (ds : List Entry) (p : BotProfile) : Type 0 where
  requests_are : p.request_history ≡ trim max_history rs
  dialogue_is : p.dialogue ≡ trim max_dialogue ds

push_trim :
    {A : Type 0} (n : ℕ) (x : A) (l m : List A)
    → l ≡ trim n m
    → trim n (l ++ x ∷ []) ≡ trim n (m ++ x ∷ [])
push_trim n x l m h = ap (λ k. trim n (k ++ x ∷ [])) h ∙ trim-append n m (x ∷ [])

snoc_append : {A : Type 0} (l : List A) (x : A) (m : List A) → (l ++ x ∷ []) ++ m ≡ l ++ x ∷ m
snoc_append l x m = append_assoc l (x ∷ []) m

record_events-HoldsLast :
    (es : List Event) (rs : List Request) (ds : List Entry) (p : BotProfile)
    → HoldsLast rs ds p
    → HoldsLast (rs ++ requests es) (ds ++ entries (length ds) es) (record_events es p)
unfolding record_interaction capture_credentials
record_events-HoldsLast [] rs ds p h = record {
  requests_are = h.requests_are ∙ ap (trim max_history) (sym (append-nil rs));
  dialogue_is = h.dialogue_is ∙ ap (trim max_dialogue) (sym (append-nil ds));
}
record_events-HoldsLast (requested now r ∷ es) rs ds p h =
    let (q, d) = record_request-histories now r p in
    let next = record_events-HoldsLast es (rs ++ r ∷ []) ds (record_request now r p) (record {
      requests_are = q ∙ push_trim max_history r p.request_history rs h.requests_are;
      dialogue_is = d ∙ h.dialogue_is;
    }) in
    record {
      requests_are = next.requests_are ∙ ap (trim max_history) (snoc_append rs r (requests es));
      dialogue_is = next.dialogue_is;
    }
record_events-HoldsLast (interacted now r response detected ∷ es) rs ds p h =
    let same : length p.dialogue ≡ min (length ds) max_dialogue =
      omega (arith, ap length h.dialogue_is, length-trim max_dialogue ds) in
    let made = entry_at (min (length ds) max_dialogue) now r response detected in
    let next =
      record_events-HoldsLast es rs (ds ++ made ∷ []) (record_interaction now r response detected p)
        (record {
          requests_are = h.requests_are;
          dialogue_is =
              ap (λ n. trim max_dialogue (p.dialogue ++ entry_at n now r response detected ∷ []))
                same
              ∙ push_trim max_dialogue made p.dialogue ds h.dialogue_is;
        }) in
    let count : length (ds ++ made ∷ []) ≡ suc (length ds) =
      omega (arith, length-append ds (made ∷ [])) in
    record {
      requests_are = next.requests_are;
      dialogue_is =
          next.dialogue_is
          ∙ ap (trim max_dialogue) (snoc_append ds made (entries (length (ds ++ made ∷ [])) es))
          ∙ ap (λ n. trim max_dialogue (ds ++ made ∷ entries n es)) count;
    }
record_events-HoldsLast (captured now credentials ∷ es) rs ds p h =
    let next =
      record_events-HoldsLast es rs ds (capture_credentials now credentials p)
        (record { requests_are = h.requests_are; dialogue_is = h.dialogue_is }) in
    next

abbrev pub last : {A : Type 0} → ℕ → List A → List A
last n l = drop (length l - n) l

-- After every history of calls on a new profile, `request_history` is the last 500 requests and
-- `dialogue` the last 500 interactions, in order and with raw texts truncated; from the 501st
-- interaction on every entry has the sequence number 501.
pub record_events-last :
    (ip session_id now : Text) (es : List Event)
    → let p = record_events es (new_profile ip session_id now) in
      (p.request_history ≡ last 500 (requests es)) × (p.dialogue ≡ last 500 (entries 0 es))
record_events-last ip session_id now es =
    let p = record_events es (new_profile ip session_id now) in
    let h = record_events-HoldsLast es [] [] (new_profile ip session_id now) (record {
      requests_are = sym (trim_all max_history [] (omega arith));
      dialogue_is = sym (trim_all max_dialogue [] (omega arith));
    }) in
    (
      h.requests_are ∙ trim-drop max_history (requests es),
      h.dialogue_is ∙ trim-drop max_dialogue (entries 0 es),
    )
