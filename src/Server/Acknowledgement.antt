-- ===== src/Server/Acknowledgement.antt =====
-- What the replies of `_handle_client` in manyfaced/server/server.py say.
use manyfaced_honeypot.Base.{
  false, none, some, [], ◌∷◌, ◌++◌, All, ◌==◌, Text, codes, ◌≡◌, ◌≢◌, refl, subst, ap, ◌⊎◌, inl,
  inr, arith, split_once, starts_with, lookup, text_key,
}
use manyfaced_honeypot.Values.{
  Fault, type_error, value_error, overflow_error, attribute_error, key_error, connection_error,
  os_error, other_error, Result, ok, raise, ◌>>=◌, >>=-returns, Json, string, Fields,
}
use manyfaced_honeypot.Server.{
  Backend, record_of, ServerState, parse_message, report_of, dump_report, saved, save_data,
  reply_of, process, answered, handle_client,
}

-- no colon
abbrev pub HasNoColon : Text → Type 0
HasNoColon = All (λ c. c ≢ b':')

pub split_once-HasNoColon :
    (s payload : Text)
    → HasNoColon s
    → split_once (codes ":") (s ++ b':' ∷ payload) ≡ some (s, payload)
unfolding split_once starts_with
split_once-HasNoColon [] payload h = refl
split_once-HasNoColon (c ∷ s) payload (n, h) =
    let other : (b':' == c) ≡ false = ground arith in
    rw (other, split_once-HasNoColon s payload h) refl

-- No exception is answered with `200 OK`.
reply_of-raise : (e : Fault) → reply_of (raise e) ≢ some (codes "200 OK")
reply_of-raise type_error h = cc
reply_of-raise value_error h = cc
reply_of-raise overflow_error h = cc
reply_of-raise attribute_error h = cc
reply_of-raise key_error h = cc
reply_of-raise connection_error h = cc
reply_of-raise os_error h = cc
reply_of-raise other_error h = cc

module _ {St D : Type 0} (b : Backend St D) (st : ServerState St D) where
  -- What an acknowledged report is: its record was made and the backend's insert returned, with the
  -- state it gave; or that raised a TypeError or a ConnectionError, and the dump file took the report.
  abbrev pub IsKept : Json → ServerState St D → Type 0
  IsKept report after =
      ((r : Fields) × (s : St) × (record_of b.loads b.sources report ≡ ok r)
        × (b.insert r st.storage ≡ ok s)
        × (after ≡ record st { storage = s }))
      ⊎ ((e : Fault) × (d : D) × ((e ≡ type_error) ⊎ (e ≡ connection_error))
          × ((record_of b.loads b.sources report >>= λ r. b.insert r st.storage) ≡ raise e)
          × (b.dump_file (string (b.dumps report)) st.dumped ≡ ok d)
          × (after ≡ record st { dumped = d }))

  -- what is claimed of a state and a result for a report
  abbrev Keeps : Json → ServerState St D × Result (Unit {0}) → Type 0
  Keeps report (after, ok _) = IsKept report after
  Keeps report (after, raise e) = after ≡ st

  dump_report-Keeps :
      (report : Json) (e : Fault) (out : Result D)
      → (e ≡ type_error) ⊎ (e ≡ connection_error)
      → (record_of b.loads b.sources report >>= λ r. b.insert r st.storage) ≡ raise e
      → b.dump_file (string (b.dumps report)) st.dumped ≡ out
      → Keeps report (dump_report st out)
  dump_report-Keeps report e (ok d) dumps failed h = inr (e, d, dumps, failed, h, refl)
  dump_report-Keeps report e (raise x) dumps failed h = refl

  saved-Keeps :
      (report : Json) (out : Result St)
      → (record_of b.loads b.sources report >>= λ r. b.insert r st.storage) ≡ out
      → Keeps report (saved b report st out)
  saved-Keeps report (ok s) h =
      let (fs, inserted, made) =
        >>=-returns (λ r. b.insert r st.storage) (record_of b.loads b.sources report) h in
      inl (fs, s, made, inserted, refl)
  saved-Keeps report (raise type_error) h = dump_report-Keeps report type_error _ (inl refl) h refl
  saved-Keeps report (raise connection_error) h =
      dump_report-Keeps report connection_error _ (inr refl) h refl
  saved-Keeps report (raise value_error) h = refl
  saved-Keeps report (raise overflow_error) h = refl
  saved-Keeps report (raise attribute_error) h = refl
  saved-Keeps report (raise key_error) h = refl
  saved-Keeps report (raise os_error) h = refl
  saved-Keeps report (raise other_error) h = refl

  acknowledged :
      (report : Json) (p : ServerState St D × Result (Unit {0})) (after : ServerState St D)
      → Keeps report p
      → answered p ≡ (after, some (codes "200 OK"))
      → IsKept report after
  acknowledged report (done, ok _) after k h =
      let same : done ≡ after = cc in subst (IsKept report) same k
  acknowledged report (done, raise e) after k h = absurd (reply_of-raise e (ap (λ p. p.1) h))

  process-Keeps :
      (report : Result Json) (after : ServerState St D)
      → answered (process b report st) ≡ (after, some (codes "200 OK"))
      → (v : Json) × (report ≡ ok v) × IsKept v after
  unfolding save_data
  process-Keeps (raise e) after h = absurd (reply_of-raise e (ap (λ p. p.1) h))
  process-Keeps (ok v) after h =
      (v, refl, acknowledged v (save_data b v st) after (saved-Keeps v _ refl) h)

  -- A report that is answered with `200 OK` was read from the message. Its record was made and the
  -- backend's insert returned, or one of these raised a TypeError or a ConnectionError and the dump
  -- file took the report.
  pub handle_client-IsKept :
      (message : Text) (after : ServerState St D)
      → handle_client b message st ≡ (after, some (codes "200 OK"))
      → (report : Json) × (report_of b message ≡ ok report) × IsKept report after
  unfolding handle_client
  handle_client-IsKept message after h = process-Keeps (report_of b message) after h

  -- A message whose identifier is not among the authorized ones changes nothing, whatever it carries,
  -- and is answered with an error.
  pub handle_client-unauthorized :
      (identifier payload : Text)
      → HasNoColon identifier
      → lookup identifier b.authorized_bees ≡ none
      → handle_client b (identifier ++ b':' ∷ payload) st ≡ (st, some (codes "CODE 300 ERROR"))
  unfolding handle_client report_of parse_message
  handle_client-unauthorized identifier payload n h =
      rw (split_once-HasNoColon identifier payload n, h) refl
