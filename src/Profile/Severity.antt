-- ===== src/Profile/Severity.antt =====
-- The escalation of BotProfile, manyfaced/handlers/bot_profile.py, over a history of calls.
use manyfaced_honeypot.Base.{
  ℕ, ◌≤◌, max, Bool, true, false, ◌||◌, List, [], ◌∷◌, ◌≡◌, refl, sym, ap, ◌∙◌, arith, Text, Dict,
  lower, upper, if◌then◌else◌, ◌&&◌, not, is_empty, ◌++◌,
}
use manyfaced_honeypot.Profile.{
  Behaviors, Request, BotProfile, new_profile, findings, add_all, update_escalation,
  analyze_request, MetaValue, trim, max_history,
}
use manyfaced_honeypot.Profile.Recording.{
  extract_metadata, record_request, record_interaction, capture_credentials,
}

-- A call of one of the recording operations, with the time at which it runs.
pub data Event : Type 0 where
  requested : Text → Request → Event
  interacted : Text → Request → Text → ℕ → Event
  captured : Text → Dict Text Text → Event

abbrev pub record_event : Event → BotProfile → BotProfile
record_event (requested now r) p = record_request now r p
record_event (interacted now r response detected) p = record_interaction now r response detected p
record_event (captured now credentials) p = capture_credentials now credentials p

-- The calls of a history, the first one first.
abbrev pub record_events : List Event → BotProfile → BotProfile
record_events [] p = p
record_events (e ∷ es) p = record_events es (record_event e p)

-- The level that a set of behaviours stands for.
abbrev pub severity : Behaviors → ℕ
severity b =
    if b.rce
    then 5
    else if b.sql_injection || b.lfi_rfi || b.credential_stuffing
    then 3
    else if b.directory_traversal
    then 2
    else if b.enumeration
    then 1
    else 0

abbrev stuffed : Behaviors → Behaviors
stuffed b = record b { credential_stuffing = true }

-- What one call shows of the bot, and what a history shows on top of `b`.
abbrev pub shown : Event → Behaviors → Behaviors
shown (requested now r) b = add_all b (findings (lower r.path) (upper r.method) (lower r.raw))
shown (interacted now r response detected) b = b
shown (captured now credentials) b = stuffed b

abbrev pub seen : List Event → Behaviors → Behaviors
seen [] b = b
seen (e ∷ es) b = seen es (shown e b)

max-severity :
    (a b : Behaviors) → max (severity a) (severity (add_all a b)) ≡ severity (add_all a b)
max-severity a b = ground arith

max-captured : (b : Behaviors) → max (severity b) 3 ≡ severity (stuffed b)
max-captured b = ground arith

update_escalation-level :
    (p : BotProfile)
    → (update_escalation p).escalation_level
      ≡ max p.escalation_level (severity p.detected_behaviors)
unfolding update_escalation
update_escalation-level p = ground arith

update_escalation-behaviors :
    (p : BotProfile) → (update_escalation p).detected_behaviors ≡ p.detected_behaviors
unfolding update_escalation
update_escalation-behaviors p = ground arith

-- The level of a profile is the severity of the behaviours it has seen.
abbrev pub IsGraded : Behaviors → BotProfile → Type 0
IsGraded b p = (p.detected_behaviors ≡ b) × (p.escalation_level ≡ severity b)

analyze_request-IsGraded :
    (r : Request) (b : Behaviors) (p : BotProfile)
    → IsGraded b p
    → IsGraded
        (add_all b (findings (lower r.path) (upper r.method) (lower r.raw)))
        (analyze_request r p)
unfolding analyze_request
analyze_request-IsGraded r b p (same, graded) =
    let found = findings (lower r.path) (upper r.method) (lower r.raw) in
    let q : BotProfile = record p { detected_behaviors = add_all p.detected_behaviors found } in
    let both : add_all p.detected_behaviors found ≡ add_all b found =
      ap (λ c. add_all c found) same in
    (
      update_escalation-behaviors q ∙ both,
      update_escalation-level q
          ∙ ap (λ c. max p.escalation_level (severity c)) both
          ∙ ap (λ n. max n (severity (add_all b found))) graded
          ∙ max-severity b found,
    )

metadata-IsGraded :
    (set : Bool) (m : Dict Text MetaValue) (b : Behaviors) (p : BotProfile)
    → IsGraded b p
    → IsGraded b (if set then record p { metadata = m } else p)
metadata-IsGraded true m b p h = h
metadata-IsGraded false m b p h = h

record_request-IsGraded :
    (now : Text) (r : Request) (b : Behaviors) (p : BotProfile)
    → IsGraded b p
    → IsGraded (shown (requested now r) b) (record_request now r p)
unfolding record_request
record_request-IsGraded now r b p h =
    let noted : BotProfile = record p {
      request_history = trim max_history (p.request_history ++ r ∷ []);
      last_updated = now;
    } in
    let analyzed = analyze_request r noted in
    metadata-IsGraded (is_empty analyzed.metadata && not (is_empty r.raw))
      (extract_metadata r.raw analyzed.metadata) (shown (requested now r) b) analyzed
      (analyze_request-IsGraded r b noted h)

record_event-IsGraded :
    (e : Event) (b : Behaviors) (p : BotProfile)
    → IsGraded b p
    → IsGraded (shown e b) (record_event e p)
unfolding record_interaction capture_credentials
record_event-IsGraded (requested now r) b p h = record_request-IsGraded now r b p h
record_event-IsGraded (interacted now r response detected) b p h = h
record_event-IsGraded (captured now credentials) b p (same, graded) =
    (ap stuffed same, ap (λ n. max n 3) graded ∙ max-captured b)

record_events-IsGraded :
    (es : List Event) (b : Behaviors) (p : BotProfile)
    → IsGraded b p
    → IsGraded (seen es b) (record_events es p)
record_events-IsGraded [] b p h = h
record_events-IsGraded (e ∷ es) b p h =
    record_events-IsGraded es (shown e b) (record_event e p) (record_event-IsGraded e b p h)

severity-shown : (e : Event) (b : Behaviors) → severity b ≤ severity (shown e b)
severity-shown (requested now r) b =
    omega (arith, max-severity b (findings (lower r.path) (upper r.method) (lower r.raw)))
severity-shown (interacted now r response detected) b = omega arith
severity-shown (captured now credentials) b = omega (arith, max-captured b)

severity-seen : (es : List Event) (b : Behaviors) → severity b ≤ severity (seen es b)
severity-seen [] b = omega arith
severity-seen (e ∷ es) b = omega (arith, severity-shown e b, severity-seen es (shown e b))

-- After every history of calls on a new profile, the behaviours are those that the requests show,
-- with credential stuffing for a capture, and the level is their severity; further calls never
-- lower it.
pub record_events-severity :
    (ip session_id now : Text) (es more : List Event)
    → let p = record_events es (new_profile ip session_id now) in
      let none_yet = (new_profile ip session_id now).detected_behaviors in
      (p.detected_behaviors ≡ seen es none_yet)
      × (p.escalation_level ≡ severity p.detected_behaviors)
      × (p.escalation_level ≤ (record_events more p).escalation_level)
record_events-severity ip session_id now es more =
    let p = record_events es (new_profile ip session_id now) in
    let none_yet = (new_profile ip session_id now).detected_behaviors in
    let (same, graded) =
      record_events-IsGraded es none_yet (new_profile ip session_id now) (refl, refl) in
    let (_, later) = record_events-IsGraded more (seen es none_yet) p (same, graded) in
    (
      same,
      graded ∙ ap severity (sym same),
      omega (arith, graded, later, severity-seen more (seen es none_yet)),
    )
