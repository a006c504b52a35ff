-- ===== src/Sender/Backoff.antt =====
-- The attempts and the delays of manyfaced/client/report_sender.py.
use manyfaced_honeypot.Base.{
  ℕ, zero, suc, ◌+◌, ◌*◌, ◌^◌, ◌<◌, true, false, List, [], ◌∷◌, ◌++◌, ◌≡◌, refl, sym, ap, subst,
  ◌∙◌, arith, Text, codes, ltb, append-nil, append_assoc, inl, inr, ◌⊎◌,
}
use manyfaced_honeypot.Metrics.{incr}
use manyfaced_honeypot.Sender.{
  Outcome, answered, refused, raised, End, sent, gave_up, failed, SendState, send_from, send_report,
}
use native.Mathlib.Numerals.{unary_clauses}

-- `k` attempts from attempt `a` on are refused.
abbrev pub Refused : (ℕ → Outcome) → ℕ → ℕ → Type 0
Refused outcomes a zero = Unit
Refused outcomes a (suc k) = (outcomes a ≡ refused) × Refused outcomes (suc a) k

-- `k` delays, the first one after attempt `a`.
abbrev pub delays : ℕ → ℕ → List ℕ
delays a zero = []
delays a (suc k) = 2 ^ a ∷ delays (suc a) k

-- What a loop from attempt `a` with `left` attempts does.
abbrev pub Ended : (ℕ → Outcome) → ℕ → ℕ → SendState → SendState × End → Type 0
Ended outcomes a left st (after, sent) =
    (n k : ℕ) × (response : Text) × (n ≡ a + k)
    × (k < left)
    × Refused outcomes a k
    × (outcomes n ≡ answered response)
    × (after ≡ record st {
      sleeps = st.sleeps ++ delays a k;
      metrics = incr (codes "report_send_success") 1 st.metrics;
    })
Ended outcomes a left st (after, gave_up) =
    Refused outcomes a left
    × ((k : ℕ) × (left ≡ suc k)
        × (after ≡ record st {
          sleeps = st.sleeps ++ delays a k;
          metrics = incr (codes "report_send_failure") 1 st.metrics;
          dumps = suc st.dumps;
        }))
Ended outcomes a left st (after, failed) =
    (n k : ℕ) × (n ≡ a + k)
    × (k < left)
    × Refused outcomes a k
    × (outcomes n ≡ raised)
    × (after ≡ record st { sleeps = st.sleeps ++ delays a k })

after_delay :
    (outcomes : ℕ → Outcome) (a left : ℕ) (st : SendState) (r : SendState × End)
    → outcomes a ≡ refused
    → Ended outcomes (suc a) left (record st { sleeps = st.sleeps ++ 2 ^ a ∷ [] }) r
    → Ended outcomes a (suc left) st r
after_delay outcomes a left st (after, sent) h (n, k, response, e, less, before, came, same) = (
  n,
  suc k,
  response,
  omega (arith, e),
  omega (arith, less),
  (h, before),
  came,
  same ∙ rw (append_assoc st.sleeps (2 ^ a ∷ []) (delays (suc a) k)),
)
after_delay outcomes a left st (after, gave_up) h (before, (k, e, same)) = (
  (h, before),
  (suc k, ap suc e, same ∙ rw (append_assoc st.sleeps (2 ^ a ∷ []) (delays (suc a) k))),
)
after_delay outcomes a left st (after, failed) h (n, k, e, less, before, came, same) = (
  n,
  suc k,
  omega (arith, e),
  omega (arith, less),
  (h, before),
  came,
  same ∙ rw (append_assoc st.sleeps (2 ^ a ∷ []) (delays (suc a) k)),
)

Outcome-cases :
    (o : Outcome) → ((response : Text) × (o ≡ answered response)) ⊎ (o ≡ refused) ⊎ (o ≡ raised)
Outcome-cases (answered response) = inl (response, refl)
Outcome-cases refused = inr (inl refl)
Outcome-cases raised = inr (inr refl)

power_suc : (a : ℕ) → 2 ^ a * 2 ≡ 2 ^ suc a
power_suc a = simp unary_clauses refl

send_from-Ended :
    (outcomes : ℕ → Outcome) (a left : ℕ) (st : SendState)
    → a + left ≡ 5
    → Ended outcomes a (suc left) st (send_from outcomes a (suc left) (2 ^ a) st)
unfolding send_from
send_from-Ended outcomes a zero st total = elim (Outcome-cases (outcomes a)) [
  | inl (response, came) ↦
      rw (came, send_from)
        (a, 0, response, omega arith, omega arith, tt, came, rw (append-nil st.sleeps))
  | inr (inr came) ↦
      rw (came, send_from) (a, 0, omega arith, omega arith, tt, came, rw (append-nil st.sleeps))
  | inr (inl came) ↦
      let last : ltb a 5 ≡ false = ground arith in
      rw (came, last, send_from) ((came, tt), (0, refl, rw (append-nil st.sleeps)))
]
send_from-Ended outcomes a (suc left) st total = elim (Outcome-cases (outcomes a)) [
  | inl (response, came) ↦
      rw (came, send_from)
        (a, 0, response, omega arith, omega arith, tt, came, rw (append-nil st.sleeps))
  | inr (inr came) ↦
      rw (came, send_from) (a, 0, omega arith, omega arith, tt, came, rw (append-nil st.sleeps))
  | inr (inl came) ↦
      let more : ltb a 5 ≡ true = ground arith in
      let next = record st { sleeps = st.sleeps ++ 2 ^ a ∷ [] } in
      let rest = send_from-Ended outcomes (suc a) left next (omega (arith, total)) in
      let done =
        after_delay outcomes a (suc left) st
          (send_from outcomes (suc a) (suc left) (2 ^ suc a) next) came rest in
      rw (came, more, send_from)
        (subst
          (λ d. Ended outcomes a (suc (suc left)) st (send_from outcomes (suc a) (suc left) d next))
          (sym (power_suc a)) done)
]

-- A report is attempted at most five times. It is sent at the first attempt that gets an answer of any
-- kind, or fails at the first that raises, after refused attempts only and a delay of 2, 4, 8 or 16
-- seconds after each of them. If all five are refused it is dumped once. A success or a failure is
-- counted accordingly.
pub send_report-Ended :
    (outcomes : ℕ → Outcome) (st : SendState) → Ended outcomes 1 5 st (send_report outcomes st)
unfolding send_report
send_report-Ended outcomes st = send_from-Ended outcomes 1 4 st refl
