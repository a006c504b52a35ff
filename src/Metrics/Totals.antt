-- ===== src/Metrics/Totals.antt =====
-- No increment is lost: what a counter of manyfaced/common/metrics.py shows after any run of steps.
use manyfaced_honeypot.Base.{
  ℕ, ◌+◌, Option, none, some, List, [], ◌∷◌, ◌≡◌, arith, if◌then◌else◌, Text, lookup, lookup-insert,
  text_eq, text_eq_iff, Dict, Option-cases, inl, inr, text_key,
}
use manyfaced_honeypot.Metrics.{Metrics, add_known, incr, incr_response, set_gauge}

-- A call of one of the module's operations, by any thread.
pub data Call : Type 0 where
  count : Text → ℕ → Call
  respond : Text → Call
  gauge : Text → ℕ → Call

unfoldable pub step : Call → Metrics → Metrics
step (count name amount) m = incr name amount m
step (respond domain) m = incr_response domain m
step (gauge name value) m = set_gauge name value m

-- The calls in the order in which the lock lets them through.
unfoldable pub run : List Call → Metrics → Metrics
run [] m = m
run (c ∷ cs) m = run cs (step c m)

-- What the calls add to a counter.
abbrev pub amount_for : Text → Call → ℕ
amount_for j (count name amount) = if text_eq name j then amount else 0
amount_for j _ = 0

abbrev pub total : Text → List Call → ℕ
total j [] = 0
total j (c ∷ cs) = amount_for j c + total j cs

abbrev pub plus : Option ℕ → ℕ → Option ℕ
plus none n = none
plus (some m) n = some (m + n)

lookup-add_known :
    (j name : Text) (amount : ℕ) (d : Dict Text ℕ)
    → lookup j (add_known name amount d) ≡ plus (lookup j d) (if text_eq name j then amount else 0)
unfolding add_known
lookup-add_known j name amount d = elim (Option-cases (lookup name d)) [
  | inl e ↦ ground (arith, text_eq_iff name j)
  | inr (n, e) ↦ ground (arith, text_eq_iff name j, lookup-insert name j (n + amount) d)
]

lookup-step :
    (j : Text) (c : Call) (m : Metrics)
    → lookup j (step c m).counters ≡ plus (lookup j m.counters) (amount_for j c)
unfolding step incr incr_response set_gauge
lookup-step j (count name amount) m = lookup-add_known j name amount m.counters
lookup-step j (respond domain) m = ground arith
lookup-step j (gauge name value) m = ground arith

-- After any calls in any order a counter shows its first value and the sum of all the amounts that
-- were counted for it; a name that was no counter is still none.
pub lookup-run :
    (j : Text) (cs : List Call) (m : Metrics)
    → lookup j (run cs m).counters ≡ plus (lookup j m.counters) (total j cs)
unfolding run
lookup-run j [] m = ground arith
lookup-run j (c ∷ cs) m = ground (arith, lookup-step j c m, lookup-run j cs (step c m))
