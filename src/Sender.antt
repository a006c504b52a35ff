-- ===== src/Sender.antt =====
-- The delivery of a report, the retry loop of manyfaced/client/report_sender.py. What the socket calls
-- and the decoding of the answer do in an attempt is an outcome, and is given for every attempt; the
-- report and its encryption are left out.
pub mod Backoff
pub mod Message
use manyfaced_honeypot.Base.{
  ℕ, zero, suc, ◌+◌, ◌*◌, List, [], ◌∷◌, ◌++◌, if◌then◌else◌, ltb, Text, codes,
}
use manyfaced_honeypot.Metrics.{Metrics, incr}

pub data Outcome : Type 0 where
  -- an answer came
  answered : Text → Outcome
  -- a `socket.error`
  refused : Outcome
  -- an answer that is not UTF-8, or a KeyboardInterrupt
  raised : Outcome

pub data End : Type 0 where
  sent : End
  gave_up : End
  failed : End

-- the seconds slept, the counters, and the number of dumps to the file
pub record SendState : Type 0 where
  pub sleeps : List ℕ
  pub metrics : Metrics
  pub dumps : ℕ

abbrev pub max_retries : ℕ
max_retries = 5

abbrev pub retry_delay : ℕ
retry_delay = 2

abbrev pub backoff_factor : ℕ
backoff_factor = 2

-- The loop from an attempt on, with the number of attempts that are left.
unfoldable pub send_from : (ℕ → Outcome) → ℕ → ℕ → ℕ → SendState → SendState × End
send_from outcomes attempt zero delay st = (st, gave_up)
send_from outcomes attempt (suc left) delay st =
    let retry =
      send_from outcomes (suc attempt) left (delay * backoff_factor)
        (record st { sleeps = st.sleeps ++ delay ∷ [] }) in
    let dump = send_from outcomes (suc attempt) left delay (record st {
      metrics = incr (codes "report_send_failure") 1 st.metrics;
      dumps = suc st.dumps;
    }) in
    elim (outcomes attempt) [
      | answered response ↦
          (record st { metrics = incr (codes "report_send_success") 1 st.metrics }, sent)
      | refused ↦ if ltb attempt max_retries then retry else dump
      | raised ↦ (st, failed)
    ]

-- the loop of `send_report`
unfoldable pub send_report : (ℕ → Outcome) → SendState → SendState × End
unfolding send_from
send_report outcomes st = send_from outcomes 1 max_retries retry_delay st
