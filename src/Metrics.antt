-- ===== src/Metrics.antt =====
-- manyfaced/common/metrics.py: the counters, gauges and responses by domain. Every operation runs
-- under the module's lock, and so is one step on the state. The stats-logger thread is left out.
pub mod Totals
use manyfaced_honeypot.Base.{
  ℕ, ◌+◌, Bool, true, false, Option, none, some, List, [], ◌∷◌, ◌++◌, map, if◌then◌else◌, Text,
  codes, Dict, lookup, insert, has_key, show_nat, ltb, ◌==◌, text_key,
}

pub record Metrics : Type 0 where
  pub counters : Dict Text ℕ
  pub responses : Dict Text ℕ
  pub gauges : Dict Text ℕ

-- the module's state when it is imported
abbrev pub initial : Metrics
initial = record {
  counters =
      (codes "bot_connections", 0)
      ∷ (codes "credential_captures", 0)
      ∷ (codes "report_send_success", 0)
      ∷ (codes "report_send_failure", 0)
      ∷ (codes "geo_lookup_failure", 0)
      ∷ (codes "db_insert_failure", 0)
      ∷ (codes "handler_exception", 0)
      ∷ (codes "classification.benign", 0)
      ∷ (codes "classification.unknown", 0)
      ∷ (codes "classification.malicious", 0)
      ∷ [];
  responses = [];
  gauges = (codes "report_queue_depth", 0) ∷ (codes "active_connections", 0) ∷ [];
}

abbrev pub value_or : ℕ → Option ℕ → ℕ
value_or d none = d
value_or d (some n) = n

-- `counters[name] += amount`, where the name is known
unfoldable pub add_known : Text → ℕ → Dict Text ℕ → Dict Text ℕ
add_known name amount d = elim (lookup name d) [ none ↦ d | some n ↦ insert name (n + amount) d ]

unfoldable pub incr : Text → ℕ → Metrics → Metrics
incr name amount m = record m { counters = add_known name amount m.counters }

unfoldable pub incr_response : Text → Metrics → Metrics
incr_response domain m = record m {
  responses = insert domain (value_or 0 (lookup domain m.responses) + 1) m.responses;
}

unfoldable pub set_gauge : Text → ℕ → Metrics → Metrics
set_gauge name value m =
    if has_key name m.gauges then record m { gauges = insert name value m.gauges } else m

-- `sorted` on keys, in the order of their code points
text_le : Text → Text → Bool
text_le [] t = true
text_le (x ∷ s) [] = false
text_le (x ∷ s) (y ∷ t) = if x == y then text_le s t else ltb x y

insert_sorted : Text × ℕ → Dict Text ℕ → Dict Text ℕ
insert_sorted e [] = e ∷ []
insert_sorted (k, n) ((j, v) ∷ d) =
    if text_le k j then (k, n) ∷ (j, v) ∷ d else (j, v) ∷ insert_sorted (k, n) d

sort_entries : Dict Text ℕ → Dict Text ℕ
sort_entries [] = []
sort_entries (e ∷ d) = insert_sorted e (sort_entries d)

join_parts : Text → List Text → Text
join_parts sep [] = []
join_parts sep (s ∷ []) = s
join_parts sep (s ∷ s' ∷ rest) = s ++ (sep ++ join_parts sep (s' ∷ rest))

abbrev part : Text → Text × ℕ → Text
part prefix (k, n) = prefix ++ (k ++ (codes "=" ++ show_nat n))

unfoldable pub format_snapshot : Metrics → Text
unfolding sort_entries insert_sorted text_le join_parts show_nat
format_snapshot m =
    codes "metrics "
    ++ join_parts (codes " ") (
        map (part []) (sort_entries m.counters)
        ++ (map (part []) (sort_entries m.gauges)
            ++ map (part (codes "responses.")) (sort_entries m.responses)))
