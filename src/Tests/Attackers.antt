-- ===== src/Tests/Attackers.antt =====
-- Concrete inputs of the bot profiles, the classification, the credentials, the geolocation cache, the
-- report sender and the settings.
use manyfaced_honeypot.Base.{
  All, ◌==◌, all, ℕ, zero, suc, ◌≤◌, true, false, not, none, some, List, [], ◌∷◌, ◌++◌, ◌≡◌, ◌≢◌,
  ◌↔◌, refl, arith, Text, codes, Dict, lookup, text_key, text_eq, strip, upper, lower, starts_with,
}
use manyfaced_honeypot.Profile.{Request, new_profile}
use manyfaced_honeypot.Profile.Severity.{
  Event, requested, interacted, captured, record_events, seen, severity, record_events-severity,
}
use manyfaced_honeypot.Profile.History.{last, requests, entries, record_events-last}
use manyfaced_honeypot.Classification.{TomlEntry, Source, source_of, dns_matches, classify}
use manyfaced_honeypot.Classification.Suffix.{IsPlain, dns_matches-suffix}
use manyfaced_honeypot.Classification.Decision.{Verdict, classify-Verdict}
use manyfaced_honeypot.Geolocate.{GeoResult, GeoState, is_local}
use manyfaced_honeypot.Metrics.{initial}
use manyfaced_honeypot.Sender.{Outcome, answered, refused, SendState, send_report}
use manyfaced_honeypot.Sender.Backoff.{Ended, send_report-Ended}
use manyfaced_honeypot.Config.{tuple_value, list_value, resolve_setting}
use manyfaced_honeypot.Config.Entries.{joined, IsEntry, is_tuple, resolve_setting-joined}

abbrev ip : Text
ip = codes "203.0.113.5"

abbrev now : Text
now = codes "2024-01-01T00:00:00+00:00"

abbrev traversal : Request
traversal = record {
  path = codes "/../../etc/passwd";
  method = codes "GET";
  raw = codes "GET /../../etc/passwd HTTP/1.1\r\nHost: a\r\n\r\n";
  headers = [];
}

abbrev events : List Event
events =
    requested now traversal
    ∷ interacted now traversal (codes "root:x") 3
    ∷ captured now ((codes "username", codes "root") ∷ [])
    ∷ []

record_events-severity_example :
    let p = record_events events (new_profile ip (codes "0123") now) in
    let none_yet = (new_profile ip (codes "0123") now).detected_behaviors in
    (p.detected_behaviors ≡ seen events none_yet)
    × (p.escalation_level ≡ severity p.detected_behaviors)
    × (p.escalation_level ≤ (record_events events p).escalation_level)
record_events-severity_example = record_events-severity ip (codes "0123") now events events

record_events-last_example :
    let p = record_events events (new_profile ip (codes "0123") now) in
    (p.request_history ≡ last 500 (requests events)) × (p.dialogue ≡ last 500 (entries 0 events))
record_events-last_example = record_events-last ip (codes "0123") now events

abbrev shodan_entry : TomlEntry
shodan_entry = record {
  name = some (codes "Shodan");
  category = none;
  reverse_dns = some (codes "*.shodan.io" ∷ []);
  asn = none;
  org = none;
  user_agent = some (codes "Shodan" ∷ []);
}

abbrev org_entry : TomlEntry
org_entry = record {
  name = some (codes "Org");
  category = none;
  reverse_dns = none;
  asn = none;
  org = some (codes "Amazon" ∷ []);
  user_agent = some (codes "curl" ∷ []);
}

abbrev sources : List Source
sources = source_of shodan_entry ∷ source_of org_entry ∷ []

classify-Verdict_example :
    Verdict
      (strip (codes "a.shodan.io "))
      (upper (strip (codes "as1")))
      sources
      (classify sources (codes "a.shodan.io ") (codes "Amazon") (codes "as1") (codes "curl"))
classify-Verdict_example =
    classify-Verdict sources (codes "a.shodan.io ") (codes "Amazon") (codes "as1") (codes "curl")

suffix-IsPlain : IsPlain (lower (codes ".io"))
unfolding lower
suffix-IsPlain = ground arith

dns_matches-suffix_example :
    (dns_matches (codes "a.Shodan.IO") ((b'*' ∷ codes ".io") ∷ []) ≡ true) ↔ (
      (codes "a.Shodan.IO" ≢ [])
      × (t : Text) × (lower (codes "a.Shodan.IO") ≡ t ++ lower (codes ".io")))
dns_matches-suffix_example = dns_matches-suffix (codes "a.Shodan.IO") (codes ".io") suffix-IsPlain

abbrev login_request : Text
login_request = codes "POST /login HTTP/1.1\r\n\r\nlog=root&pwd=a+b"

abbrev login_credentials : Dict Text Text
login_credentials = (codes "username", codes "root") ∷ (codes "password", codes "a b") ∷ []

abbrev no_geo : GeoState
no_geo = record { cache = []; queue = [] }

abbrev in_france : GeoResult
in_france = record {
  country = codes "France";
  continent = codes "Europe";
  asn = codes "AS16276";
  org = codes "OVH SAS";
}

ip_is_public : is_local ip ≡ false
unfolding is_local text_eq starts_with
ip_is_public = refl

abbrev second_try : ℕ → Outcome
second_try zero = refused
second_try (suc zero) = refused
second_try (suc (suc n)) = answered (codes "200 OK")

abbrev nothing_sent : SendState
nothing_sent = record { sleeps = []; metrics = initial; dumps = 0 }

send_report-Ended_example : Ended second_try 1 5 nothing_sent (send_report second_try nothing_sent)
send_report-Ended_example = send_report-Ended second_try nothing_sent

abbrev backends_env : Dict Text Text
backends_env = (codes "HONEY_DB_BACKENDS", codes "sqlite;postgres") ∷ []

backends_are_set :
    lookup (codes "HONEY_" ++ upper (codes "db_backends")) backends_env
    ≡ some (joined (codes "sqlite") (codes "postgres" ∷ []))
unfolding lookup upper text_eq
backends_are_set = refl

no_semicolon : (s : Text) → all (λ c. not (c == b';')) s ≡ true → All (λ c. c ≢ b';') s
no_semicolon [] h = tt
no_semicolon (c ∷ s) h = ground (arith, no_semicolon s)

sqlite-IsEntry : IsEntry (codes "sqlite")
unfolding strip
sqlite-IsEntry = record {
  no_semicolon = no_semicolon (codes "sqlite") refl;
  trimmed = refl;
  filled = refl;
}

postgres-IsEntry : IsEntry (codes "postgres")
unfolding strip
postgres-IsEntry = record {
  no_semicolon = no_semicolon (codes "postgres") refl;
  trimmed = refl;
  filled = refl;
}

resolve_setting-joined_example :
    resolve_setting
      (codes "db_backends")
      (tuple_value (codes "sqlite" ∷ []))
      (codes "server")
      none
      (codes "HONEY_")
      none
      backends_env
    ≡ list_value (codes "sqlite" ∷ codes "postgres" ∷ [])
resolve_setting-joined_example =
    resolve_setting-joined (codes "db_backends") (tuple_value (codes "sqlite" ∷ []))
      (codes "server") none (codes "HONEY_") none backends_env (codes "sqlite")
      (codes "postgres" ∷ []) (is_tuple (codes "sqlite" ∷ [])) sqlite-IsEntry (postgres-IsEntry, tt)
      backends_are_set
