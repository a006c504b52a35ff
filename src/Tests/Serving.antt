-- ===== src/Tests/Serving.antt =====
-- Concrete inputs of the router, the metrics, the ports and the profile cache.
use manyfaced_honeypot.Base.{
  ℕ, ◌≤◌, ◌+◌, false, true, none, some, List, [], ◌∷◌, ◌≡◌, ◌↔◌, ◌⊎◌, refl, arith, Text, codes,
  Dict, lookup, text_key, text_eq, nat_eq, is_some, any, ◌==◌, split_once, unquote,
}
use manyfaced_honeypot.Metrics.{initial}
use manyfaced_honeypot.Router.{
  Request, HandlerClass, Route, RouterState, path_prefix, any_path, match, decode_path, dispatch,
  explain_from, call_handler, in_scope, settle,
}
use manyfaced_honeypot.Router.Dispatch.{dispatch-explain}
use manyfaced_honeypot.Router.Answers.{IsCatchAll, responses_total, answered, dispatch_total}
use manyfaced_honeypot.Ports.{external_port, internal_ports}
use manyfaced_honeypot.Ports.Redirects.{internal_ports_iff}
use manyfaced_honeypot.Handler.{get_or_create_profile}
use manyfaced_honeypot.Handler.Cache.{IsValid, after, served, get_or_create_profile-after}
use manyfaced_honeypot.Handler.Recency.{keys, last_n, recency, serve, serve-last_n}
use manyfaced_honeypot.Queue.{QueueState, new_queue, WorkerStep, enter, Reachable, start, was_put}
use manyfaced_honeypot.Queue.Soundness.{IsSound, Reachable-IsSound, count_of}
use manyfaced_honeypot.Queue.Draining.{Run, step, stay, steps_left, IsDrained, shut_down-IsDrained}

abbrev hello_handler : HandlerClass ℕ
hello_handler = record {
  domain = codes "hello";
  fresh = 0;
  generate_response = λ req n. (n + 1, some (codes "hello", 1));
  record_interaction = λ req res n. n;
}

abbrev admin_route : Route ℕ
admin_route = record {
  matcher = path_prefix (codes "/admin");
  handler = hello_handler;
  detected_id = 3;
  name = codes "admin";
  ports = some (8080 ∷ []);
}

abbrev last_route : Route ℕ
last_route = record {
  matcher = any_path;
  handler = hello_handler;
  detected_id = 1;
  name = codes "any";
  ports = none;
}

abbrev routes : List (Route ℕ)
routes = admin_route ∷ last_route ∷ []

abbrev visit : Request
visit = record {
  path = codes "/index";
  raw_request = codes "GET /index HTTP/1.0";
  bot_ip = codes "203.0.113.5";
  headers = [];
}

abbrev idle : RouterState ℕ
idle = record { instances = []; metrics = initial }

visit_decoded : decode_path (codes "/index") ≡ codes "/index"
unfolding decode_path split_once unquote
visit_decoded = refl

last_route_first : explain_from 0 routes (some 443) (decode_path visit.path) ≡ some (1, last_route)
unfolding explain_from in_scope match decode_path split_once unquote
last_route_first = refl

last_route_answers :
    is_some (call_handler 1 hello_handler (record visit { path = decode_path visit.path }) idle).1
    ≡ true
unfolding call_handler settle
last_route_answers = refl

dispatch-explain_example :
    dispatch routes visit (some 443) idle
    ≡ call_handler 1 hello_handler (record visit { path = decode_path visit.path }) idle
dispatch-explain_example =
    dispatch-explain routes visit (some 443) idle 1 last_route last_route_first last_route_answers

last_route_catches : IsCatchAll last_route
last_route_catches = record { matcher = refl; ports = refl; answers = λ req s. refl }

dispatch_total_example :
    responses_total (dispatch routes visit none idle).0.metrics.responses
    ≡ responses_total idle.metrics.responses + answered (dispatch routes visit none idle).1
dispatch_total_example = dispatch_total routes visit none idle

abbrev bound_port : ℕ
bound_port = 2222

abbrev shown_port : ℕ
shown_port = 22

internal_ports_iff_example :
    (any (λ p. bound_port == p) (internal_ports shown_port) ≡ true)
    ↔ ((bound_port ≡ shown_port) ⊎ (external_port (some bound_port) ≡ shown_port))
internal_ports_iff_example = internal_ports_iff shown_port bound_port (omega arith)

abbrev first_ip : Text
first_ip = codes "203.0.113.5"

abbrev second_ip : Text
second_ip = codes "203.0.113.6"

abbrev two_profiles : Dict Text ℕ
two_profiles = (first_ip, 1) ∷ (second_ip, 2) ∷ []

two_profiles-IsValid : IsValid 2 two_profiles
unfolding lookup text_eq
two_profiles-IsValid = record { bounded = omega arith; distinct = (refl, (refl, tt)) }

get_or_create_profile-after_example :
    (get_or_create_profile 2 3 (codes "198.51.100.9") two_profiles
      ≡ some (
        after 2 3 (codes "198.51.100.9") two_profiles (lookup (codes "198.51.100.9") two_profiles),
        served 3 (lookup (codes "198.51.100.9") two_profiles),
      ))
    × IsValid 2
        (after 2 3 (codes "198.51.100.9") two_profiles (lookup (codes "198.51.100.9") two_profiles))
get_or_create_profile-after_example =
    get_or_create_profile-after 2 3 (codes "198.51.100.9") two_profiles (omega arith)
      two_profiles-IsValid

serve-last_n_example :
    (d : Dict Text ℕ) × (serve 2 (λ ip. 0) (first_ip ∷ second_ip ∷ first_ip ∷ []) [] ≡ some d)
    × IsValid 2 d
    × (keys d ≡ last_n 2 (recency [] (first_ip ∷ second_ip ∷ first_ip ∷ [])))
serve-last_n_example = serve-last_n 2 (λ ip. 0) (first_ip ∷ second_ip ∷ first_ip ∷ []) (omega arith)

abbrev one_task : QueueState ℕ
one_task = record (new_queue ℕ) { pending = 7 ∷ [] }

one_task-Reachable : Reachable (7 ∷ []) one_task
one_task-Reachable = was_put [] (new_queue ℕ) 7 start (omega arith)

Reachable-IsSound_example : IsSound (λ x. x == 7) (7 ∷ []) one_task
Reachable-IsSound_example = Reachable-IsSound (λ x. x == 7) (7 ∷ []) one_task one_task-Reachable

abbrev closing : QueueState ℕ
closing = record one_task { alive = false }

abbrev one_entered : QueueState ℕ
one_entered = record closing { at_test = 9; in_get = 1 }

one_entered_run : Run 1 closing one_entered
one_entered_run =
    step 0 closing one_entered one_entered (enter closing 9 refl refl) (stay one_entered)

shut_down-IsDrained_example :
    (1 ≤ steps_left one_task)
    × ((IsDrained one_entered
          × (count_of (λ x. x == 7) one_entered.finished ≡ count_of (λ x. x == 7) (7 ∷ [])))
        ⊎ ((u : QueueState ℕ) × WorkerStep one_entered u))
shut_down-IsDrained_example =
    shut_down-IsDrained (λ x. x == 7) (7 ∷ []) one_task one_entered 1 one_task-Reachable refl
      one_entered_run
