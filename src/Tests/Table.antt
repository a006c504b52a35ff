-- ===== src/Tests/Table.antt =====
-- Examples on the route table of manyfaced/handlers/routes/__init__.py.
use manyfaced_honeypot.Base.{
  ℕ, Bool, true, false, none, some, [], ◌+◌, ◌≡◌, ◌≢◌, refl, Text, codes, is_some,
}
use manyfaced_honeypot.Metrics.{initial}
use manyfaced_honeypot.Router.{Request, HandlerClass, RouterState, dispatch, explain_from}
use manyfaced_honeypot.Routes.Entries.{HandlerName, route_of}
use manyfaced_honeypot.Routes.{routes, catch_all_route}
use manyfaced_honeypot.Routes.Policy.{routes-answer, documented_policy, DocumentedPolicy}
use manyfaced_honeypot.Routes.Shadows.{never_first}

abbrev quiet : HandlerName → HandlerClass ℕ
quiet name = record {
  domain = codes "service";
  fresh = 0;
  generate_response = λ req n. (n + 1, some (codes "answer", 1));
  record_interaction = λ req res n. n;
}

-- a test that takes no path for a random one
abbrev never : Text → Bool
never path = false

abbrev login : Request
login = record { path = codes "/login"; raw_request = []; bot_ip = codes "192.0.2.7"; headers = [] }

abbrev fresh_router : RouterState ℕ
fresh_router = record { instances = []; metrics = initial }

routes-answer_example :
    is_some (dispatch (routes quiet never) login (some 443) fresh_router).1 ≡ true
routes-answer_example =
    routes-answer quiet never login (some 443) fresh_router
      (record { matcher = refl; ports = refl; answers = λ req s. refl })

documented_policy_example : DocumentedPolicy quiet never (some 8080) (codes "x.php")
documented_policy_example = documented_policy quiet never (some 8080) (codes "x.php")

never_first_example :
    explain_from 0 (routes quiet never) none (codes "/api/datasources")
    ≢ some (81, route_of quiet catch_all_route)
never_first_example =
    never_first quiet never 0 49 81 "env_disc_api_admin" none (codes "/api/datasources")
      (route_of quiet catch_all_route) refl
