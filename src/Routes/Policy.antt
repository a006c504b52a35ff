-- ===== src/Routes/Policy.antt =====
-- What the comments of manyfaced/handlers/routes/__init__.py say about the order of the routes.
use manyfaced_honeypot.Base.{
  ℕ, Bool, true, Option, none, some, List, [], ◌∷◌, ◌++◌, map, ◌≡◌, refl, sym, ap, ◌∙◌, subst, Text,
  codes, String, is_some, lower, starts_with, text_eq, append_assoc,
}
use manyfaced_honeypot.Router.{
  Request, HandlerClass, Route, RouterState, in_scope, match, explain_from, dispatch,
}
use manyfaced_honeypot.Router.Answers.{IsCatchAll, dispatch-catch_all}
use manyfaced_honeypot.Routes.Entries.{HandlerName, route_of}
use manyfaced_honeypot.Routes.{
  face_routes, fingerprint_route, favicon_route, catch_all_route, entries, routes,
}

map-append : {A B : Type 0} (f : A → B) (l m : List A) → map f (l ++ m) ≡ map f l ++ map f m
map-append f [] m = refl
map-append f (x ∷ l) m = ap (◌∷◌ (f x)) (map-append f l m)

split_table :
    {S : Type 0} (classes : HandlerName → HandlerClass S) (is_random_probe : Text → Bool)
    → map
          (route_of classes)
          (face_routes ++ (fingerprint_route is_random_probe ∷ favicon_route ∷ []))
        ++ route_of classes catch_all_route ∷ []
      ≡ routes classes is_random_probe
unfolding routes entries
split_table classes is_random_probe =
    sym (
      map-append (route_of classes)
        (face_routes ++ (fingerprint_route is_random_probe ∷ favicon_route ∷ []))
        (catch_all_route ∷ []))
    ∙ ap (map (route_of classes)) (
        append_assoc face_routes (fingerprint_route is_random_probe ∷ favicon_route ∷ [])
          (catch_all_route ∷ []))

-- Whatever the other handler classes do, a request on any path and any port is answered, as long as
-- the generic handler does not raise.
pub routes-answer :
    {S : Type 0} (classes : HandlerName → HandlerClass S) (is_random_probe : Text → Bool)
    (req : Request) (port : Option ℕ) (st : RouterState S)
    → IsCatchAll (route_of classes catch_all_route)
    → is_some (dispatch (routes classes is_random_probe) req port st).1 ≡ true
unfolding routes entries
routes-answer classes is_random_probe req port st c =
    let before =
      map (route_of classes)
        (face_routes ++ (fingerprint_route is_random_probe ∷ favicon_route ∷ [])) in
    subst (λ table. is_some (dispatch table req port st).1 ≡ true)
      (split_table classes is_random_probe)
      (dispatch-catch_all before [] (route_of classes catch_all_route) req port st c)

-- The name of the route that `explain` finds first.
abbrev pub chosen : {S : Type 0} → Option (ℕ × Route S) → Option Text
chosen none = none
chosen (some (i, r)) = some r.name

module _ {S : Type 0} (classes : HandlerName → HandlerClass S) (is_random_probe : Text → Bool)
    (port : Option ℕ) where
  -- The route with this name is the first one for a path.
  abbrev pub Serves : String → Text → Type 0
  Serves name path =
      chosen (explain_from 0 (routes classes is_random_probe) port path) ≡ some (codes name)

  -- What the comments of the table say of the routes that meet: the first route for each path.
  abbrev pub DocumentedPolicy : Text → Type 0
  DocumentedPolicy rest =
      Serves "cgi_bin_prefix" (codes "/cgi-bin/" ++ rest)
      × Serves "phpunit_admin" (codes "/admin/vendor/phpunit/" ++ rest)
      × Serves "phpunit_api" (codes "/api/vendor/phpunit/" ++ rest)
      × Serves "phpunit_laravel" (codes "/laravel/vendor/phpunit/" ++ rest)
      × Serves "k8s_apis_prefix" (codes "/apis/" ++ rest)
      × Serves "env_disc_admin_env" (codes "/admin/.env")
      × Serves "nextjs_api_prefix" (codes "/api/route")
      × Serves "grafana_api_datasources" (codes "/api/datasources")
      × Serves "langflow_api_run" (codes "/api/v1/run")
      × Serves "nextjs_next_exact" (codes "/_next")
      × Serves "wordpress_xmlrpc_php" (codes "/xmlrpc.php")
      × Serves "drupal_files" (codes "/files")
      × Serves "phpmyadmin_mysql" (codes "/mysql")
      × Serves "config_env" (codes "/.env")

  -- For every port and every rest of the path, the nested probes that the comments name reach the
  -- routes of the exploit faces, the Kubernetes API goes before Next.js, and the single paths that
  -- several services claim reach WordPress, Drupal, phpMyAdmin and the configuration files.
  pub documented_policy : (rest : Text) → DocumentedPolicy rest
  unfolding face_routes routes explain_from in_scope match lower starts_with text_eq
  documented_policy rest =
      (refl, refl, refl, refl, refl, refl, refl, refl, refl, refl, refl, refl, refl, refl)
