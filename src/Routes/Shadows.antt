-- ===== src/Routes/Shadows.antt =====
-- Routes of manyfaced/handlers/routes/ that an earlier route of another service keeps from ever being
-- the first.
use manyfaced_honeypot.Base.{
  ℕ, zero, suc, ◌+◌, ◌<◌, ◌≤◌, Bool, true, false, ◌&&◌, Option, none, some, List, [], ◌∷◌, ◌≡◌, ◌≢◌,
  refl, arith, Text, String, codes, get_elem?, all, ltb, starts_with, text_eq, text_eq_iff, lower,
  ap, sym, ◌∙◌,
}
use manyfaced_honeypot.Router.{
  Matcher, path_prefix, path_exact, any_path, high_entropy, HandlerClass, Route, applies, match,
  in_scope, explain_from,
}
use manyfaced_honeypot.Routes.Entries.{HandlerName}
use manyfaced_honeypot.Routes.{face_routes, entries, routes}

starts_with_trans :
    (p q s : Text) → starts_with p q ≡ true → starts_with q s ≡ true → starts_with p s ≡ true
unfolding starts_with
starts_with_trans [] q s h k = refl
starts_with_trans (x ∷ p) [] s h k = cc
starts_with_trans (x ∷ p) (y ∷ q) [] h k = cc
starts_with_trans (x ∷ p) (y ∷ q) (z ∷ s) h k = ground (arith, starts_with_trans p q s)

-- Every path of the second matcher is one of the first.
pub covers_matcher : Matcher → Matcher → Bool
covers_matcher (path_prefix p) (path_prefix q) = starts_with (lower p) (lower q)
covers_matcher (path_prefix p) (path_exact q) = starts_with (lower p) (lower q)
covers_matcher (path_exact p) (path_exact q) = text_eq (lower p) (lower q)
covers_matcher any_path m = true
covers_matcher l m = false

match-covers_matcher :
    (l m : Matcher) (path : Text)
    → covers_matcher l m ≡ true
    → match m path ≡ true
    → match l path ≡ true
unfolding covers_matcher match
match-covers_matcher (path_prefix p) (path_prefix q) path c h =
    starts_with_trans (lower p) (lower q) (lower path) c h
match-covers_matcher (path_prefix p) (path_exact q) path c h = rw ((text_eq_iff _ _).0 h) c
match-covers_matcher (path_prefix p) any_path path c h = cc
match-covers_matcher (path_prefix p) (high_entropy t) path c h = cc
match-covers_matcher (path_exact p) (path_prefix q) path c h = cc
match-covers_matcher (path_exact p) (path_exact q) path c h =
    (text_eq_iff _ _).1 ((text_eq_iff _ _).0 h ∙ sym ((text_eq_iff _ _).0 c))
match-covers_matcher (path_exact p) any_path path c h = cc
match-covers_matcher (path_exact p) (high_entropy t) path c h = cc
match-covers_matcher any_path m path c h = refl
match-covers_matcher (high_entropy t) m path c h = cc

-- a route that serves every port
pub unscoped : Option (List ℕ) → Bool
unscoped none = true
unscoped (some _) = false

in_scope-unscoped :
    (ports : Option (List ℕ)) (port : Option ℕ) → unscoped ports ≡ true → in_scope ports port ≡ true
unfolding unscoped in_scope
in_scope-unscoped none port h = refl
in_scope-unscoped (some ports) port h = cc

-- Every request of the second route is one of the first.
pub covers : {S : Type 0} → Route S → Route S → Bool
covers e r = unscoped e.ports && covers_matcher e.matcher r.matcher

module _ {S : Type 0} (port : Option ℕ) (path : Text) where
  applies-covers :
      (e r : Route S) → covers e r ≡ true → applies r port path ≡ true → applies e port path ≡ true
  unfolding covers
  applies-covers e r c h =
      ground (arith, in_scope-unscoped e.ports port, match-covers_matcher e.matcher r.matcher path)

  first_after :
      (k n : ℕ) (rs : List (Route S)) (q : Route S)
      → explain_from k rs port path ≡ some (n, q)
      → k ≤ n
  unfolding explain_from
  first_after k n [] q h = cc
  first_after k n (r ∷ rs) q h = ground (arith, first_after (suc k) n rs q)

  first_before :
      (k i n : ℕ) (rs : List (Route S)) (e q : Route S)
      → get_elem? rs i ≡ some e
      → applies e port path ≡ true
      → explain_from k rs port path ≡ some (n, q)
      → n ≤ k + i
  unfolding explain_from
  first_before k i n [] e q g a h = cc
  first_before k zero n (r ∷ rs) e q g a h =
      let same : r ≡ e = cc in ground (arith, ap (λ s. applies s port path) same)
  first_before k (suc i) n (r ∷ rs) e q g a h = ground (arith, first_before (suc k) i n rs e q g a)

  first_applies :
      (k j n : ℕ) (rs : List (Route S)) (r q : Route S)
      → get_elem? rs j ≡ some r
      → explain_from k rs port path ≡ some (n, q)
      → n ≡ k + j
      → applies r port path ≡ true
  unfolding explain_from
  first_applies k j n [] r q g h e = cc
  first_applies k zero n (s ∷ rs) r q g h e =
      let same : s ≡ r = cc in
      ground (arith, ap (λ s. applies s port path) same, first_after (suc k) n rs q)
  first_applies k (suc j) n (s ∷ rs) r q g h e = ground (arith, first_applies (suc k) j n rs r q g)

-- A route that a later one never comes before: its position, the later one's, and the later one's name.
abbrev pub Shadow : Type 0
Shadow = ℕ × ℕ × String

covers_named : {S : Type 0} → ℕ → ℕ → Text → Option (Route S) → Option (Route S) → Bool
covers_named i j name none r = false
covers_named i j name (some e) none = false
covers_named i j name (some e) (some r) = ltb i j && (covers e r && text_eq r.name name)

covers_named_sound :
    {S : Type 0} (i j : ℕ) (name : Text) (o p : Option (Route S))
    → covers_named i j name o p ≡ true
    → (e : Route S) × (r : Route S) × (o ≡ some e) × (p ≡ some r) × (i < j) × (covers e r ≡ true)
unfolding covers_named
covers_named_sound i j name none p h = cc
covers_named_sound i j name (some e) none h = cc
covers_named_sound i j name (some e) (some r) h = (e, r, refl, refl, ground arith, ground arith)

-- The two positions hold routes, the first before the second, and the first covers the second, which
-- has the name.
pub is_shadow : {S : Type 0} → List (Route S) → Shadow → Bool
unfolding covers_named
is_shadow rs (i, j, name) = covers_named i j (codes name) (get_elem? rs i) (get_elem? rs j)

-- In a table, a route that an earlier one covers is never the first to apply.
pub covered_never_first :
    {S : Type 0} (rs : List (Route S)) (port : Option ℕ) (path : Text) (q : Route S) (i j : ℕ)
    (name : String)
    → is_shadow rs (i, j, name) ≡ true
    → explain_from 0 rs port path ≢ some (j, q)
unfolding is_shadow
covered_never_first rs port path q i j name h found =
    let (e, r, a, b, before, c) =
      covers_named_sound i j (codes name) (get_elem? rs i) (get_elem? rs j) h in
    ground (
      arith,
      applies-covers port path e r c (first_applies port path 0 j j rs r q b found (omega arith)),
      first_before port path 0 i j rs e q a,
    )

-- The routes in the table that routes of other services cover.
abbrev pub shadows : List Shadow
shadows =
    (49, 81, "env_disc_api_admin")
    ∷ (40, 91, "langflow_login")
    ∷ (7, 128, "phpmyadmin_index_php")
    ∷ (61, 253, "config_env_example")
    ∷ (120, 260, "config_xmlrpc_php")
    ∷ (66, 329, "config_admin_phpinfo")
    ∷ (67, 331, "config_admin_phpinfo_bak")
    ∷ (132, 359, "config_mysql_dir")
    ∷ (125, 370, "dbadmin_phpmyadmin")
    ∷ (135, 373, "dbadmin_db_slash")
    ∷ (135, 374, "dbadmin_env_encoded")
    ∷ (172, 384, "iot_admin")
    ∷ (40, 385, "iot_login")
    ∷ (8, 387, "iot_cgi_bin")
    ∷ (160, 391, "nginx_probe_1")
    ∷ (40, 394, "atlassian_login")
    ∷ (110, 404, "spring_2")
    ∷ (110, 405, "spring_prefix_2")
    ∷ (8, 414, "hnap_cgi")
    ∷ (8, 423, "squid_cgi_bin_prefix")
    ∷ (172, 424, "magento_admin")
    ∷ (7, 426, "magento_index_admin")
    ∷ (77, 432, "redis_admin_api_config")
    ∷ (110, 433, "redis_admin_api")
    ∷ (434, 440, "solr_admin_prefix")
    ∷ (230, 441, "plex_web")
    ∷ (40, 449, "jupyter_login")
    ∷ (110, 452, "jupyter_api_contents")
    ∷ (110, 453, "jupyter_api")
    ∷ (110, 456, "rabbitmq_api_overview")
    ∷ (110, 457, "rabbitmq_api_whoami")
    ∷ (110, 458, "rabbitmq_api_queues")
    ∷ (110, 459, "rabbitmq_api_exchanges")
    ∷ (110, 460, "rabbitmq_api_connections")
    ∷ (110, 461, "rabbitmq_api_aliveness")
    ∷ (110, 464, "rabbitmq_api")
    ∷ (110, 468, "gitlab_api_version")
    ∷ (172, 470, "gitlab_admin")
    ∷ (110, 471, "gitlab_api")
    ∷ (462, 476, "elasticsearch_root")
    ∷ (7, 509, "thinkphp_index_php")
    ∷ (7, 511, "thinkphp_index_php_prefix")
    ∷ (386, 550, "nginx_index")
    ∷ (390, 551, "nginx_status")
    ∷ (160, 552, "nginx_server_status")
    ∷ (110, 553, "nginx_api")
    ∷ (7, 557, "joomla_sppagebuilder")
    ∷ (7, 558, "joomla_index_php")
    ∷ (556, 565, "coldfusion_administrator")
    ∷ (556, 566, "coldfusion_administrator_slash")
    ∷ (110, 577, "fortinet_fortigate_api")
    ∷ (40, 590, "sharepoint_login")
    ∷ (110, 596, "splunk_api")
    ∷ []

all-get_elem? :
    {A : Type 0} (p : A → Bool) (l : List A) (n : ℕ) (x : A)
    → all p l ≡ true
    → get_elem? l n ≡ some x
    → p x ≡ true
all-get_elem? p [] n x h g = cc
all-get_elem? p (y ∷ l) zero x h g = let same : y ≡ x = cc in ground (arith, ap p same)
all-get_elem? p (y ∷ l) (suc n) x h g = ground (arith, all-get_elem? p l n x)

shadows_hold :
    {S : Type 0} (classes : HandlerName → HandlerClass S) (is_random_probe : Text → Bool)
    → all (is_shadow (routes classes is_random_probe)) shadows ≡ true
unfolding is_shadow covers unscoped covers_matcher routes entries face_routes lower starts_with
    text_eq
shadows_hold classes is_random_probe = refl

-- Each of these routes of the table is never the first that applies, on any port and any path.
pub never_first :
    {S : Type 0} (classes : HandlerName → HandlerClass S) (is_random_probe : Text → Bool)
    (n i j : ℕ) (name : String) (port : Option ℕ) (path : Text) (q : Route S)
    → get_elem? shadows n ≡ some (i, j, name)
    → explain_from 0 (routes classes is_random_probe) port path ≢ some (j, q)
never_first classes is_random_probe n i j name port path q g =
    covered_never_first (routes classes is_random_probe) port path q i j name (
      all-get_elem? (is_shadow (routes classes is_random_probe)) shadows n (i, j, name)
        (shadows_hold classes is_random_probe) g)
