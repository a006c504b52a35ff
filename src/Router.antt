-- ===== src/Router.antt =====
-- manyfaced/handlers/router.py. A handler class is a parameter of the table: what it does to its
-- own state and what it answers, or that it raises.
pub mod Dispatch
pub mod Answers
use manyfaced_honeypot.Base.{
  ℕ, zero, suc, ◌+◌, Bool, true, false, not, ◌&&◌, ◌||◌, Option, none, some, List, [], ◌∷◌, ◌++◌,
  if◌then◌else◌, ◌==◌, any, Text, codes, text_eq, starts_with, lower, split_once, unquote, show_nat,
  Dict, lookup, insert, nat_eq,
}
use manyfaced_honeypot.Metrics.{Metrics, incr, incr_response}

-- `Matcher` and its subclasses. `high_entropy` is the one of manyfaced/handlers/fingerprint.py,
-- with its test.
pub data Matcher : Type 0 where
  path_prefix path_exact : Text → Matcher
  any_path : Matcher
  high_entropy : (Text → Bool) → Matcher

-- `Matcher.match`; the constructors of the classes lower their argument.
unfoldable pub match : Matcher → Text → Bool
match (path_prefix prefix) path = starts_with (lower prefix) (lower path)
match (path_exact exact) path = text_eq (lower path) (lower exact)
match any_path path = true
match (high_entropy test) path = test path

-- `_decode_path`
unfoldable pub decode_path : Text → Text
decode_path path = elim (split_once (codes "?") path) [
  | none ↦ unquote path
  | some (clean, _) ↦ unquote clean
]

pub record Request : Type 0 where
  pub path : Text
  pub raw_request : Text
  pub bot_ip : Text
  pub headers : List (Text × Text)

-- The bytes of a response and its detected flag.
abbrev pub Response : Type 0
Response = Text × ℕ

-- A handler class with instances of type `S`. A call returns the instance as it leaves it, also
-- where it raises, which is `none`.
pub record HandlerClass (S : Type 0) : Type 0 where
  pub domain : Text
  pub fresh : S
  pub generate_response : Request → S → S × Option Response
  pub record_interaction : Request → Response → S → S

pub record Route (S : Type 0) : Type 0 where
  pub matcher : Matcher
  pub handler : HandlerClass S
  pub detected_id : ℕ
  pub name : Text
  pub ports : Option (List ℕ)

-- A route with ports serves requests on those ports, and requests on an unknown port or port 0.
unfoldable pub in_scope : Option (List ℕ) → Option ℕ → Bool
in_scope none port = true
in_scope (some ports) none = true
in_scope (some ports) (some port) = port == 0 || any (λ p. port == p) ports

-- `Router`, with the module's metrics.
pub record RouterState (S : Type 0) : Type 0 where
  pub instances : Dict ℕ S
  pub metrics : Metrics

abbrev pub applies : {S : Type 0} → Route S → Option ℕ → Text → Bool
applies r port decoded = in_scope r.ports port && match r.matcher decoded

module _ {S : Type 0} where
  -- the instance that `_handler_instances` holds for a route, or a new one
  abbrev pub instance_of : HandlerClass S → Option S → S
  instance_of h none = h.fresh
  instance_of h (some s) = s

  -- What is left after the call of a matched handler: a response with the interaction recorded and
  -- the response counted, or the exception counted.
  unfoldable pub settle :
      ℕ
      → HandlerClass S
      → Request
      → S × Option Response
      → RouterState S
      → RouterState S × Option Response
  settle idx h req (s, none) st = (
    record st {
      instances = insert idx s st.instances;
      metrics = incr (codes "handler_exception") 1 st.metrics;
    },
    none,
  )
  settle idx h req (s, some res) st = (
    record st {
      instances = insert idx (h.record_interaction req res s) st.instances;
      metrics = incr_response h.domain st.metrics;
    },
    some res,
  )

  unfoldable pub call_handler :
      ℕ → HandlerClass S → Request → RouterState S → RouterState S × Option Response
  call_handler idx h req st =
      settle idx h req (h.generate_response req (instance_of h (lookup idx st.instances))) st

  -- A response ends the loop; where the handler raised, the next routes are tried.
  abbrev pub or_next :
      RouterState S × Option Response
      → (RouterState S → RouterState S × Option Response)
      → RouterState S × Option Response
  or_next (st, some res) next = (st, some res)
  or_next (st, none) next = next st

  -- The loop of `dispatch` from route `idx` on.
  unfoldable pub dispatch_from :
      ℕ → List (Route S) → Request → Option ℕ → RouterState S → RouterState S × Option Response
  dispatch_from idx [] req port st = (st, none)
  dispatch_from idx (r ∷ rs) req port st =
      let next = dispatch_from (suc idx) rs req port in
      let skipped = next st in
      if applies r port req.path then or_next (call_handler idx r.handler req st) next else skipped

  -- `Router.dispatch`; the handlers are given the decoded path.
  unfoldable pub dispatch :
      List (Route S) → Request → Option ℕ → RouterState S → RouterState S × Option Response
  dispatch routes req port st =
      dispatch_from 0 routes (record req { path = decode_path req.path }) port st

  -- `clear_handler_instances`
  unfoldable pub clear_handler_instances : RouterState S → RouterState S
  clear_handler_instances st = record st { instances = [] }

  -- The loop of `explain`: the first route that applies.
  unfoldable pub explain_from : ℕ → List (Route S) → Option ℕ → Text → Option (ℕ × Route S)
  explain_from idx [] port decoded = none
  explain_from idx (r ∷ rs) port decoded =
      if applies r port decoded then some (idx, r) else explain_from (suc idx) rs port decoded

  unfoldable pub explain : List (Route S) → Text → Option ℕ → Text
  unfolding explain_from
  explain routes path port = elim (explain_from 0 routes port (decode_path path)) [
    | none ↦ codes "no match"
    | some (idx, r) ↦
        codes "matched route " ++ (show_nat idx ++ (codes " (" ++ (r.name ++ codes ")")))
  ]
