-- ===== src/Router/Answers.antt =====
-- When `Router.dispatch` of manyfaced/handlers/router.py has a response, and how it is counted.
use manyfaced_honeypot.Base.{
  ℕ, suc, ◌+◌, true, Option, none, some, List, [], ◌∷◌, ◌++◌, ◌≡◌, refl, ◌∙◌, arith, Text, Dict,
  lookup, insert, text_key, nat_eq, is_some, Bool-cases, inl, inr,
}
use manyfaced_honeypot.Metrics.{incr, incr_response, value_or}
use manyfaced_honeypot.Router.{
  any_path, match, Request, Response, HandlerClass, Route, RouterState, in_scope, applies,
  instance_of, settle, or_next, call_handler, dispatch_from, dispatch, decode_path,
}

-- A route that takes every path on every port and whose handler never raises.
pub record IsCatchAll {S : Type 0} (r : Route S) : Type 0 where
  pub matcher : r.matcher ≡ any_path
  pub ports : r.ports ≡ none
  pub answers : (req : Request) (s : S) → is_some (r.handler.generate_response req s).1 ≡ true

settle-is_some :
    {S : Type 0} (idx : ℕ) (h : HandlerClass S) (req : Request) (out : S × Option Response)
    (st : RouterState S)
    → is_some (settle idx h req out st).1 ≡ is_some out.1
unfolding settle
settle-is_some idx h req (s, none) st = refl
settle-is_some idx h req (s, some res) st = refl

or_next-first :
    {S : Type 0} (out : RouterState S × Option Response)
    (next : RouterState S → RouterState S × Option Response)
    → is_some out.1 ≡ true
    → is_some (or_next out next).1 ≡ true
or_next-first (st, some res) next h = refl
or_next-first (st, none) next h = cc

or_next-is_some :
    {S : Type 0} (out : RouterState S × Option Response)
    (next : RouterState S → RouterState S × Option Response)
    → ((st : RouterState S) → is_some (next st).1 ≡ true)
    → is_some (or_next out next).1 ≡ true
or_next-is_some (st, some res) next h = refl
or_next-is_some (st, none) next h = h st

module _ {S : Type 0} (req : Request) (port : Option ℕ) where
  catch_all-applies : (r : Route S) → IsCatchAll r → applies r port req.path ≡ true
  unfolding in_scope match
  catch_all-applies r c = rw (c.ports, c.matcher)

  dispatch_from-catch_all :
      (idx : ℕ) (before after : List (Route S)) (r : Route S) (st : RouterState S)
      → IsCatchAll r
      → is_some (dispatch_from idx (before ++ r ∷ after) req port st).1 ≡ true
  unfolding dispatch_from call_handler
  dispatch_from-catch_all idx [] after r st c = rw (catch_all-applies r c) (
      or_next-first (call_handler idx r.handler req st) _ (
        settle-is_some idx r.handler req _ st
        ∙ c.answers req (instance_of r.handler (lookup idx st.instances))))
  dispatch_from-catch_all idx (q ∷ before) after r st c =
      let later = λ (st : RouterState S). dispatch_from-catch_all (suc idx) before after r st c in
      elim (Bool-cases (applies q port req.path)) [
        | inl chosen ↦ rw chosen (or_next-is_some (call_handler idx q.handler req st) _ later)
        | inr other ↦ rw other (later st)
      ]

-- A table with a catch-all route whose handler never raises answers every request, whatever the
-- handlers above it do: the `None` of dispatch is never returned.
pub dispatch-catch_all :
    {S : Type 0} (before after : List (Route S)) (r : Route S) (req : Request) (port : Option ℕ)
    (st : RouterState S)
    → IsCatchAll r
    → is_some (dispatch (before ++ r ∷ after) req port st).1 ≡ true
unfolding dispatch
dispatch-catch_all before after r req port st c =
    dispatch_from-catch_all (record req { path = decode_path req.path }) port 0 before after r st c

-- All responses that are counted.
abbrev pub responses_total : Dict Text ℕ → ℕ
responses_total [] = 0
responses_total ((k, n) ∷ d) = n + responses_total d

abbrev pub answered : Option Response → ℕ
answered none = 0
answered (some _) = 1

responses_total-insert :
    (k : Text) (d : Dict Text ℕ)
    → responses_total (insert k (value_or 0 (lookup k d) + 1) d) ≡ responses_total d + 1
unfolding insert lookup
responses_total-insert k [] = refl
responses_total-insert k ((j, n) ∷ d) = ground (arith, responses_total-insert k d)

call_handler_total :
    {S : Type 0} (idx : ℕ) (h : HandlerClass S) (req : Request) (st : RouterState S)
    → responses_total (call_handler idx h req st).0.metrics.responses
      ≡ responses_total st.metrics.responses + answered (call_handler idx h req st).1
unfolding call_handler
call_handler_total {S} idx h req st =
    go (h.generate_response req (instance_of h (lookup idx st.instances)))
  where
    go :
        (out : S × Option Response)
        → responses_total (settle idx h req out st).0.metrics.responses
          ≡ responses_total st.metrics.responses + answered (settle idx h req out st).1
    go (s, none) = unfold settle incr in omega arith
    go (s, some res) =
        unfold settle incr_response in responses_total-insert h.domain st.metrics.responses

or_next_total :
    {S : Type 0} (n : ℕ) (out : RouterState S × Option Response)
    (next : RouterState S → RouterState S × Option Response)
    → responses_total out.0.metrics.responses ≡ n + answered out.1
    → ((st : RouterState S)
        → responses_total (next st).0.metrics.responses
          ≡ responses_total st.metrics.responses + answered (next st).1)
    → responses_total (or_next out next).0.metrics.responses ≡ n + answered (or_next out next).1
or_next_total n (st, some res) next h later = h
or_next_total n (st, none) next h later = omega (arith, later st)

dispatch_from_total :
    {S : Type 0} (idx : ℕ) (rs : List (Route S)) (req : Request) (port : Option ℕ)
    (st : RouterState S)
    → responses_total (dispatch_from idx rs req port st).0.metrics.responses
      ≡ responses_total st.metrics.responses + answered (dispatch_from idx rs req port st).1
unfolding dispatch_from
dispatch_from_total idx [] req port st = omega arith
dispatch_from_total idx (q ∷ rs) req port st = elim (Bool-cases (applies q port req.path)) [
  | inl chosen ↦ rw chosen (
      or_next_total _ (call_handler idx q.handler req st) _
        (call_handler_total idx q.handler req st) (dispatch_from_total (suc idx) rs req port))
  | inr other ↦ rw other (dispatch_from_total (suc idx) rs req port st)
]

-- A dispatch counts one response if it answers and none if it does not, however many handlers
-- raised on the way.
pub dispatch_total :
    {S : Type 0} (routes : List (Route S)) (req : Request) (port : Option ℕ) (st : RouterState S)
    → responses_total (dispatch routes req port st).0.metrics.responses
      ≡ responses_total st.metrics.responses + answered (dispatch routes req port st).1
unfolding dispatch
dispatch_total routes req port st =
    dispatch_from_total 0 routes (record req { path = decode_path req.path }) port st
