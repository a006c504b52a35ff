-- ===== src/Router/Dispatch.antt =====
-- What `Router.dispatch` of manyfaced/handlers/router.py answers, and what it leaves alone.
use manyfaced_honeypot.Base.{
  ℕ, zero, suc, ◌+◌, ◌<◌, true, false, Option, none, some, List, [], ◌∷◌, ◌≡◌, ◌≢◌, refl, subst,
  any, ◌∙◌, arith, Text, lookup, lookup-insert, nat_eq, text_key, get_elem?, is_some, Bool-cases,
  inl, inr, ◌==◌,
}
use manyfaced_honeypot.Router.{
  Request, Response, HandlerClass, Route, RouterState, in_scope, applies, instance_of, settle,
  or_next, call_handler, dispatch_from, dispatch, explain_from, decode_path,
}

or_next_answers :
    {S : Type 0} (out : RouterState S × Option Response)
    (next : RouterState S → RouterState S × Option Response)
    → is_some out.1 ≡ true
    → or_next out next ≡ out
or_next_answers (st, some res) next h = refl
or_next_answers (st, none) next h = cc

or_next_keeps :
    {S : Type 0} (P : RouterState S → Type 0) (out : RouterState S × Option Response)
    (next : RouterState S → RouterState S × Option Response)
    → P out.0
    → ((st : RouterState S) → P st → P (next st).0)
    → P (or_next out next).0
or_next_keeps P (st, some res) next h later = h
or_next_keeps P (st, none) next h later = later st h

lookup-call_handler :
    {S : Type 0} (j idx : ℕ) (h : HandlerClass S) (req : Request) (st : RouterState S)
    → j ≢ idx
    → lookup j (call_handler idx h req st).0.instances ≡ lookup j st.instances
unfolding call_handler
lookup-call_handler {S} j idx h req st other =
    go (h.generate_response req (instance_of h (lookup idx st.instances)))
  where
    go :
        (out : S × Option Response)
        → lookup j (settle idx h req out st).0.instances ≡ lookup j st.instances
    go (s, none) = unfold settle in ground (arith, lookup-insert idx j s st.instances)
    go (s, some res) =
        unfold settle in
        ground (arith, lookup-insert idx j (h.record_interaction req res s) st.instances)

module _ {S : Type 0} (req : Request) (port : Option ℕ) where
  dispatch_from-explain :
      (idx i : ℕ) (rs : List (Route S)) (r : Route S) (st : RouterState S)
      → explain_from idx rs port req.path ≡ some (i, r)
      → is_some (call_handler i r.handler req st).1 ≡ true
      → dispatch_from idx rs req port st ≡ call_handler i r.handler req st
  unfolding dispatch_from explain_from
  dispatch_from-explain idx i [] r st e h = cc
  dispatch_from-explain idx i (q ∷ rs) r st e h = elim (Bool-cases (applies q port req.path)) [
    | inl chosen ↦
        let same : (idx ≡ i) × (q ≡ r) = ground arith in
        rw (chosen, same.0, same.1) (or_next_answers (call_handler i r.handler req st) _ h)
    | inr other ↦ rw other (dispatch_from-explain (suc idx) i rs r st (rw other at e) h)
  ]

  -- What every call of a route that applies keeps, the whole loop keeps.
  dispatch_from_inv :
      (P : RouterState S → Type 0) (idx : ℕ) (rs : List (Route S)) (st : RouterState S)
      → ((k : ℕ) (r : Route S) (st : RouterState S)
          → get_elem? rs k ≡ some r
          → applies r port req.path ≡ true
          → P st
          → P (call_handler (idx + k) r.handler req st).0)
      → P st
      → P (dispatch_from idx rs req port st).0
  unfolding dispatch_from
  dispatch_from_inv P idx [] st keep h = h
  dispatch_from_inv P idx (q ∷ rs) st keep h =
      let later : (st : RouterState S) → P st → P (dispatch_from (suc idx) rs req port st).0 = λ st.
        dispatch_from_inv P (suc idx) rs st (λ k r st e chosen p.
          subst (λ n. P (call_handler n r.handler req st).0) (omega arith)
            (keep (suc k) r st e chosen p)) in
      elim (Bool-cases (applies q port req.path)) [
        | inl chosen ↦ rw chosen (
            or_next_keeps P (call_handler idx q.handler req st) _
              (subst (λ n. P (call_handler n q.handler req st).0) (omega arith)
                (keep zero q st refl chosen h))
              later)
        | inr other ↦ rw other (later st h)
      ]

-- `explain` names the route whose handler answers: if the handler of the first route that applies
-- does not raise, the request is answered by it, and no other handler is called.
pub dispatch-explain :
    {S : Type 0} (routes : List (Route S)) (req : Request) (port : Option ℕ) (st : RouterState S)
    (i : ℕ) (r : Route S)
    → explain_from 0 routes port (decode_path req.path) ≡ some (i, r)
    → is_some (call_handler i r.handler (record req { path = decode_path req.path }) st).1 ≡ true
    → dispatch routes req port st
      ≡ call_handler i r.handler (record req { path = decode_path req.path }) st
unfolding dispatch
dispatch-explain routes req port st i r e h =
    dispatch_from-explain (record req { path = decode_path req.path }) port 0 i routes r st e h

owner_ports :
    {S : Type 0} (routes : List (Route S)) (j k : ℕ) (r q : Route S) (ports : List ℕ)
    → get_elem? routes j ≡ some r
    → r.ports ≡ some ports
    → get_elem? routes k ≡ some q
    → j ≡ k
    → q.ports ≡ some ports
owner_ports routes j k r q ports here scope there same =
    let again : get_elem? routes j ≡ some q = rw same there in
    let equal : r ≡ q = ground arith in rw (← equal) scope

out_of_scope :
    {S : Type 0} (q : Route S) (p : ℕ) (ports : List ℕ) (path : Text)
    → q.ports ≡ some ports
    → any (λ n. p == n) ports ≡ false
    → 0 < p
    → applies q (some p) path ≡ true
    → ⊥
unfolding in_scope
out_of_scope q p ports path scope outside positive chosen = ground arith

-- A route that is scoped to ports is never called for a request on another known port: its handler
-- instance is the same after the dispatch, whatever the path and the other routes.
pub dispatch_other_port :
    {S : Type 0} (routes : List (Route S)) (req : Request) (st : RouterState S) (j p : ℕ)
    (r : Route S) (ports : List ℕ)
    → get_elem? routes j ≡ some r
    → r.ports ≡ some ports
    → any (λ q. p == q) ports ≡ false
    → 0 < p
    → lookup j (dispatch routes req (some p) st).0.instances ≡ lookup j st.instances
unfolding dispatch
dispatch_other_port routes req st j p r ports here scope outside positive =
    dispatch_from_inv (record req { path = decode_path req.path }) (some p)
      (λ st'. lookup j st'.instances ≡ lookup j st.instances) 0 routes st
      (λ k q st' e chosen same.
        lookup-call_handler j (0 + k) q.handler _ st' (λ at_j.
          out_of_scope q p ports _ (owner_ports routes j k r q ports here scope e (omega arith))
            outside positive chosen)
        ∙ same)
      refl
