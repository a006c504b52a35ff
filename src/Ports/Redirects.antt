-- ===== src/Ports/Redirects.antt =====
-- The maps of manyfaced/common/ports.py between external and bound ports are inverse to each other.
use manyfaced_honeypot.Base.{
  ℕ, zero, suc, ◌<◌, true, some, ◌≡◌, ◌↔◌, ◌⊎◌, arith, lookup, any, ◌==◌, nat_eq, Option-cases,
}
use manyfaced_honeypot.Ports.{
  external_port, internal_ports, privileged_port_redirects, high_to_priv,
}

-- The two tables hold the same pairs.
inverse_high :
    (external n : ℕ)
    → lookup external privileged_port_redirects ≡ some n
    → lookup n high_to_priv ≡ some external
unfolding high_to_priv lookup
inverse_high external n h = ground arith

inverse_priv :
    (external n : ℕ)
    → lookup n high_to_priv ≡ some external
    → lookup external privileged_port_redirects ≡ some n
unfolding high_to_priv lookup
inverse_priv external n h = ground arith

-- A click on an external port selects exactly the bound ports that are shown as it, and the port
-- itself, which is shown as itself unless it is the target of a redirect.
pub internal_ports_iff :
    (external port : ℕ)
    → 0 < port
    → (any (λ p. port == p) (internal_ports external) ≡ true)
      ↔ ((port ≡ external) ⊎ (external_port (some port) ≡ external))
unfolding external_port internal_ports
internal_ports_iff external zero h = absurd (omega arith)
internal_ports_iff external (suc n) h = grind (
  arith,
  inverse_high external,
  inverse_priv external (suc n),
  Option-cases (lookup external privileged_port_redirects),
  Option-cases (lookup (suc n) high_to_priv),
)
