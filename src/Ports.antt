-- ===== src/Ports.antt =====
-- manyfaced/common/ports.py: the redirect tables and the maps between external and bound ports.
pub mod Redirects
use manyfaced_honeypot.Base.{
  ℕ, zero, suc, Bool, true, false, Option, none, some, List, [], ◌∷◌, map, if◌then◌else◌, Dict,
  lookup, insert, nat_eq, has_key,
}

-- `PRIVILEGED_PORT_REDIRECTS`
abbrev pub privileged_port_redirects : Dict ℕ ℕ
privileged_port_redirects =
    (80, 8080)
    ∷ (443, 8443)
    ∷ (21, 10021)
    ∷ (22, 10022)
    ∷ (23, 10023)
    ∷ (25, 10025)
    ∷ (53, 10053)
    ∷ (110, 10110)
    ∷ (135, 10135)
    ∷ (139, 10139)
    ∷ (143, 10143)
    ∷ (445, 10445)
    ∷ (993, 10993)
    ∷ (995, 10995)
    ∷ []

-- `UDP_PRIVILEGED_PORT_REDIRECTS`
abbrev pub udp_privileged_port_redirects : Dict ℕ ℕ
udp_privileged_port_redirects =
    (161, 10161)
    ∷ (53, 10053)
    ∷ (123, 10123)
    ∷ (69, 10069)
    ∷ (500, 10500)
    ∷ (514, 10514)
    ∷ (1812, 11812)
    ∷ (1813, 11813)
    ∷ (1900, 11900)
    ∷ (5353, 15353)
    ∷ (3478, 13478)
    ∷ (4500, 14500)
    ∷ []

-- `{high: priv for priv, high in table.items()}`
unfoldable pub invert_from : Dict ℕ ℕ → Dict ℕ ℕ → Dict ℕ ℕ
unfolding insert
invert_from acc [] = acc
invert_from acc ((priv, high) ∷ table) = invert_from (insert high priv acc) table

-- `HIGH_TO_PRIV` and `UDP_HIGH_TO_PRIV`
unfoldable pub high_to_priv : Dict ℕ ℕ
unfolding invert_from
high_to_priv = invert_from [] privileged_port_redirects

unfoldable pub udp_high_to_priv : Dict ℕ ℕ
unfolding invert_from
udp_high_to_priv = invert_from [] udp_privileged_port_redirects

abbrev or_same : ℕ → Option ℕ → ℕ
or_same port none = port
or_same port (some priv) = priv

-- `external_port` and `external_udp_port`, over the inverse table
unfoldable pub external_in : Dict ℕ ℕ → Option ℕ → ℕ
external_in table none = 0
external_in table (some zero) = 0
external_in table (some (suc n)) = or_same (suc n) (lookup (suc n) table)

unfoldable pub external_port : Option ℕ → ℕ
unfolding external_in
external_port = external_in high_to_priv

unfoldable pub external_udp_port : Option ℕ → ℕ
unfolding external_in udp_high_to_priv
external_udp_port = external_in udp_high_to_priv

-- `is_redirected` and `is_udp_redirected`
unfoldable pub redirected_in : Dict ℕ ℕ → Option ℕ → Bool
redirected_in table none = false
redirected_in table (some zero) = false
redirected_in table (some (suc n)) = has_key (suc n) table

unfoldable pub is_redirected : Option ℕ → Bool
unfolding redirected_in high_to_priv
is_redirected = redirected_in high_to_priv

unfoldable pub is_udp_redirected : Option ℕ → Bool
unfolding redirected_in udp_high_to_priv
is_udp_redirected = redirected_in udp_high_to_priv

-- `internal_ports`
unfoldable pub internal_ports : ℕ → List ℕ
internal_ports external = elim (lookup external privileged_port_redirects) [
  | some (suc high) ↦ external ∷ suc high ∷ []
  | _ ↦ external ∷ []
]
