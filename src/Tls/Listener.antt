-- ===== src/Tls/Listener.antt =====
-- What the provider's Config gives to a listener.
use istio_csr.Base.{◌≤◌, ◌≡◌, inl, inr, true, List, [], ◌∷◌, arith, Option-cases}
use istio_csr.Tls.{
  Libraries, Config, require_and_verify_client_cert, version_tls12, apply_tls_security_settings,
  outer_config, Turn, seen, context_done, ready, config,
}

-- What Config gives to a listener asks every client for a certificate and verifies it, takes TLS
-- 1.2 at least, and gets the configuration of each connection from the provider; it is given only
-- once the provider has one.
pub config-ready :
    (lib : Libraries) (turns : List (Turn lib)) (c : Config lib)
    → config lib turns ≡ ready c
    → (c.client_auth ≡ require_and_verify_client_cert)
      × (version_tls12 ≤ c.min_version)
      × (c.for_client ≡ true)
unfolding config outer_config apply_tls_security_settings
config-ready lib [] c e = cc
config-ready lib (context_done ∷ turns) c e = cc
config-ready lib (seen p ∷ turns) c e = elim (Option-cases p.tls_config) [
  | inl waiting ↦ config-ready lib turns c (ground arith)
  | inr (inner, there) ↦ (ground arith, ground arith, ground arith)
]
