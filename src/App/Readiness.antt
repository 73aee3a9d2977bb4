-- ===== src/App/Readiness.antt =====
-- What the readiness probe of the whole program says of its components.
use istio_csr.Base.{
  ◌≡◌, subst, ◌↔◌, ◌⊎◌, inl, inr, true, none, some, List, [], ◌∷◌, arith, ok, Subsequence,
  Option-cases,
}
use istio_csr.Certmanager.{Manager, has_issuer_config}
use istio_csr.Tls
use istio_csr.Tls.Fetch
use istio_csr.Tls.Secure.{IsSecure, IsServing, run-new_provider-Inv}
use istio_csr.Server.Serving
use istio_csr.Server.Serving.Readiness.{run-check}
use istio_csr.App.{readyz}

-- The program is ready exactly where there is no issuer yet, or the TLS provider serves and the
-- gRPC server is ready.
pub readyz_iff :
    {lib : Tls.Libraries} (m : Manager) (p : Tls.Provider lib) (s : Serving.Running)
    → (readyz m p s ≡ true) ↔ (
        (m.active_issuer_ref ≡ none)
        ⊎ (((c : Tls.Config lib) × (p.tls_config ≡ some c)) × (s.ready ≡ true)))
unfolding readyz has_issuer_config Tls.check
readyz_iff m p s = elim (Option-cases m.active_issuer_ref) [
  | inl nothing ↦ (λ e. inl nothing, λ h. ground (arith, nothing))
  | inr (r, issuer) ↦ elim (Option-cases p.tls_config) [
    | inl missing ↦ (λ e. absurd (ground arith), λ h. ground arith)
    | inr (c, there) ↦ (λ e. inr ((c, there), ground arith), λ h. ground arith)
  ]
]

-- A program whose probe succeeds while it has an issuer serves a configuration that is secure for
-- its trust domain, and its server has listened with one.
pub record IsUp (lib : Tls.Libraries) (opts : Tls.Options) (p : Tls.Provider lib)
    (es : List Serving.Event) : Type 0 where
  pub config : Tls.Config lib
  pub served : p.tls_config ≡ some config
  pub secure : IsSecure lib opts.trust_domain config
  pub listened :
      Subsequence
        (Serving.configured true
          ∷ Serving.registered true
          ∷ Serving.listened true
          ∷ Serving.marked
          ∷ [])
        es

-- Whatever the components have met since they were built: where the probe succeeds and there is an
-- issuer, the TLS provider serves a secure configuration, and the server got its configuration,
-- listened on its address and set ready, in this order.
pub readyz-IsUp :
    (lib : Tls.Libraries) {E : Type 0} (opts : Tls.Options) (p : Tls.Provider lib) (m : Manager)
    (events : List (Fetch.Event lib E)) (es : List Serving.Event)
    → Tls.new_provider lib opts ≡ ok p
    → has_issuer_config m ≡ true
    → readyz m (Fetch.run lib p events) (Serving.run Serving.fresh es) ≡ true
    → IsUp lib opts (Fetch.run lib p events) es
unfolding has_issuer_config
readyz-IsUp lib opts p m events es new issuer e =
    elim ((readyz_iff m (Fetch.run lib p events) (Serving.run Serving.fresh es)).0 e) [
      | inl nothing ↦ absurd (ground arith)
      | inr ((c, served), ready) ↦ record {
        config = c;
        served = served;
        secure =
            subst (IsServing lib opts.trust_domain) served
              (run-new_provider-Inv lib opts p events new).serving;
        listened = run-check es ready;
      }
    ]
