-- ===== src/Server/Serving/Callers.antt =====
-- Which caller a new server knows.
use istio_csr.Base.{
  ◌≡◌, refl, subst, ◌↔◌, ◌⊎◌, inl, inr, Bool, true, false, some, List, [], ◌∷◌, ◌++◌, arith, ok,
  err, Result-cases, if◌then◌else◌,
}
use istio_csr.Base.Text.{Str}
use istio_csr.Server.Auth.{Caller, Authenticator, authenticate}
use istio_csr.Server.NodeAuth.{PodClient}
use istio_csr.Server.Serving.{Options, Istio, Server, new}

module _ {Context A : Type 0} (istio : Istio Context A) (trust_domain : Str) (opts : Options)
    (client : PodClient) where
  abbrev token : Authenticator Context A
  token = istio.new_kube_jwt_authenticator trust_domain client opts.cluster_id

  -- How a server came to know a caller: by its client certificate, where that is enabled, or by its
  -- token for the trust domain and the cluster, where it is not or gives nothing.
  pub data Knows (ctx : Context) (caller : Caller) : Type 0 where
    by_certificate :
        opts.authenticators.enable_client_cert ≡ true
        → istio.client_cert_authenticator ctx ≡ ok caller
        → Knows ctx caller
    by_token :
        (opts.authenticators.enable_client_cert ≡ false)
          ⊎ ((x : A) × (istio.client_cert_authenticator ctx ≡ err x))
        → token ctx ≡ ok caller
        → Knows ctx caller

  -- The authenticators of New.
  abbrev chosen : Bool → List (Authenticator Context A)
  chosen b = (if b then istio.client_cert_authenticator ∷ [] else []) ++ token ∷ []

  new-authenticators :
      (server : Server Context A)
      → istio.new_client opts.cluster_id ≡ some client
      → new istio trust_domain opts ≡ some server
      → chosen opts.authenticators.enable_client_cert ≡ server.authenticators
  unfolding new
  new-authenticators server c n = ground arith

  chosen_sound :
      (ctx : Context) (caller : Caller) (b : Bool)
      → opts.authenticators.enable_client_cert ≡ b
      → authenticate (chosen b) ctx ≡ some caller
      → Knows ctx caller
  unfolding authenticate
  chosen_sound ctx caller false off e = by_token (inl off) (ground arith)
  chosen_sound ctx caller true on e = elim (Result-cases (istio.client_cert_authenticator ctx)) [
    | inl (a, good) ↦ by_certificate on (ground arith)
    | inr (x, bad) ↦ by_token (inr (x, bad)) (ground arith)
  ]

  chosen_complete :
      (ctx : Context) (caller : Caller) (b : Bool)
      → opts.authenticators.enable_client_cert ≡ b
      → Knows ctx caller
      → authenticate (chosen b) ctx ≡ some caller
  unfolding authenticate
  chosen_complete ctx caller b eq (by_certificate on good) = ground arith
  chosen_complete ctx caller b eq (by_token (inl off) good) = ground arith
  chosen_complete ctx caller false eq (by_token (inr (x, bad)) good) = ground arith
  chosen_complete ctx caller true eq (by_token (inr (x, bad)) good) = ground arith

-- The authenticators of a new server give a caller exactly where its client certificate does and
-- these are enabled, or its token does for the trust domain of the mesh and the configured cluster,
-- and certificates are not enabled or give nothing.
pub new-authenticate_iff :
    {Context A : Type 0} (istio : Istio Context A) (trust_domain : Str) (opts : Options)
    (client : PodClient) (server : Server Context A) (ctx : Context) (caller : Caller)
    → istio.new_client opts.cluster_id ≡ some client
    → new istio trust_domain opts ≡ some server
    → (authenticate server.authenticators ctx ≡ some caller)
      ↔ Knows istio trust_domain opts client ctx caller
new-authenticate_iff istio trust_domain opts client server ctx caller c n =
    let enabled = opts.authenticators.enable_client_cert in
    subst
      (λ l. (authenticate l ctx ≡ some caller) ↔ Knows istio trust_domain opts client ctx caller)
      (new-authenticators istio trust_domain opts client server c n)
      (
        chosen_sound istio trust_domain opts client ctx caller enabled refl,
        chosen_complete istio trust_domain opts client ctx caller enabled refl,
      )
