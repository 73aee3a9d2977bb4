-- ===== src/App/Answered.antt =====
-- cmd/app/app.go: the certificate service as it is wired, with the manager as its signer and the
-- TLS provider for its roots.
use mathlib.Core.List.{Memᴰ}
use istio_csr.Base.{
  ◌≡◌, ◌≢◌, refl, subst, inl, inr, true, Option, none, some, List, [], ◌∷◌, arith, Result, ok,
  Bool-cases, Option-cases,
}
use istio_csr.Base.Int64.{◌≤ℤ◌}
use istio_csr.Base.Text.{Str}
use istio_csr.Certmanager.{Manager, Bundle, usage_client_auth, usage_server_auth}
use istio_csr.Certmanager.Request.{Api, SignError, sign}
use istio_csr.Certmanager.Request.Effects.{IsIssued, sign-IsIssued}
use istio_csr.Rootca.{RootCas}
use istio_csr.Tls
use istio_csr.Server.Auth
use istio_csr.Server.Auth.{Caller}
use istio_csr.Server.Auth.Authorized.{IsAuthorized}
use istio_csr.Server.Auth.Callers.{authenticate_complete}
use istio_csr.Server.NodeAuth.{PodClient}
use istio_csr.Server.Certificate.{
  IstioCertificateRequest, Pki, Status, SignCall, Signer, requested_duration, create_certificate,
}
use istio_csr.Server.Certificate.Chain.{IsChain}
use istio_csr.Server.Certificate.Duration.{requested_duration-le}
use istio_csr.Server.Certificate.Served.{IsServed, create_certificate_iff}
use istio_csr.Server.Serving
use istio_csr.Server.Serving.Callers.{Knows, new-authenticate_iff}
use istio_csr.Options
use istio_csr.App.{Environment, App, build}
use istio_csr.App.Built.{build_iff}

-- The manager as certmanager.Signer.
abbrev pub manager_signer : Api → Manager → Signer SignError
manager_signer api m call = (sign api m call.identities call.csr call.duration call.usages).0

module _ {lib : Options.Libraries} {Context A : Type 0} (env : Environment lib Context A)
    (auth : Auth.Libraries) (pki : Pki env.tls.pools.Pool) (api : Api) where
  -- CreateCertificate of the app's server: `m` is the manager of that moment, `turns` what the wait
  -- for the roots finds, and `ctx_err` the error of the request's context.
  abbrev pub answer :
      App env
      → Manager
      → List (Tls.Turn env.tls)
      → Context
      → Option Str
      → IstioCertificateRequest
      → Result Status (List Str) × List SignCall
  answer app m turns ctx ctx_err icr =
      create_certificate auth pki app.server.node_authorizer
        app.server.opts.maximum_client_certificate_duration app.server.authenticators
        (manager_signer api m) ctx (Tls.pointer env.tls (Tls.root_cas env.tls turns)) ctx_err icr

  -- What stands behind a chain that the server answers with.
  pub record IsAnswered (app : App env) (m : Manager) (turns : List (Tls.Turn env.tls))
      (ctx : Context) (icr : IstioCertificateRequest) (chain : List Str) : Type 0 where
    pub client : PodClient
    pub connected : env.istio.new_client app.opts.server.cluster_id ≡ some client
    pub identities : Str
    pub authorized :
        IsAuthorized auth app.server.node_authorizer app.server.authenticators ctx icr.request
          identities
    pub known :
        Knows env.istio app.opts.tls.trust_domain app.opts.server client ctx authorized.caller
    pub bundle : Bundle
    pub issued :
        IsIssued api m identities icr.csr
          (requested_duration icr.validity_duration
            app.opts.server.maximum_client_certificate_duration)
          (usage_client_auth ∷ usage_server_auth ∷ [])
          bundle
    pub in_time :
        requested_duration icr.validity_duration app.opts.server.maximum_client_certificate_duration
        ≤ℤ app.opts.server.maximum_client_certificate_duration
    pub provider : Tls.Provider env.tls
    pub seen : Memᴰ (Tls.seen provider) turns
    pub filled : provider.root_cas.pem ≢ []
    pub pooled : (pool : env.tls.pools.Pool) × (provider.root_cas.cert_pool ≡ some pool)
    pub chained : IsChain pki (some provider.root_cas) bundle chain

  has_roots_sound :
      (p : Tls.Provider env.tls)
      → Tls.has_roots env.tls p ≡ true
      → (p.root_cas.pem ≢ []) × ((pool : env.tls.pools.Pool) × (p.root_cas.cert_pool ≡ some pool))
  has_roots_sound p e = elim (Option-cases p.root_cas.cert_pool) [
    | inl missing ↦ absurd (ground (arith, missing))
    | inr (pool, there) ↦ (λ empty. ground (arith, there, empty), (pool, there))
  ]

  -- The roots that are given are those of a provider that was found with some.
  roots_seen :
      (turns : List (Tls.Turn env.tls)) (roots : RootCas env.tls.pools.Pool)
      → Tls.pointer env.tls (Tls.root_cas env.tls turns) ≡ some roots
      → (p : Tls.Provider env.tls) × Memᴰ (Tls.seen p) turns
        × (Tls.has_roots env.tls p ≡ true)
        × (Tls.root_cas env.tls turns ≡ Tls.ready p.root_cas)
  unfolding Tls.root_cas
  roots_seen [] roots e = cc
  roots_seen (Tls.context_done ∷ turns) roots e = cc
  roots_seen (Tls.seen p ∷ turns) roots e = elim (Bool-cases (Tls.has_roots env.tls p)) [
    | inl there ↦ (p, Memᴰ.head refl, there, ground (arith, there))
    | inr missing ↦
        let (q, m, there, same) = roots_seen turns roots (ground (arith, missing)) in
        (q, Memᴰ.tail m, there, ground (arith, missing))
  ]

  server-opts :
      (trust_domain : Str) (opts : Serving.Options) (server : Serving.Server Context A)
      → Serving.new env.istio trust_domain opts ≡ some server
      → (client : PodClient) × (env.istio.new_client opts.cluster_id ≡ some client)
        × (server.opts ≡ opts)
  unfolding Serving.new
  server-opts trust_domain opts server e =
      elim (Option-cases (env.istio.new_client opts.cluster_id)) [
        | inl bad ↦ ground arith
        | inr (client, good) ↦ (client, good, ground arith)
      ]

  served-IsAnswered :
      (app : App env) (m : Manager) (turns : List (Tls.Turn env.tls)) (ctx : Context)
      (ctx_err : Option Str) (icr : IstioCertificateRequest) (chain : List Str)
      → Serving.new env.istio app.opts.tls.trust_domain app.opts.server ≡ some app.server
      → IsServed auth pki app.server.node_authorizer
          app.server.opts.maximum_client_certificate_duration app.server.authenticators
          (manager_signer api m)
          ctx
          (Tls.pointer env.tls (Tls.root_cas env.tls turns))
          ctx_err
          icr
          chain
      → IsAnswered app m turns ctx icr chain
  served-IsAnswered app m turns ctx ctx_err icr chain new s =
      let (client, connected, same) =
        server-opts app.opts.tls.trust_domain app.opts.server app.server new in
      let (p, found, there, ready) = roots_seen turns s.issued.roots s.issued.given in
      let (filled, pooled) = has_roots_sound p there in
      let duration = λ (o : Serving.Options).
        requested_duration icr.validity_duration o.maximum_client_certificate_duration in
      record {
        client = client;
        connected = connected;
        identities = s.identities;
        authorized = s.granted;
        known =
            (new-authenticate_iff env.istio app.opts.tls.trust_domain app.opts.server client
                app.server ctx s.granted.caller connected new).0
              (authenticate_complete s.granted.authenticated);
        bundle = s.bundle;
        issued =
            subst
              (λ (o : Serving.Options).
                IsIssued api m s.identities icr.csr (duration o)
                  (usage_client_auth ∷ usage_server_auth ∷ []) s.bundle)
              same (sign-IsIssued api m s.identities icr.csr _ _ s.bundle s.signed);
        in_time =
            requested_duration-le icr.validity_duration
              app.opts.server.maximum_client_certificate_duration;
        provider = p;
        seen = found;
        filled = filled;
        pooled = pooled;
        chained = subst (λ w. IsChain pki (Tls.pointer env.tls w) s.bundle chain) ready s.issued;
      }

-- Where a request waits for the roots in vain only if its context has ended: a server that the
-- command built answers with a chain only to a caller that it knows, by its client certificate where
-- these are enabled or by its token for the mesh's trust domain and the configured cluster, and that
-- is authorized for the identities it gets. The certificate was then requested by the manager from
-- the issuer that is active, with the CSR and for at most the configured duration, and was found
-- signed; and the chain is verified against the roots that the TLS provider held.
pub build-answers :
    {lib : Options.Libraries} {Context A : Type 0} (env : Environment lib Context A)
    (auth : Auth.Libraries) (pki : Pki env.tls.pools.Pool) (api : Api)
    (options : Options.Options lib) (app : App env) (m : Manager) (turns : List (Tls.Turn env.tls))
    (ctx : Context) (ctx_err : Option Str) (icr : IstioCertificateRequest) (chain : List Str)
    → build env options ≡ ok app
    → (Tls.pointer env.tls (Tls.root_cas env.tls turns) ≡ none → ctx_err ≢ none)
    → (answer env auth pki api app m turns ctx ctx_err icr).0 ≡ ok chain
    → IsAnswered env auth pki api app m turns ctx icr chain
build-answers env auth pki api options app m turns ctx ctx_err icr chain built ended e =
    let b = (build_iff env options app).0 built in
    served-IsAnswered env auth pki api app m turns ctx ctx_err icr chain b.server (
      (create_certificate_iff auth pki app.server.node_authorizer
          app.server.opts.maximum_client_certificate_duration app.server.authenticators
          (manager_signer api m) ctx (Tls.pointer env.tls (Tls.root_cas env.tls turns)) ctx_err icr
          chain ended).0
        e)
