-- ===== src/App/Distributed.antt =====
-- The way of the roots through the program: from the file, by the TLS provider, to the ConfigMap of
-- each namespace.
use istio_csr.Base.{
  ◌≡◌, ◌≢◌, ap, ◌∙◌, inl, inr, Bool, true, Option, some, List, [], ◌∷◌, ◌++◌, arith, All, ok,
  Option-cases,
}
use istio_csr.Base.Text.{Str}
use istio_csr.Rootca.{RootCas, roots_of, Watcher, event, Signal, watch}
use istio_csr.Rootca.Broadcasts.{IsRunning, watch-latest}
use istio_csr.Tls
use istio_csr.Tls.Fetch
use istio_csr.Tls.FromFile.{HasFile, changes, IsTold, run-FromFile}
use istio_csr.Tls.Roots.{roots_of-pem}
use istio_csr.Controller.{Namespace, Controller, requests, on_root_cas_event}
use istio_csr.Controller.Outcome.{IsSelected}
use istio_csr.Controller.Cluster.{Cluster, find_namespace, IsFiled, HasCurrent}
use istio_csr.Controller.Rotation.{reconcile_all, with_roots, on_root_cas_event-HasCurrent}
use istio_csr.Options
use istio_csr.App.{Environment, App, build}
use istio_csr.App.Built.{build_iff}

-- The provider has the roots and has started a message to the controller, and the controller, when
-- it handles that message, gives the requests after which the namespace has a current ConfigMap.
pub record IsDistributed (lib : Tls.Libraries) (p : Tls.Provider lib) (c : Controller)
    (root_cas : RootCas lib.pools.Pool) (pem : Str) (cluster : Cluster) (name : Str) : Type 0 where
  pub told : IsTold lib 0 p
  pub given : Tls.root_cas lib (Tls.seen p ∷ []) ≡ Tls.ready root_cas
  pub same : root_cas.pem ≡ pem
  pub reqs : List Str
  pub handled :
      on_root_cas_event c (some root_cas.pem) (ok cluster.namespaces)
      ≡ (with_roots c pem, requests reqs)
  pub current : HasCurrent pem (reconcile_all (with_roots c pem) reqs cluster) name

-- Roots that decode have a pool.
roots_given :
    (lib : Tls.Libraries) (p : Tls.Provider lib) (r : RootCas lib.pools.Pool) (pem : Str)
    → p.root_cas ≡ r
    → roots_of lib.pools pem ≡ some r
    → pem ≢ []
    → Tls.root_cas lib (Tls.seen p ∷ []) ≡ Tls.ready r
unfolding Tls.root_cas
roots_given lib p r pem held good filled =
    elim (Option-cases (lib.pools.decode_x509_certificate_set_bytes pem)) [
      | inl bad ↦ ground arith
      | inr (certs, decoded) ↦ ground arith
    ]

-- In a program with a file for the roots: once the file is written with a bundle that decodes, while
-- the context goes on, and the provider has taken what the file's watcher sent, whatever else it
-- met, it has the roots of that bundle and has started a message to the controller. When the
-- controller handles that message, and the API server answers every call, each namespace that is
-- selected and not terminating gets a ConfigMap with that bundle and nothing else. ConfigMaps are
-- kept under their own namespaces.
pub build-distributes :
    {lib : Options.Libraries} {Context A E : Type 0} (env : Environment lib Context A)
    (options : Options.Options lib) (app : App env) (file : Option Str) (watched : Bool)
    (before : List (Signal env.tls.pools)) (removed : Bool) (file' : Option Str) (pem : Str)
    (root_cas : RootCas env.tls.pools.Pool) (w : Watcher env.tls.pools)
    (es : List (Fetch.Event env.tls E)) (cluster : Cluster) (name : Str) (n : Namespace)
    → build env options ≡ ok app
    → HasFile env.tls app.provider
    → watch env.tls.pools file watched (before ++ event removed file' true (some pem) ∷ []) ≡ ok w
    → All (IsRunning env.tls.pools) before
    → roots_of env.tls.pools pem ≡ some root_cas
    → pem ≢ []
    → changes env.tls es ≡ w.broadcast
    → IsFiled cluster
    → find_namespace name cluster.namespaces ≡ some n
    → IsSelected app.controller n
    → IsDistributed env.tls
        (Fetch.run env.tls app.provider es)
        app.controller
        root_cas
        pem
        cluster
        name
unfolding Tls.subscribe_root_cas_event
build-distributes env options app file watched before removed file' pem root_cas w es cluster name n
      built has_file watches running good filled brought filed there selected =
    let b = (build_iff env options app).0 built in
    let (earlier, sent) =
      watch-latest env.tls.pools file watched before removed file' pem root_cas w watches running
        good in
    let (held, told) =
      run-FromFile env.tls app.provider es earlier root_cas has_file (brought ∙ sent) in
    let own = roots_of-pem env.tls pem good in
    let (reqs, handled, current) =
      on_root_cas_event-HasCurrent app.controller pem cluster name n filed filled there selected in
    record {
      told = told 0 (omega (arith, ap (λ x. x.subscriptions) b.subscribed));
      given = roots_given env.tls (Fetch.run env.tls app.provider es) root_cas pem held good filled;
      same = own;
      reqs = reqs;
      handled =
          ap (λ s. on_root_cas_event app.controller (some s) (ok cluster.namespaces)) own ∙ handled;
      current = current;
    }
