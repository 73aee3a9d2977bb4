-- ===== src/App.antt =====
-- cmd/app/app.go: the command, which builds the components and adds them to a controller-runtime
-- manager.
pub mod Steps
pub mod Added
pub mod Built
pub mod Notified
pub mod Answered
mod Examples
mod Rotations
pub mod Readiness
pub mod Distributed
pub mod Reissued
use istio_csr.Base.{
  ℕ, Bool, true, false, not, ◌&&◌, Option, none, some, List, [], ◌∷◌, ◌++◌, Result, ok, err, ◌>>=◌,
  ◌>>◌, guard, or_fail, is_empty, if◌then◌else◌,
}
use istio_csr.Base.Int64.{ℤ}
use istio_csr.Base.Text.{Str, bytes}
use istio_csr.Base.Dict.{Dict}
use istio_csr.Certmanager
use istio_csr.Certmanager.{Manager, has_issuer_config, has_runtime_configuration}
use istio_csr.Controller
use istio_csr.Controller.{Controller, add_config_map_controller}
use istio_csr.Tls
use istio_csr.Server.Serving
use istio_csr.Istiodcert.Worker
use istio_csr.Options
use istio_csr.Options.{Options, CompleteError, complete}

-- What is added to the manager: runnables and controllers, and checks of its readiness, by name.
pub data Registration : Type 0 where
  istiod_cert_controller istiod_cert_provisioner runtime_configuration_watcher : Registration
  tls_provider grpc_server config_map_controller : Registration
  tls_provider_check grpc_server_check : Registration

-- ctrl.Options, as far as the command's options determine it: where the lease is held, the path of
-- the readiness probe, and the ports of the probe and of the metrics on 0.0.0.0.
pub record ManagerOptions : Type 0 where
  pub leader_election_namespace : Str
  pub readiness_endpoint_name : Str
  pub health_probe_port : ℤ
  pub metrics_port : ℤ

-- What the command takes from the libraries and from the cluster. An Option Str is an error, or
-- none.
pub record Environment (lib : Options.Libraries) (Context A : Type 0) : Type 1 where
  pub tls : Tls.Libraries
  pub istio : Serving.Istio Context A
  pub validate_annotations : Dict Str → List Str
  -- whether the clients of the manager and of the provisioner can be built
  pub kubernetes_client : Bool
  pub cert_manager_client : Bool
  pub istiod_client : Bool
  pub add_kubernetes_scheme : Option Str
  pub add_cert_manager_scheme : Option Str
  pub new_kubernetes_client : Option Str
  pub new_manager : ManagerOptions → Option Str
  -- adding to the manager, by what is added
  pub add : Registration → Option Str
  pub config_map_client : Option Str
  pub parse_selector : Str → Result Str (Dict Str → Bool)
  pub start : Option Str

module _ {lib : Options.Libraries} {Context A : Type 0} (env : Environment lib Context A) where
  pub data AppError : Type 0 where
    not_completed : CompleteError lib → AppError
    bad_annotations : List Str → AppError
    no_cert_manager : Certmanager.StartError → AppError
    no_scheme no_client no_manager not_added not_started : Str → AppError
    no_provisioner : AppError
    no_tls_provider : Tls.NewError env.tls → AppError
    no_server : AppError
    no_controller : Controller.AddError → AppError

  abbrev check_error : Option Str → (Str → AppError) → Result AppError (Unit {0})
  check_error none wrap = ok tt
  check_error (some e) wrap = err (wrap e)

  -- An error of a component, wrapped.
  abbrev wrapped : {E B : Type 0} → Result E B → (E → AppError) → Result AppError B
  wrapped (ok b) wrap = ok b
  wrapped (err e) wrap = err (wrap e)

  abbrev no_errors : List Str → Result AppError (Unit {0})
  no_errors [] = ok tt
  no_errors (e ∷ es) = err (bad_annotations (e ∷ es))

  abbrev pub manager_options : Options lib → ManagerOptions
  manager_options o = record {
    leader_election_namespace = o.controller.leader_election_namespace;
    readiness_endpoint_name = o.readyz_path;
    health_probe_port = o.readyz_port;
    metrics_port = o.metrics_port;
  }

  -- The components as they stand when the manager is started, and what was added, in order.
  pub record App : Type 0 where
    pub opts : Options lib
    pub manager : Manager
    pub provisioner : Option Worker.Provisioner
    pub provider : Tls.Provider env.tls
    pub server : Serving.Server Context A
    pub controller : Controller
    pub added : List Registration

  -- The provisioner of istiod's certificate, which subscribes to the manager.
  unfoldable pub add_provisioner :
      Options lib
      → Manager
      → Result AppError (Option Worker.Provisioner × Manager × List Registration)
  add_provisioner o m =
      if o.istiod_cert.enabled
      then (do
        (provisioner, subscribed) ←
            or_fail (Worker.new env.istiod_client o.istiod_cert m o.tls.trust_domain) no_provisioner
        check_error (env.add istiod_cert_controller) not_added
        check_error (env.add istiod_cert_provisioner) not_added
        ok (some provisioner, subscribed, istiod_cert_controller ∷ istiod_cert_provisioner ∷ []))
      else ok (none, m, [])

  -- The watcher of the runtime configuration.
  unfoldable pub add_watcher : Options lib → Result AppError (List Registration)
  add_watcher o =
      if has_runtime_configuration o.cert_manager
      then (do
        check_error (env.add runtime_configuration_watcher) not_added
        ok (runtime_configuration_watcher ∷ []))
      else ok []

  -- RunE up to ctrl.NewManager: the completed options, and the manager that signs.
  unfoldable pub create_manager : Options lib → Result AppError (Options lib × Manager)
  create_manager options = do
    o ← wrapped (complete lib options) not_completed
    no_errors (env.validate_annotations o.cert_manager.additional_annotations)
    m ←
        wrapped (Certmanager.new env.kubernetes_client env.cert_manager_client o.cert_manager)
          no_cert_manager
    check_error env.add_kubernetes_scheme no_scheme
    check_error env.add_cert_manager_scheme no_scheme
    check_error env.new_kubernetes_client no_client
    check_error (env.new_manager (manager_options o)) no_manager
    ok (o, m)

  -- RunE from there up to the start of the manager. AddConfigMapController subscribes to the roots of
  -- the provider.
  unfoldable pub add_components : Options lib → Manager → Result AppError App
  add_components o m = do
    (provisioner, manager, with_provisioner) ← add_provisioner o m
    with_watcher ← add_watcher o
    provider ← wrapped (Tls.new_provider env.tls o.tls) no_tls_provider
    check_error (env.add tls_provider_check) not_added
    check_error (env.add tls_provider) not_added
    server ← or_fail (Serving.new env.istio provider.opts.trust_domain o.server) no_server
    check_error (env.add grpc_server_check) not_added
    check_error (env.add grpc_server) not_added
    controller ←
        wrapped
          (add_config_map_controller env.config_map_client env.parse_selector
            (env.add config_map_controller) o.controller.config_map_namespace_selector)
          no_controller
    ok (record {
      opts = o;
      manager = manager;
      provisioner = provisioner;
      provider = (Tls.subscribe_root_cas_event env.tls provider).0;
      server = server;
      controller = controller;
      added =
          with_provisioner
          ++ (with_watcher
              ++ (tls_provider_check ∷ tls_provider ∷ grpc_server_check ∷ grpc_server
                  ∷ config_map_controller ∷ []));
    })

  unfoldable pub build : Options lib → Result AppError App
  build options = do (o, m) ← create_manager options; add_components o m

  -- RunE: the error that the command ends with, or none once the manager has ended without one.
  unfoldable pub run : Options lib → Option AppError
  run options = elim (build options) [
    | err e ↦ some e
    | ok app ↦ elim env.start [ none ↦ none | some e ↦ some (not_started e) ]
  ]

-- deferCheckUntilIssuerConfig: a check counts once the manager has an issuer.
abbrev pub defer_check_until_issuer_config : Manager → Bool → Bool
defer_check_until_issuer_config m check = if has_issuer_config m then check else true

-- The readiness probe asks every check that was added.
unfoldable pub readyz : {lib : Tls.Libraries} → Manager → Tls.Provider lib → Serving.Running → Bool
readyz {lib} m p s =
    defer_check_until_issuer_config m (Tls.check lib p)
    && defer_check_until_issuer_config m (Serving.check s)
