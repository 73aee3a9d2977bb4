-- ===== src/App/Built.antt =====
-- What the command builds before it starts the manager.
use istio_csr.Base.{
  All-append, ◌≡◌, refl, sym, subst, ◌↔◌, inl, inr, true, none, some, [], ◌++◌, arith, All, ok,
  Result-cases,
}
use istio_csr.Certmanager.{Manager}
use istio_csr.Certmanager.Startup.{Starts, new_iff}
use istio_csr.Tls
use istio_csr.Tls.Startup.{IsNew, new_provider_iff}
use istio_csr.Server.Serving
use istio_csr.Options
use istio_csr.Options.{Options}
use istio_csr.Options.Completed.{IsCompleted, complete_iff}
use istio_csr.App.{
  config_map_controller, Environment, App, manager_options, create_manager, add_components, build,
}
use istio_csr.App.Steps.{Creates, Creates-complete, Creates-sound, Adds, Adds-complete, Adds-sound}
use istio_csr.App.Added.{
  HasProvisioner, for_istiod, for_runtime, always, expected, IsAdded, provisioned_sound,
  provisioned_complete, watched_sound, watched_complete, selected_sound, selected_complete,
}

module _ {lib : Options.Libraries} {Context A : Type 0} (env : Environment lib Context A) where
  pub record IsBuilt (options : Options lib) (app : App env) : Type 0 where
    pub completed : IsCompleted lib options app.opts
    pub annotations : env.validate_annotations app.opts.cert_manager.additional_annotations ≡ []
    pub clients : (env.kubernetes_client ≡ true) × (env.cert_manager_client ≡ true)
    pub signer : Manager
    pub starts : Starts app.opts.cert_manager signer
    pub schemes : (env.add_kubernetes_scheme ≡ none) × (env.add_cert_manager_scheme ≡ none)
    pub cluster :
        (env.new_kubernetes_client ≡ none) × (env.new_manager (manager_options env app.opts) ≡ none)
    pub provisioner : HasProvisioner env app.opts signer app.provisioner app.manager
    pub created : Tls.Provider env.tls
    pub provider : IsNew env.tls app.opts.tls created
    pub subscribed : app.provider ≡ (Tls.subscribe_root_cas_event env.tls created).0
    pub server : Serving.new env.istio app.opts.tls.trust_domain app.opts.server ≡ some app.server
    pub controller :
        (env.config_map_client ≡ none)
        × (env.parse_selector app.opts.controller.config_map_namespace_selector
            ≡ ok app.controller.namespace_selector)
        × (app.controller.root_cas_pem ≡ [])
    pub order : app.added ≡ expected env app.opts
    pub added : All (λ r. env.add r ≡ none) app.added

  assembled :
      (options : Options lib) (app : App env) (m : Manager)
      → Creates env options app.opts m
      → Adds env app.opts m app
      → IsBuilt options app
  assembled options app m c a =
      let (k, l, starts) =
        (new_iff env.kubernetes_client env.cert_manager_client app.opts.cert_manager m).0
          c.started in
      let n = (new_provider_iff env.tls app.opts.tls a.created).0 a.provider in
      let (has_provisioner, istiod_order, istiod_added) =
        provisioned_sound env app.opts m a.provisioned in
      let (runtime_order, runtime_added) = watched_sound env app.opts a.watched in
      let (client, selector, no_roots, controller_added) =
        selected_sound env env.parse_selector env.config_map_client (env.add config_map_controller)
          app.opts.controller.config_map_namespace_selector a.controller in
      let rest : IsAdded env (always env) =
        (a.tls_checked, (a.tls_added, (a.grpc_checked, (a.grpc_added, (controller_added, tt))))) in
      record {
        completed = (complete_iff lib options app.opts).0 c.completed;
        annotations = c.annotations;
        clients = (k, l);
        signer = m;
        starts = starts;
        schemes = (c.kubernetes_scheme, c.cert_manager_scheme);
        cluster = (c.client, c.created);
        provisioner = has_provisioner;
        created = a.created;
        provider = n;
        subscribed = a.subscribed;
        server =
            subst
              (λ (t : Tls.Options).
                Serving.new env.istio t.trust_domain app.opts.server ≡ some app.server)
              n.opts_same a.server;
        controller = (client, selector, no_roots);
        order = ground (arith, a.added);
        added = subst (IsAdded env) (sym a.added) (
            (All-append (λ r. env.add r ≡ none) a.with_provisioner
                (a.with_watcher ++ (always env))).1
              (
                istiod_added,
                (All-append (λ r. env.add r ≡ none) a.with_watcher (always env)).1
                    (runtime_added, rest),
              ));
      }

  disassembled :
      (options : Options lib) (app : App env)
      → (b : IsBuilt options app)
      → Creates env options app.opts b.signer × Adds env app.opts b.signer app
  disassembled options app b =
      let all =
        (All-append (λ r. env.add r ≡ none) (for_istiod env app.opts)
            (for_runtime env app.opts ++ (always env))).0
          (subst (IsAdded env) b.order b.added) in
      let later =
        (All-append (λ r. env.add r ≡ none) (for_runtime env app.opts) (always env)).0 all.1 in
      let (tls_checked, (tls_added, (grpc_checked, (grpc_added, (controller_added, end))))) =
        later.1 in
      (
        record {
          completed = (complete_iff lib options app.opts).1 b.completed;
          annotations = b.annotations;
          started =
              (new_iff env.kubernetes_client env.cert_manager_client app.opts.cert_manager
                  b.signer).1
                (b.clients.0, b.clients.1, b.starts);
          kubernetes_scheme = b.schemes.0;
          cert_manager_scheme = b.schemes.1;
          client = b.cluster.0;
          created = b.cluster.1;
        },
        record {
          opts_same = refl;
          with_provisioner = for_istiod env app.opts;
          provisioned =
              provisioned_complete env app.opts b.signer app.provisioner app.manager b.provisioner
                all.0;
          with_watcher = for_runtime env app.opts;
          watched = watched_complete env app.opts later.0;
          created = b.created;
          provider = (new_provider_iff env.tls app.opts.tls b.created).1 b.provider;
          tls_checked = tls_checked;
          tls_added = tls_added;
          server =
              subst
                (λ (t : Tls.Options).
                  Serving.new env.istio t.trust_domain app.opts.server ≡ some app.server)
                (sym b.provider.opts_same) b.server;
          grpc_checked = grpc_checked;
          grpc_added = grpc_added;
          controller =
              selected_complete env env.parse_selector env.config_map_client
                (env.add config_map_controller) app.opts.controller.config_map_namespace_selector
                app.controller b.controller.0 b.controller.1 b.controller.2 controller_added;
          subscribed = b.subscribed;
          added = b.order;
        },
      )

  build_sound :
      (options : Options lib) (app : App env) → build env options ≡ ok app → IsBuilt options app
  unfolding build
  build_sound options app e = elim (Result-cases (create_manager env options)) [
    | inr (x, bad) ↦ ground arith
    | inl ((o, m), good) ↦
        let c : Creates env options o m = Creates-sound env good in
        let added : add_components env o m ≡ ok app = ground arith in
        let a : Adds env o m app = Adds-sound env added in
        assembled options app m (subst (λ o. Creates env options o m) (sym a.opts_same) c)
          (subst (λ o. Adds env o m app) (sym a.opts_same) a)
  ]

  build_complete :
      (options : Options lib) (app : App env) → IsBuilt options app → build env options ≡ ok app
  unfolding build
  build_complete options app b =
      let (c, a) = disassembled options app b in
      ground (arith, Creates-complete env c, Adds-complete env a)

-- The command gets to the start of its manager with some components exactly where its options can
-- be completed, the additional annotations are valid, the signer can start, the libraries and the
-- cluster give what is asked for, and each component can be built: a provisioner of istiod's
-- certificate that has subscribed to the signer, exactly where that certificate is enabled; a TLS
-- provider that is new but for the subscription of the controller; a server for the provider's trust
-- domain; and the controller with its selector and no roots yet. What is added to the manager, and
-- in which order, is determined by the options: the watcher of the runtime configuration where they
-- name a ConfigMap, and each readiness check before what it checks.
pub build_iff :
    {lib : Options.Libraries} {Context A : Type 0} (env : Environment lib Context A)
    (options : Options lib) (app : App env)
    → (build env options ≡ ok app) ↔ IsBuilt env options app
build_iff env options app = (build_sound env options app, build_complete env options app)
