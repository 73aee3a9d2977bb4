-- ===== src/App/Steps.antt =====
-- The steps by which the command builds its components, each with its outcome.
use istio_csr.Base.{◌≡◌, inl, inr, none, some, List, [], ◌∷◌, ◌++◌, arith, ok, Result-cases}
use istio_csr.Certmanager
use istio_csr.Certmanager.{Manager, has_runtime_configuration}
use istio_csr.Controller.{add_config_map_controller}
use istio_csr.Tls
use istio_csr.Server.Serving
use istio_csr.Options
use istio_csr.Options.{Options, complete}
use istio_csr.App.{
  Registration, tls_provider, grpc_server, config_map_controller, tls_provider_check,
  grpc_server_check, Environment, App, manager_options, add_provisioner, add_watcher,
  create_manager, add_components,
}

module _ {lib : Options.Libraries} {Context A : Type 0} (env : Environment lib Context A) where
  -- What the creation of the manager takes.
  pub record Creates (options o : Options lib) (m : Manager) : Type 0 where
    pub completed : complete lib options ≡ ok o
    pub annotations : env.validate_annotations o.cert_manager.additional_annotations ≡ []
    pub started :
        Certmanager.new env.kubernetes_client env.cert_manager_client o.cert_manager ≡ ok m
    pub kubernetes_scheme : env.add_kubernetes_scheme ≡ none
    pub cert_manager_scheme : env.add_cert_manager_scheme ≡ none
    pub client : env.new_kubernetes_client ≡ none
    pub created : env.new_manager (manager_options env o) ≡ none

  pub Creates-complete :
      {options o : Options lib} {m : Manager}
      → Creates options o m
      → create_manager env options ≡ ok (o, m)
  unfolding create_manager
  Creates-complete c = ground (
    arith, c.completed, c.annotations, c.started, c.kubernetes_scheme, c.cert_manager_scheme,
    c.client, c.created,
  )

  pub Creates-sound :
      {options o : Options lib} {m : Manager}
      → create_manager env options ≡ ok (o, m)
      → Creates options o m
  unfolding create_manager
  Creates-sound {options} e = elim (Result-cases (complete lib options)) [
    | inr (x, bad) ↦ ground arith
    | inl (o', completed) ↦ record {
      completed = ground arith;
      annotations = ground arith;
      started = ground arith;
      kubernetes_scheme = ground arith;
      cert_manager_scheme = ground arith;
      client = ground arith;
      created = ground arith;
    }
  ]

  -- The steps that add the components, each with its outcome.
  pub record Adds (o : Options lib) (m : Manager) (app : App env) : Type 0 where
    pub opts_same : app.opts ≡ o
    pub with_provisioner : List Registration
    pub provisioned : add_provisioner env o m ≡ ok (app.provisioner, app.manager, with_provisioner)
    pub with_watcher : List Registration
    pub watched : add_watcher env o ≡ ok with_watcher
    pub created : Tls.Provider env.tls
    pub provider : Tls.new_provider env.tls o.tls ≡ ok created
    pub tls_checked : env.add tls_provider_check ≡ none
    pub tls_added : env.add tls_provider ≡ none
    pub server : Serving.new env.istio created.opts.trust_domain o.server ≡ some app.server
    pub grpc_checked : env.add grpc_server_check ≡ none
    pub grpc_added : env.add grpc_server ≡ none
    pub controller :
        add_config_map_controller env.config_map_client env.parse_selector
          (env.add config_map_controller)
          o.controller.config_map_namespace_selector
        ≡ ok app.controller
    pub subscribed : app.provider ≡ (Tls.subscribe_root_cas_event env.tls created).0
    pub added :
        app.added
        ≡ with_provisioner
          ++ (with_watcher
              ++ (tls_provider_check ∷ tls_provider ∷ grpc_server_check ∷ grpc_server
                  ∷ config_map_controller ∷ []))

  pub Adds-complete :
      {o : Options lib} {m : Manager} {app : App env}
      → Adds o m app
      → add_components env o m ≡ ok app
  unfolding add_components
  Adds-complete a = ground (
    arith, a.opts_same, a.provisioned, a.watched, a.provider, a.tls_checked, a.tls_added, a.server,
    a.grpc_checked, a.grpc_added, a.controller, a.subscribed, a.added,
  )

  pub Adds-sound :
      {o : Options lib} {m : Manager} {app : App env}
      → add_components env o m ≡ ok app
      → Adds o m app
  unfolding add_components
  Adds-sound {o} {m} e = elim (Result-cases (add_provisioner env o m)) [
    | inr (x, bad) ↦ ground arith
    | inl ((p, m', with_provisioner), provisioned) ↦ elim (Result-cases (add_watcher env o)) [
      | inr (x, bad) ↦ ground arith
      | inl (with_watcher, watched) ↦ elim (Result-cases (Tls.new_provider env.tls o.tls)) [
        | inr (x, bad) ↦ ground arith
        | inl (created, provider) ↦ record {
          opts_same = ground arith;
          with_provisioner = with_provisioner;
          provisioned = ground arith;
          with_watcher = with_watcher;
          watched = ground arith;
          created = created;
          provider = provider;
          tls_checked = ground arith;
          tls_added = ground arith;
          server = ground arith;
          grpc_checked = ground arith;
          grpc_added = ground arith;
          controller = ground arith;
          subscribed = ground arith;
          added = ground arith;
        }
      ]
    ]
  ]
