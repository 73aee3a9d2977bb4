-- ===== src/App/Examples.antt =====
-- A command that provisions istiod's certificate too, in an environment that gives all it is asked
-- for.
use istio_csr.Base.{◌≡◌, ◌≢◌, refl, true, false, none, some, List, [], ◌∷◌, ok, list_beq}
use istio_csr.Base.Int64.{pos, wrap64}
use istio_csr.Base.Text.{Str, bytes}
use istio_csr.Certmanager
use istio_csr.Certmanager.{
  Manager, handle_original_issuer_ref, has_runtime_configuration, has_issuer_config,
}
use istio_csr.Certmanager.Subscriptions.{subscribe_issuer_change}
use istio_csr.Controller.{add_config_map_controller}
use istio_csr.Curves.Examples.{parsing}
use istio_csr.Tls
use istio_csr.Tls.{new_provider}
use istio_csr.Tls.Examples.{libraries as tls_libraries, signer, fetching}
use istio_csr.Server.Requests.{libraries as auth, requests}
use istio_csr.Server.Answers.{plain_pki}
use istio_csr.Server.Certificate.{
  IstioCertificateRequest, requested_duration, parse_certificate_bundle, chain_of, encode_all,
  create_certificate,
}
use istio_csr.Certmanager.Examples.{api, signing}
use istio_csr.Server.NodeAuth.Trusted.{node_authorizer}
use istio_csr.Tls.Fetch
use istio_csr.Server.Serving
use istio_csr.Server.Serving.Examples.{client, istio, serving_run}
use istio_csr.Istiodcert.Validation.{validate, check_key, check_names}
use istio_csr.Istiodcert.Worker
use istio_csr.Options.{Options, complete}
use istio_csr.Options.Flags.{set_default, add_all}
use istio_csr.Options.Prepared.{add_flags}
use istio_csr.Options.Examples.{libraries, options, config}
use istio_csr.App.{
  Environment, App, add_provisioner, add_watcher, create_manager, add_components, build, readyz,
  istiod_cert_controller, istiod_cert_provisioner, tls_provider_check, tls_provider,
  grpc_server_check, grpc_server, config_map_controller,
}
use istio_csr.App.Built.{IsBuilt, build_iff}
use istio_csr.App.Readiness.{IsUp, readyz-IsUp}
use istio_csr.App.Answered.{answer, IsAnswered, build-answers}

abbrev pub env : Environment libraries (Unit {0}) Str
env = record {
  tls = tls_libraries;
  istio = istio;
  validate_annotations = λ annotations. [];
  kubernetes_client = true;
  cert_manager_client = true;
  istiod_client = true;
  add_kubernetes_scheme = none;
  add_cert_manager_scheme = none;
  new_kubernetes_client = none;
  new_manager = λ o. none;
  add = λ r. none;
  config_map_client = none;
  parse_selector = λ s. ok (λ labels. true);
  start = none;
}

-- The command line turns the provisioning of istiod's certificate on.
abbrev pub given : Options libraries
given = record options { istiod_cert = record options.istiod_cert { enabled = true } }

abbrev pub completed : Options libraries
completed = record given {
  log_format = bytes "text";
  rest_config = some config;
  istiod_cert =
      (validate libraries.istiodcert
        (record given.istiod_cert { max_concurrent_reconciles = pos 1 })).0;
}

abbrev started : Manager
started = record {
  opts = given.cert_manager;
  active_issuer_ref = some given.cert_manager.issuer_ref;
  original_issuer_ref = some given.cert_manager.issuer_ref;
  issuer_change_subscriptions = 0 ∷ [];
  closed = [];
  next_subscription = 1;
  pending = [];
}

abbrev pub provisioner : Worker.Provisioner
provisioner = record {
  opts = completed.istiod_cert;
  initial_issuer_ref = some given.cert_manager.issuer_ref;
  issuer_ref = some given.cert_manager.issuer_ref;
  issuer_change_subscription = 0;
  trust_domain = bytes "cluster.local";
  triggered = 0;
}

abbrev provider : Tls.Provider tls_libraries
provider = record {
  opts = given.tls;
  root_cas = record { pem = []; cert_pool = none };
  serving_min_version = 0x0304;
  serving_cipher_suites = [];
  serving_curve_preferences = [];
  tls_config = none;
  subscriptions = 0;
  pending = [];
}

abbrev pub app : App env
app = record {
  opts = completed;
  manager = started;
  provisioner = some provisioner;
  provider = record provider { subscriptions = 1 };
  server = record {
    opts = given.server;
    authenticators =
        istio.new_kube_jwt_authenticator (bytes "cluster.local") client (bytes "Kubernetes") ∷ [];
    node_authorizer = none;
    ready = false;
  };
  controller = record { namespace_selector = λ labels. true; root_cas_pem = [] };
  added =
      istiod_cert_controller ∷ istiod_cert_provisioner ∷ tls_provider_check ∷ tls_provider
      ∷ grpc_server_check ∷ grpc_server ∷ config_map_controller ∷ [];
}

-- What a run of the command unfolds.
unfoldable pub building : Unit {0}
unfolding build create_manager add_components add_provisioner add_watcher complete add_flags
    set_default add_all validate check_key check_names Certmanager.new Certmanager.initial_issuer
    handle_original_issuer_ref has_runtime_configuration Worker.new subscribe_issuer_change
    new_provider parsing Tls.subscribe_root_cas_event Serving.new node_authorizer
    add_config_map_controller bytes list_beq
building = tt

pub build_run : build env given ≡ ok app
unfolding building
build_run = refl

build_iff_example : IsBuilt env given app
build_iff_example = (build_iff env given app).0 build_run

-- A certificate was fetched, and the server is in Serve.
abbrev met : List (Fetch.Event tls_libraries Str)
met = Fetch.fetched signer ∷ []

ready_run :
    readyz started (Fetch.run tls_libraries provider met) (Serving.run Serving.fresh serving_run)
    ≡ true
unfolding readyz has_issuer_config Tls.check Serving.run Serving.step Fetch.run Fetch.step fetching
    add_flags set_default add_all
ready_run = refl

provider_run : new_provider tls_libraries given.tls ≡ ok provider
unfolding add_flags set_default add_all new_provider parsing bytes
provider_run = refl

readyz-IsUp_example :
    IsUp tls_libraries given.tls (Fetch.run tls_libraries provider met) serving_run
unfolding has_issuer_config
readyz-IsUp_example =
    readyz-IsUp tls_libraries given.tls provider started met serving_run provider_run refl ready_run

-- The roots of the mesh after the fetch; a pool is its PEMs, for the server's library nothing.
abbrev after : Tls.Provider tls_libraries
after = Fetch.run tls_libraries provider met

abbrev turns : List (Tls.Turn tls_libraries)
turns = Tls.seen provider ∷ Tls.seen after ∷ []

abbrev own : IstioCertificateRequest
own = record { request = record { csr = bytes "pem"; metadata = [] }; validity_duration = pos 60 }

abbrev answered : List Str
answered = bytes "pem" ∷ bytes "intermediate" ∷ bytes "ca" ∷ []

answer_run :
    (answer env auth (plain_pki (List Str)) api app started turns tt none own).0 ≡ ok answered
unfolding add_flags set_default add_all Tls.root_cas Fetch.run Fetch.step fetching requests
    create_certificate requested_duration wrap64 parse_certificate_bundle chain_of encode_all
    signing
answer_run = refl

roots_given : Tls.pointer tls_libraries (Tls.root_cas tls_libraries turns) ≢ none
unfolding Tls.root_cas Fetch.run Fetch.step fetching add_flags set_default add_all
roots_given e = cc

build-answers_example :
    IsAnswered env auth (plain_pki (List Str)) api app started turns tt own answered
build-answers_example =
    build-answers env auth (plain_pki (List Str)) api given app started turns tt none own answered
      build_run (λ nothing. absurd (roots_given nothing)) answer_run
