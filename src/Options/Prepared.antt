-- ===== src/Options/Prepared.antt =====
-- cmd/app/options/options.go: New and Prepare.
use istio_csr.Base.{false, none, []}
use istio_csr.Base.Int64.{pos}
use istio_csr.Istiodcert.Validation
use istio_csr.Options.{Libraries, Options}
use istio_csr.Options.Flags.{Flag, add_all}
use istio_csr.Options.FlagSets.{
  app_flags, tls_flags, cert_manager_flags, additional_annotations_flags, server_flags,
  controller_flags, istiod_cert_flags,
}

module _ (lib : Libraries) where
  -- New: all variables are zero.
  abbrev pub new : Options lib
  new = record {
    log_level = 0;
    log_format = [];
    kube_config_flags = lib.nil_config_flags;
    readyz_port = pos 0;
    readyz_path = [];
    metrics_port = pos 0;
    rest_config = none;
    controller = record {
      leader_election_namespace = [];
      config_map_namespace_selector = [];
      disable_kubernetes_client_rate_limiter = false;
      max_concurrent_reconciles = pos 0;
    };
    cert_manager = record {
      preserve_certificate_requests = false;
      namespace = [];
      default_issuer_enabled = false;
      issuer_ref = record { name = []; kind = []; group = [] };
      issuance_config_map_name = [];
      issuance_config_map_namespace = [];
      additional_annotations = [];
    };
    tls = record {
      trust_domain = [];
      root_cas_cert_file = [];
      serving_certificate_duration = pos 0;
      serving_certificate_dns_names = [];
      serving_certificate_key_size = pos 0;
      serving_signature_algorithm = [];
      serving_tls_min_version = [];
      serving_tls_cipher_suites = [];
      serving_tls_curve_preferences = [];
    };
    server = record {
      cluster_id = [];
      serving_address = [];
      maximum_client_certificate_duration = pos 0;
      authenticators = record { enable_client_cert = false };
      ca_trusted_node_accounts = [];
    };
    istiod_cert = record {
      enabled = false;
      certificate_name = [];
      certificate_namespace = [];
      duration = pos 0;
      renew_before = pos 0;
      key_algorithm = [];
      key_size = pos 0;
      cm_key_algorithm = Validation.unset;
      additional_dns_names = [];
      additional_annotations = [];
      istio_revisions = [];
      max_concurrent_reconciles = pos 0;
    };
  }

  -- addFlags, in the order of its calls, with pflag's function; the flags of the client configuration
  -- are the library's.
  unfoldable pub add_flags : (Options lib → Flag lib → Options lib) → Options lib → Options lib
  unfolding add_all
  add_flags add o =
      let with_cert_manager =
        add_all lib add (add_all lib add o (app_flags lib)) (cert_manager_flags lib) in
      let with_kube = record with_cert_manager { kube_config_flags = lib.new_config_flags } in
      let with_tls = add_all lib add with_kube (tls_flags lib with_kube) in
      let with_controller =
        add_all lib add (add_all lib add with_tls (server_flags lib)) (controller_flags lib) in
      add_all lib add (add_all lib add with_controller (additional_annotations_flags lib))
        (istiod_cert_flags lib)

  -- Prepare.
  abbrev pub prepare : (Options lib → Flag lib → Options lib) → Options lib → Options lib
  prepare add o = add_flags add o
