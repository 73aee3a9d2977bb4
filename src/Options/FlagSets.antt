-- ===== src/Options/FlagSets.antt =====
-- cmd/app/options/options.go, the flags that the options add by section, and AddFlags of
-- pkg/istiodcert/options.go.
use istio_csr.Base.{true, false, none, some, List, [], ◌∷◌}
use istio_csr.Base.Int64.{ℤ, pos}
use istio_csr.Base.Text.{bytes}
use istio_csr.Istiodcert.Validation
use istio_csr.Options.{Libraries, Options}
use istio_csr.Options.Flags.{
  Flag, var, tls, cert_manager, server, controller, istiod_cert, issuer_ref, bool_var, uint32_var,
  int_var, duration_var, string_var, string_slice_var, string_to_string_var,
}

-- time.Hour and 30*time.Minute, in nanoseconds.
abbrev pub hour : ℤ
hour = pos 3_600_000_000_000

abbrev pub half_hour : ℤ
half_hour = pos 1_800_000_000_000

module _ (lib : Libraries) where
  -- addAppFlags.
  abbrev pub app_flags : List (Flag lib)
  app_flags =
      uint32_var (var lib (λ o. o.log_level) (λ v o. record o { log_level = v }))
        (bytes "log-level") (some b'v') 1
      ∷ string_var (var lib (λ o. o.log_format) (λ v o. record o { log_format = v }))
          (bytes "log-format") none (bytes "text")
      ∷ int_var (var lib (λ o. o.readyz_port) (λ v o. record o { readyz_port = v }))
          (bytes "readiness-probe-port") none (pos 6060)
      ∷ string_var (var lib (λ o. o.readyz_path) (λ v o. record o { readyz_path = v }))
          (bytes "readiness-probe-path") none (bytes "/readyz")
      ∷ int_var (var lib (λ o. o.metrics_port) (λ v o. record o { metrics_port = v }))
          (bytes "metrics-port") none (pos 9402)
      ∷ []

  -- addTLSFlags: a default may be what the variable holds.
  abbrev pub tls_flags : Options lib → List (Flag lib)
  tls_flags now =
      string_var (tls lib (λ t. t.trust_domain) (λ v t. record t { trust_domain = v }))
        (bytes "trust-domain") none (bytes "cluster.local")
      ∷ string_var
          (tls lib (λ t. t.root_cas_cert_file) (λ v t. record t { root_cas_cert_file = v }))
          (bytes "root-ca-file") none []
      ∷ duration_var
          (tls lib (λ t. t.serving_certificate_duration)
            (λ v t. record t { serving_certificate_duration = v }))
          (bytes "serving-certificate-duration") (some b't') hour
      ∷ string_slice_var
          (tls lib (λ t. t.serving_certificate_dns_names)
            (λ v t. record t { serving_certificate_dns_names = v }))
          (bytes "serving-certificate-dns-names") none
          (bytes "cert-manager-istio-csr.cert-manager.svc" ∷ [])
      ∷ int_var
          (tls lib (λ t. t.serving_certificate_key_size)
            (λ v t. record t { serving_certificate_key_size = v }))
          (bytes "serving-certificate-key-size") none (pos 2048)
      ∷ string_var
          (tls lib (λ t. t.serving_signature_algorithm)
            (λ v t. record t { serving_signature_algorithm = v }))
          (bytes "serving-signature-algorithm") none (bytes "RSA")
      ∷ string_slice_var
          (tls lib (λ t. t.serving_tls_cipher_suites)
            (λ v t. record t { serving_tls_cipher_suites = v }))
          (bytes "serving-tls-cipher-suites") none now.tls.serving_tls_cipher_suites
      ∷ string_var
          (tls lib (λ t. t.serving_tls_min_version)
            (λ v t. record t { serving_tls_min_version = v }))
          (bytes "serving-tls-min-version") none now.tls.serving_tls_min_version
      ∷ string_slice_var
          (tls lib (λ t. t.serving_tls_curve_preferences)
            (λ v t. record t { serving_tls_curve_preferences = v }))
          (bytes "serving-tls-curve-preferences") none now.tls.serving_tls_curve_preferences
      ∷ []

  -- addCertManagerFlags.
  abbrev pub cert_manager_flags : List (Flag lib)
  cert_manager_flags =
      bool_var
        (cert_manager lib (λ t. t.preserve_certificate_requests)
          (λ v t. record t { preserve_certificate_requests = v }))
        (bytes "preserve-certificate-requests") (some b'd') false
      ∷ string_var (cert_manager lib (λ t. t.namespace) (λ v t. record t { namespace = v }))
          (bytes "certificate-namespace") (some b'c') (bytes "istio-system")
      ∷ bool_var
          (cert_manager lib (λ t. t.default_issuer_enabled)
            (λ v t. record t { default_issuer_enabled = v }))
          (bytes "issuer-enabled") (some b'e') true
      ∷ string_var (issuer_ref lib (λ r. r.name) (λ v r. record r { name = v }))
          (bytes "issuer-name") (some b'u') (bytes "istio-ca")
      ∷ string_var (issuer_ref lib (λ r. r.kind) (λ v r. record r { kind = v }))
          (bytes "issuer-kind") (some b'k') (bytes "Issuer")
      ∷ string_var (issuer_ref lib (λ r. r.group) (λ v r. record r { group = v }))
          (bytes "issuer-group") (some b'g') (bytes "cert-manager.io")
      ∷ string_var
          (cert_manager lib (λ t. t.issuance_config_map_name)
            (λ v t. record t { issuance_config_map_name = v }))
          (bytes "runtime-issuance-config-map-name") none []
      ∷ string_var
          (cert_manager lib (λ t. t.issuance_config_map_namespace)
            (λ v t. record t { issuance_config_map_namespace = v }))
          (bytes "runtime-issuance-config-map-namespace") none []
      ∷ []

  -- addAdditionalAnnotationsFlags.
  abbrev pub additional_annotations_flags : List (Flag lib)
  additional_annotations_flags =
      string_to_string_var
        (cert_manager lib (λ t. t.additional_annotations)
          (λ v t. record t { additional_annotations = v }))
        (bytes "certificate-request-additional-annotations") none []
      ∷ []

  -- addServerFlags.
  abbrev pub server_flags : List (Flag lib)
  server_flags =
      string_var (server lib (λ t. t.serving_address) (λ v t. record t { serving_address = v }))
        (bytes "serving-address") (some b'a') (bytes "0.0.0.0:6443")
      ∷ duration_var
          (server lib (λ t. t.maximum_client_certificate_duration)
            (λ v t. record t { maximum_client_certificate_duration = v }))
          (bytes "max-client-certificate-duration") (some b'm') hour
      ∷ string_var (server lib (λ t. t.cluster_id) (λ v t. record t { cluster_id = v }))
          (bytes "cluster-id") none (bytes "Kubernetes")
      ∷ bool_var
          (server lib (λ t. t.authenticators.enable_client_cert)
            (λ v t. record t {
              authenticators = record t.authenticators { enable_client_cert = v };
            }))
          (bytes "enable-client-cert-authenticator") none false
      ∷ string_slice_var
          (server lib (λ t. t.ca_trusted_node_accounts)
            (λ v t. record t { ca_trusted_node_accounts = v }))
          (bytes "ca-trusted-node-accounts") none []
      ∷ []

  -- addControllerFlags.
  abbrev pub controller_flags : List (Flag lib)
  controller_flags =
      string_var
        (controller lib (λ t. t.leader_election_namespace)
          (λ v t. record t { leader_election_namespace = v }))
        (bytes "leader-election-namespace") none (bytes "istio-system")
      ∷ string_var
          (controller lib (λ t. t.config_map_namespace_selector)
            (λ v t. record t { config_map_namespace_selector = v }))
          (bytes "configmap-namespace-selector") none []
      ∷ bool_var
          (controller lib (λ t. t.disable_kubernetes_client_rate_limiter)
            (λ v t. record t { disable_kubernetes_client_rate_limiter = v }))
          (bytes "disable-kubernetes-client-rate-limiter") none false
      ∷ int_var
          (controller lib (λ t. t.max_concurrent_reconciles)
            (λ v t. record t { max_concurrent_reconciles = v }))
          (bytes "max-concurrent-reconciles") none (pos 1)
      ∷ []

  -- pkg/istiodcert/options.go, AddFlags.
  abbrev pub istiod_cert_flags : List (Flag lib)
  istiod_cert_flags =
      bool_var (istiod_cert lib (λ t. t.enabled) (λ v t. record t { enabled = v }))
        (bytes "istiod-cert-enabled") none false
      ∷ string_var
          (istiod_cert lib (λ t. t.certificate_name) (λ v t. record t { certificate_name = v }))
          (bytes "istiod-cert-name") none (bytes "istiod-dynamic")
      ∷ string_var
          (istiod_cert lib (λ t. t.certificate_namespace)
            (λ v t. record t { certificate_namespace = v }))
          (bytes "istiod-cert-namespace") none (bytes "istio-system")
      ∷ duration_var (istiod_cert lib (λ t. t.duration) (λ v t. record t { duration = v }))
          (bytes "istiod-cert-duration") none hour
      ∷ duration_var (istiod_cert lib (λ t. t.renew_before) (λ v t. record t { renew_before = v }))
          (bytes "istiod-cert-renew-before") none half_hour
      ∷ string_var (istiod_cert lib (λ t. t.key_algorithm) (λ v t. record t { key_algorithm = v }))
          (bytes "istiod-cert-key-algorithm") none (bytes "RSA")
      ∷ int_var (istiod_cert lib (λ t. t.key_size) (λ v t. record t { key_size = v }))
          (bytes "istiod-cert-key-size") none Validation.min_rsa_key_size
      ∷ string_slice_var
          (istiod_cert lib (λ t. t.additional_dns_names)
            (λ v t. record t { additional_dns_names = v }))
          (bytes "istiod-cert-additional-dns-names") none []
      ∷ string_to_string_var
          (istiod_cert lib (λ t. t.additional_annotations)
            (λ v t. record t { additional_annotations = v }))
          (bytes "istiod-cert-additional-annotations") none []
      ∷ string_slice_var
          (istiod_cert lib (λ t. t.istio_revisions) (λ v t. record t { istio_revisions = v }))
          (bytes "istiod-cert-istio-revisions") none []
      ∷ []
