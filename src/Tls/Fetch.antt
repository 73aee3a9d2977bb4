-- ===== src/Tls/Fetch.antt =====
-- pkg/tls/tls.go: fetchCertificate and loadCAsRoot, and the events that change the provider.
use istio_csr.Base.{
  ℕ, zero, suc, true, false, Option, none, some, List, [], ◌∷◌, ◌++◌, Result, ok, err, ◌>>=◌, ◌>>◌,
  guard, or_fail, ◌==◌, list_eq, nat_eq, is_empty, if◌then◌else◌,
}
use istio_csr.Base.Int64.{ℤ, pos, is_int}
use istio_csr.Base.Text.{Str, bytes, join_with}
use istio_csr.Certmanager.{usage_server_auth}
use istio_csr.Rootca.{RootCas, roots_of}
use istio_csr.Server.Certificate.{SignCall, Signer}
use istio_csr.Certmanager.{Bundle}
use istio_csr.Tls.{
  Options, CertOptions, Libraries, verify_client_cert_if_given, Config, Provider, has_roots,
  apply_tls_security_settings, subscribe_root_cas_event,
}

-- The errors of fetchCertificate.
pub data FetchError (E : Type 0) : Type 0 where
  unsupported_key_size : ℤ → FetchError E
  unknown_algorithm : Str → FetchError E
  csr_failed : FetchError E
  sign_failed : E → FetchError E
  bad_ca no_root_ca bad_root_mapping bad_key_pair bad_certificate : FetchError E

-- The indices below n.
abbrev pub indices : ℕ → List ℕ
indices zero = []
indices (suc k) = indices k ++ k ∷ []

module _ (lib : Libraries) where
  open lib use {pools, Time}

  -- One goroutine for each subscription, by its index.
  abbrev pub announce : Provider lib → Provider lib
  announce p = record p { pending = p.pending ++ indices p.subscriptions }

  -- loadCAsRoot; none for an error.
  unfoldable pub load_cas_root : Provider lib → Str → Option (Provider lib)
  load_cas_root p root_cas_pem =
      if p.root_cas.pem == root_cas_pem then some p else elim (roots_of pools root_cas_pem) [
        | none ↦ none
        | some root_cas ↦ some (announce (record p { root_cas = root_cas }))
      ]

  abbrev pub sign_call : Options → Str → SignCall
  sign_call opts csr = record {
    identities = bytes "istio-csr-serving";
    csr = csr;
    duration = opts.serving_certificate_duration;
    usages = usage_server_auth ∷ [];
  }

  -- Where no root file is given, the bundle's CA becomes the roots.
  unfoldable pub update_roots : Provider lib → Bundle → Option (Provider lib)
  update_roots p bundle =
      if is_empty p.opts.root_cas_cert_file then load_cas_root p bundle.ca else some p

  module _ {E : Type 0} where
    -- The options of the CSR, by the signature algorithm.
    unfoldable pub cert_options : Options → Result (FetchError E) CertOptions
    cert_options opts =
        let base : CertOptions = record {
          host = join_with (b',' ∷ []) opts.serving_certificate_dns_names;
          is_server = true;
          ttl = opts.serving_certificate_duration;
          ec_sig_alg = [];
          ecc_curve = [];
          rsa_key_size = pos 0;
        } in
        let size = opts.serving_certificate_key_size in
        if opts.serving_signature_algorithm == bytes "RSA"
        then ok (record base { rsa_key_size = size })
        else if opts.serving_signature_algorithm == bytes "ECDSA"
        then (if is_int size 256
            then ok (record base { ec_sig_alg = lib.ecdsa_sig_alg; ecc_curve = lib.p256_curve })
            else if is_int size 384
            then ok (record base { ec_sig_alg = lib.ecdsa_sig_alg; ecc_curve = lib.p384_curve })
            else err (unsupported_key_size size))
        else err (unknown_algorithm opts.serving_signature_algorithm)

    -- The configuration that serves a bundle with its key, and when the certificate ends.
    unfoldable pub config_of :
        Provider lib → Bundle → Str → Result (FetchError E) (Config lib × Time)
    config_of p bundle pk = do
      guard (has_roots lib p) no_root_ca
      verifier ←
          or_fail (lib.peer_cert_verifier p.opts.trust_domain p.root_cas.pem) bad_root_mapping
      tls_cert ← or_fail (lib.x509_key_pair bundle.certificate pk) bad_key_pair
      not_after ← or_fail (lib.decode_not_after bundle.certificate) bad_certificate
      let inner : Config lib = record {
        certificates = tls_cert ∷ [];
        next_protos = bytes "h2" ∷ [];
        client_auth = verify_client_cert_if_given;
        client_cas = some (lib.get_general_cert_pool verifier);
        session_tickets_disabled = true;
        verify_peer_certificate = some verifier;
        for_client = false;
        min_version = 0;
        cipher_suites = [];
        curve_preferences = [];
      }
      ok (apply_tls_security_settings lib p inner, not_after)

    -- The part of fetchCertificate under its lock.
    unfoldable pub serve : Provider lib → Bundle → Str → Provider lib × Result (FetchError E) Time
    serve p bundle pk = elim (config_of p bundle pk) [
      | err e ↦ (p, err e)
      | ok (inner, not_after) ↦ (record p { tls_config = some inner }, ok not_after)
    ]

    -- fetchCertificate. `p` is the provider as the lock is taken: nothing before that reads what
    -- other goroutines change. The metric's label is 1 exactly for a result.
    unfoldable pub fetch_certificate :
        Signer E → Provider lib → Provider lib × Result (FetchError E) Time
    fetch_certificate signer p = elim (cert_options p.opts) [
      | err e ↦ (p, err e)
      | ok options ↦ elim (lib.gen_csr options) [
        | none ↦ (p, err csr_failed)
        | some (csr, pk) ↦ elim (signer (sign_call p.opts csr)) [
          | err e ↦ (p, err (sign_failed e))
          | ok bundle ↦ elim (update_roots p bundle) [
            | none ↦ (p, err bad_ca)
            | some p' ↦ serve p' bundle pk
          ]
        ]
      ]
    ]

  -- What changes a provider: a subscription, new roots from the file's watcher, a fetch with a
  -- signer that answers as it does then, and the end of Start.
  pub data Event (E : Type 0) : Type 0 where
    subscribed : Event E
    file_changed : RootCas pools.Pool → Event E
    fetched : Signer E → Event E
    stopped : Event E

  -- A file is watched only where one is given.
  unfoldable pub step : {E : Type 0} → Provider lib → Event E → Provider lib
  step p subscribed = (subscribe_root_cas_event lib p).0
  step p (file_changed root_cas) =
      if is_empty p.opts.root_cas_cert_file then p else announce (record p { root_cas = root_cas })
  step p (fetched signer) = (fetch_certificate signer p).0
  step p stopped = record p { tls_config = none }

  unfoldable pub run : {E : Type 0} → Provider lib → List (Event E) → Provider lib
  run p [] = p
  run p (e ∷ es) = run (step p e) es
