-- ===== src/Tls/Fetched.antt =====
-- The steps of a fetch that succeeds.
use istio_csr.Base.{
  ◌≡◌, inl, inr, true, false, some, [], ◌∷◌, arith, ok, Option-cases, Result-cases,
}
use istio_csr.Base.Text.{Str, bytes}
use istio_csr.Certmanager.{Bundle}
use istio_csr.Server.Certificate.{Signer}
use istio_csr.Tls.{
  CertOptions, Libraries, Config, Provider, verify_client_cert_if_given, has_roots,
  apply_tls_security_settings,
}
use istio_csr.Tls.Fetch.{cert_options, config_of, serve, sign_call, update_roots, fetch_certificate}

module _ (lib : Libraries) where
  open lib use {Verifier, KeyPair, Time}

  -- What stands behind a configuration for a bundle and its key: roots, a verifier of the trust
  -- domain made from them, and the bundle's certificate with the key.
  pub record Serves (p : Provider lib) (bundle : Bundle) (pk : Str) (c : Config lib)
      (not_after : Time) : Type 0 where
    pub rooted : has_roots lib p ≡ true
    pub verifier : Verifier
    pub mapped : lib.peer_cert_verifier p.opts.trust_domain p.root_cas.pem ≡ some verifier
    pub key_pair : KeyPair
    pub paired : lib.x509_key_pair bundle.certificate pk ≡ some key_pair
    pub ends : lib.decode_not_after bundle.certificate ≡ some not_after
    pub config_eq :
        c
        ≡ apply_tls_security_settings lib p (record {
          certificates = key_pair ∷ [];
          next_protos = bytes "h2" ∷ [];
          client_auth = verify_client_cert_if_given;
          client_cas = some (lib.get_general_cert_pool verifier);
          session_tickets_disabled = true;
          verify_peer_certificate = some verifier;
          for_client = false;
          min_version = 0;
          cipher_suites = [];
          curve_preferences = [];
        })

module _ (lib : Libraries) {E : Type 0} where
  open lib use {Time}

  config_of_sound :
      (p : Provider lib) (bundle : Bundle) (pk : Str) {c : Config lib} {t : Time}
      → config_of lib {E = E} p bundle pk ≡ ok (c, t)
      → Serves lib p bundle pk c t
  unfolding config_of
  config_of_sound p bundle pk e =
      elim (Option-cases (lib.peer_cert_verifier p.opts.trust_domain p.root_cas.pem)) [
        | inl bad ↦ ground arith
        | inr (v, mapped) ↦ elim (Option-cases (lib.x509_key_pair bundle.certificate pk)) [
          | inl bad ↦ ground arith
          | inr (k, paired) ↦ elim (Option-cases (lib.decode_not_after bundle.certificate)) [
            | inl bad ↦ ground arith
            | inr (t', ends) ↦ record {
              rooted = ground arith;
              verifier = v;
              mapped = mapped;
              key_pair = k;
              paired = paired;
              ends = ground arith;
              config_eq = ground arith;
            }
          ]
        ]
      ]

  config_of_complete :
      (p : Provider lib) (bundle : Bundle) (pk : Str) {c : Config lib} {t : Time}
      → Serves lib p bundle pk c t
      → config_of lib {E = E} p bundle pk ≡ ok (c, t)
  unfolding config_of
  config_of_complete p bundle pk s =
      ground (arith, s.rooted, s.mapped, s.paired, s.ends, s.config_eq)

  -- What stands behind a fetched certificate; `p'` is the provider with the bundle's roots.
  pub record IsFetched (signer : Signer E) (p : Provider lib) (after : Provider lib)
      (not_after : Time) : Type 0 where
    pub options : CertOptions
    pub chosen : cert_options lib {E = E} p.opts ≡ ok options
    pub csr : Str
    pub pk : Str
    pub generated : lib.gen_csr options ≡ some (csr, pk)
    pub bundle : Bundle
    pub signed : signer (sign_call lib p.opts csr) ≡ ok bundle
    pub p' : Provider lib
    pub updated : update_roots lib p bundle ≡ some p'
    pub c : Config lib
    pub serves : Serves lib p' bundle pk c not_after
    pub after_eq : after ≡ record p' { tls_config = some c }

  serve_sound :
      (p : Provider lib) (bundle : Bundle) (pk : Str) {after : Provider lib} {t : Time}
      → serve lib {E = E} p bundle pk ≡ (after, ok t)
      → (c : Config lib) × Serves lib p bundle pk c t × (after ≡ record p { tls_config = some c })
  unfolding serve
  serve_sound p bundle pk e = elim (Result-cases (config_of lib {E = E} p bundle pk)) [
    | inr (x, bad) ↦ ground arith
    | inl ((c, t'), good) ↦ (c, config_of_sound p bundle pk (ground arith), ground arith)
  ]

  pub IsFetched-sound :
      (signer : Signer E) (p : Provider lib) {after : Provider lib} {t : Time}
      → fetch_certificate lib signer p ≡ (after, ok t)
      → IsFetched signer p after t
  unfolding fetch_certificate
  IsFetched-sound signer p {after} {t} e = elim (Result-cases (cert_options lib {E = E} p.opts)) [
    | inr (x, bad) ↦ ground arith
    | inl (options, chosen) ↦ elim (Option-cases (lib.gen_csr options)) [
      | inl bad ↦ ground arith
      | inr ((csr, pk), generated) ↦ elim (Result-cases (signer (sign_call lib p.opts csr))) [
        | inr (x, bad) ↦ ground arith
        | inl (bundle, signed) ↦ elim (Option-cases (update_roots lib p bundle)) [
          | inl bad ↦ ground arith
          | inr (p', updated) ↦
              let (c, serves, after_eq) =
                serve_sound p' bundle pk {after = after} {t = t} (ground arith) in
              record {
                options = options;
                chosen = chosen;
                csr = csr;
                pk = pk;
                generated = generated;
                bundle = bundle;
                signed = signed;
                p' = p';
                updated = updated;
                c = c;
                serves = serves;
                after_eq = after_eq;
              }
        ]
      ]
    ]
  ]

  pub IsFetched-complete :
      (signer : Signer E) (p : Provider lib) {after : Provider lib} {t : Time}
      → IsFetched signer p after t
      → fetch_certificate lib signer p ≡ (after, ok t)
  unfolding fetch_certificate serve
  IsFetched-complete signer p f = ground (
    arith,
    f.chosen,
    f.generated,
    f.signed,
    f.updated,
    config_of_complete f.p' f.bundle f.pk f.serves,
    f.after_eq,
  )
