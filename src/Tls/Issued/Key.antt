-- ===== src/Tls/Issued/Key.antt =====
-- pkg/tls/tls.go, fetchCertificate: the key that a CSR is made for.
use istio_csr.Base.{
  ◌≡◌, subst, inl, inr, true, [], ◌∷◌, arith, ok, ◌==◌, list_eq, nat_eq, list_beq, list_beq_iff,
  Bool-cases,
}
use istio_csr.Base.Int64.{pos, is_int, is_int_iff}
use istio_csr.Base.Text.{bytes, join_with}
use istio_csr.Tls.{Options, CertOptions, Libraries}
use istio_csr.Tls.Fetch.{cert_options}

module _ (lib : Libraries) where
  -- The options of a CSR, for each key that the options of the provider can name.
  pub data IsCertOptions (opts : Options) : CertOptions → Type 0 where
    rsa :
        opts.serving_signature_algorithm ≡ bytes "RSA"
        → IsCertOptions opts (record {
          host = join_with (b',' ∷ []) opts.serving_certificate_dns_names;
          is_server = true;
          ttl = opts.serving_certificate_duration;
          ec_sig_alg = [];
          ecc_curve = [];
          rsa_key_size = opts.serving_certificate_key_size;
        })
    p256 :
        opts.serving_signature_algorithm ≡ bytes "ECDSA"
        → opts.serving_certificate_key_size ≡ pos 256
        → IsCertOptions opts (record {
          host = join_with (b',' ∷ []) opts.serving_certificate_dns_names;
          is_server = true;
          ttl = opts.serving_certificate_duration;
          ec_sig_alg = lib.ecdsa_sig_alg;
          ecc_curve = lib.p256_curve;
          rsa_key_size = pos 0;
        })
    p384 :
        opts.serving_signature_algorithm ≡ bytes "ECDSA"
        → opts.serving_certificate_key_size ≡ pos 384
        → IsCertOptions opts (record {
          host = join_with (b',' ∷ []) opts.serving_certificate_dns_names;
          is_server = true;
          ttl = opts.serving_certificate_duration;
          ec_sig_alg = lib.ecdsa_sig_alg;
          ecc_curve = lib.p384_curve;
          rsa_key_size = pos 0;
        })

  pub cert_options_sound :
      {E : Type 0} (opts : Options) {o : CertOptions}
      → cert_options lib {E = E} opts ≡ ok o
      → IsCertOptions opts o
  unfolding cert_options
  cert_options_sound opts e = elim (Bool-cases (opts.serving_signature_algorithm == bytes "RSA")) [
    | inl is_rsa ↦
        subst (IsCertOptions opts) (ground arith)
          (rsa ((list_beq_iff opts.serving_signature_algorithm (bytes "RSA")).0 is_rsa))
    | inr other ↦ elim (Bool-cases (opts.serving_signature_algorithm == bytes "ECDSA")) [
      | inr unknown ↦ absurd (ground arith)
      | inl is_ecdsa ↦
          let ecdsa = (list_beq_iff opts.serving_signature_algorithm (bytes "ECDSA")).0 is_ecdsa in
          elim (Bool-cases (is_int opts.serving_certificate_key_size 256)) [
            | inl small ↦
                subst (IsCertOptions opts) (ground arith)
                  (p256 ecdsa ((is_int_iff opts.serving_certificate_key_size 256).0 small))
            | inr not_small ↦ elim (Bool-cases (is_int opts.serving_certificate_key_size 384)) [
              | inl large ↦
                  subst (IsCertOptions opts) (ground arith)
                    (p384 ecdsa ((is_int_iff opts.serving_certificate_key_size 384).0 large))
              | inr unsupported ↦ absurd (ground arith)
            ]
          ]
    ]
  ]

  pub cert_options_complete :
      {E : Type 0} (opts : Options) {o : CertOptions}
      → IsCertOptions opts o
      → cert_options lib {E = E} opts ≡ ok o
  unfolding cert_options bytes list_beq
  cert_options_complete opts (rsa a) = ground arith
  cert_options_complete opts (p256 a s) = ground arith
  cert_options_complete opts (p384 a s) = ground arith
