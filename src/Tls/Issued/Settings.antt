-- ===== src/Tls/Issued/Settings.antt =====
-- pkg/tls/tls.go, fetchCertificate: the configuration that a bundle is served with.
use istio_csr.Base.{
  ℕ, ◌<◌, ◌≤◌, ◌≡◌, ◌≢◌, refl, sym, ◌∙◌, inl, inr, true, false, some, List, [], ◌∷◌, arith,
  is_empty, is_empty_complete, not, if◌then◌else◌, ltb, list_eq, nat_eq, Bool-cases, Option-cases,
}
use istio_csr.Base.Text.{Str, bytes}
use istio_csr.Certmanager.{Bundle}
use istio_csr.Tls.{
  Libraries, Config, Provider, verify_client_cert_if_given, has_roots, apply_tls_security_settings,
}
use istio_csr.Tls.Fetched.{Serves}

module _ (lib : Libraries) where
  open lib use {Verifier, KeyPair, Time, pools}

  -- The lowest version that is served: TLS 1.2, or the one of the options where that is higher.
  pub data IsFloor (chosen : ℕ) : ℕ → Type 0 where
    raised : chosen < 0x0303 → IsFloor chosen 0x0303
    kept : 0x0303 ≤ chosen → IsFloor chosen chosen

  -- What a key pair and a verifier serve from a version on, with the settings of the provider.
  abbrev pub served : Provider lib → Verifier → KeyPair → ℕ → Config lib
  served p verifier key_pair version = record {
    certificates = key_pair ∷ [];
    next_protos = bytes "h2" ∷ [];
    client_auth = verify_client_cert_if_given;
    client_cas = some (lib.get_general_cert_pool verifier);
    session_tickets_disabled = true;
    verify_peer_certificate = some verifier;
    for_client = false;
    min_version = version;
    cipher_suites = p.serving_cipher_suites;
    curve_preferences = p.serving_curve_preferences;
  }

  floored :
      {chosen version : ℕ}
      → IsFloor chosen version
      → (if ltb chosen 0x0303 then 0x0303 else chosen) ≡ version
  floored (raised low) = ground (arith, low)
  floored (kept high) = ground (arith, high)

  or_nil {ℓ} : {A : Type ℓ} (xs : List A) → (if not (is_empty xs) then xs else []) ≡ xs
  or_nil [] = refl
  or_nil (x ∷ xs) = refl

  settings :
      (p : Provider lib) (verifier : Verifier) (key_pair : KeyPair) {version : ℕ}
      → IsFloor p.serving_min_version version
      → apply_tls_security_settings lib p
          (record (served p verifier key_pair 0) { cipher_suites = []; curve_preferences = [] })
        ≡ served p verifier key_pair version
  unfolding apply_tls_security_settings
  settings p verifier key_pair f =
      ground (arith, floored f, or_nil p.serving_cipher_suites, or_nil p.serving_curve_preferences)

  -- The configuration for a bundle and its key, and the end of the certificate.
  pub record IsConfig (p : Provider lib) (bundle : Bundle) (pk : Str) (c : Config lib)
      (not_after : Time) : Type 0 where
    pub filled : p.root_cas.pem ≢ []
    pub pool : pools.Pool
    pub pooled : p.root_cas.cert_pool ≡ some pool
    pub verifier : Verifier
    pub mapped : lib.peer_cert_verifier p.opts.trust_domain p.root_cas.pem ≡ some verifier
    pub key_pair : KeyPair
    pub paired : lib.x509_key_pair bundle.certificate pk ≡ some key_pair
    pub ends : lib.decode_not_after bundle.certificate ≡ some not_after
    pub version : ℕ
    pub floor : IsFloor p.serving_min_version version
    pub config_eq : c ≡ served p verifier key_pair version

  rooted_filled :
      (p : Provider lib) {pool : pools.Pool}
      → p.root_cas.cert_pool ≡ some pool
      → has_roots lib p ≡ true
      → p.root_cas.pem ≢ []
  rooted_filled p pooled rooted e = ground (arith, pooled, rooted)

  pub Serves-IsConfig :
      {p : Provider lib} {bundle : Bundle} {pk : Str} {c : Config lib} {t : Time}
      → Serves lib p bundle pk c t
      → IsConfig p bundle pk c t
  unfolding apply_tls_security_settings
  Serves-IsConfig {p} s = elim (Option-cases p.root_cas.cert_pool) [
    | inl missing ↦ absurd (ground (arith, s.rooted, missing))
    | inr (pool, pooled) ↦
        let filled = rooted_filled p pooled s.rooted in
        elim (Bool-cases (ltb p.serving_min_version 0x0303)) [
          | inl low ↦ record {
            filled = filled;
            pool = pool;
            pooled = pooled;
            verifier = s.verifier;
            mapped = s.mapped;
            key_pair = s.key_pair;
            paired = s.paired;
            ends = s.ends;
            version = 0x0303;
            floor = raised (ground (arith, low));
            config_eq =
                s.config_eq ∙ settings p s.verifier s.key_pair (raised (ground (arith, low)));
          }
          | inr high ↦ record {
            filled = filled;
            pool = pool;
            pooled = pooled;
            verifier = s.verifier;
            mapped = s.mapped;
            key_pair = s.key_pair;
            paired = s.paired;
            ends = s.ends;
            version = p.serving_min_version;
            floor = kept (ground (arith, high));
            config_eq =
                s.config_eq ∙ settings p s.verifier s.key_pair (kept (ground (arith, high)));
          }
        ]
  ]

  pub IsConfig-Serves :
      {p : Provider lib} {bundle : Bundle} {pk : Str} {c : Config lib} {t : Time}
      → IsConfig p bundle pk c t
      → Serves lib p bundle pk c t
  unfolding apply_tls_security_settings
  IsConfig-Serves {p} i = record {
    rooted = ground (arith, i.pooled, is_empty_complete p.root_cas.pem i.filled);
    verifier = i.verifier;
    mapped = i.mapped;
    key_pair = i.key_pair;
    paired = i.paired;
    ends = i.ends;
    config_eq = i.config_eq ∙ sym (settings p i.verifier i.key_pair i.floor);
  }
