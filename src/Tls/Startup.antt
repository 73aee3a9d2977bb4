-- ===== src/Tls/Startup.antt =====
-- When NewProvider succeeds.
use istio_csr.Base.{
  ◌≤◌, ◌≡◌, ◌↔◌, inl, inr, none, some, [], arith, ok, Option-cases, Result-cases, map,
}
use istio_csr.Base.Utf8.{decode_runes}
use istio_csr.Curves.{parse_curve_preferences}
use istio_csr.Curves.Denoted.{Denote, parse_curve_preferences_iff}
use istio_csr.Tls.{Options, Libraries, Provider, version_tls12, new_provider}

-- The provider of the options: its settings are those that they name, at least TLS 1.2, and it has
-- no roots, no configuration and no subscriber yet.
pub record IsNew (lib : Libraries) (opts : Options) (p : Provider lib) : Type 0 where
  pub version : lib.tls_version opts.serving_tls_min_version ≡ some p.serving_min_version
  pub at_least : version_tls12 ≤ p.serving_min_version
  pub suites : lib.tls_cipher_suites opts.serving_tls_cipher_suites ≡ some p.serving_cipher_suites
  pub curves :
      Denote lib.runes
        (map decode_runes opts.serving_tls_curve_preferences)
        p.serving_curve_preferences
  pub opts_same : p.opts ≡ opts
  pub no_roots : p.root_cas ≡ record { pem = []; cert_pool = none }
  pub no_config : p.tls_config ≡ none
  pub no_subscriptions : p.subscriptions ≡ 0
  pub no_pending : p.pending ≡ []

module _ (lib : Libraries) (opts : Options) where
  new_provider_sound : {p : Provider lib} → new_provider lib opts ≡ ok p → IsNew lib opts p
  unfolding new_provider
  new_provider_sound {p} e = elim (Option-cases (lib.tls_version opts.serving_tls_min_version)) [
    | inl bad ↦ ground arith
    | inr (v, version) ↦
        elim (Option-cases (lib.tls_cipher_suites opts.serving_tls_cipher_suites)) [
          | inl bad ↦ ground arith
          | inr (ss, suites) ↦
              elim (Result-cases (
                parse_curve_preferences lib.runes
                  (map decode_runes opts.serving_tls_curve_preferences))) [
                    | inr (x, bad) ↦ ground arith
                    | inl (cs, curves) ↦ record {
                      version = ground arith;
                      at_least = ground arith;
                      suites = ground arith;
                      curves =
                          (parse_curve_preferences_iff lib.runes
                              (map decode_runes opts.serving_tls_curve_preferences)
                              p.serving_curve_preferences).0
                            (ground arith);
                      opts_same = ground arith;
                      no_roots = ground arith;
                      no_config = ground arith;
                      no_subscriptions = ground arith;
                      no_pending = ground arith;
                    }
                  ]
        ]
  ]

  new_provider_complete : {p : Provider lib} → IsNew lib opts p → new_provider lib opts ≡ ok p
  unfolding new_provider
  new_provider_complete {p} n = ground (
    arith,
    (parse_curve_preferences_iff lib.runes (map decode_runes opts.serving_tls_curve_preferences)
          p.serving_curve_preferences).1
        n.curves,
  )

-- NewProvider succeeds exactly where the named minimum version is known and at least TLS 1.2, the
-- cipher suites are known and the curve preferences denote curves; the provider then has just those
-- settings, and no roots, no configuration and no subscriber.
pub new_provider_iff :
    (lib : Libraries) (opts : Options) (p : Provider lib)
    → (new_provider lib opts ≡ ok p) ↔ IsNew lib opts p
new_provider_iff lib opts p = (new_provider_sound lib opts, new_provider_complete lib opts)
