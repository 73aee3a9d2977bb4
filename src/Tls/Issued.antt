-- ===== src/Tls/Issued.antt =====
-- pkg/tls/tls.go, fetchCertificate: when a serving certificate is fetched, and what is served then.
pub mod Key
pub mod Trust
pub mod Settings
use istio_csr.Base.{
  ℕ, ◌<◌, ◌≤◌, ◌≡◌, ◌≢◌, refl, sym, subst, ◌∙◌, ◌↔◌, inl, inr, true, false, Option, some, List, [],
  ◌∷◌, ◌++◌, arith, ok, is_empty, not, if◌then◌else◌, ltb, ◌==◌, list_eq, nat_eq, list_beq,
  list_beq_iff, Bool-cases, Option-cases,
}
use istio_csr.Base.Int64.{pos, is_int, is_int_iff}
use istio_csr.Base.Text.{Str, bytes, join_with}
use istio_csr.Rootca.{RootCas, roots_of}
use istio_csr.Certmanager.{Bundle, usage_server_auth}
use istio_csr.Server.Certificate.{Signer}
use istio_csr.Tls.{
  Options, CertOptions, Libraries, Config, Provider, verify_client_cert_if_given, has_roots,
  apply_tls_security_settings,
}
use istio_csr.Tls.Fetch.{indices, cert_options, update_roots, load_cas_root, fetch_certificate}
use istio_csr.Tls.Roots.{Loads, unchanged, undecodable, changed, load_cas_root-Loads}
use istio_csr.Tls.Fetched.{Serves, IsFetched, IsFetched-sound, IsFetched-complete}
use istio_csr.Tls.Issued.Key.{IsCertOptions, cert_options_sound, cert_options_complete}
use istio_csr.Tls.Issued.Trust.{Roots, update_roots_sound, update_roots_complete}
use istio_csr.Tls.Issued.Settings.{IsConfig, Serves-IsConfig, IsConfig-Serves}

-- What stands behind a fetched certificate, the provider afterwards and the end of the certificate.
pub record Fetches (lib : Libraries) {E : Type 0} (signer : Signer E) (p after : Provider lib)
    (not_after : lib.Time) : Type 0 where
  pub options : CertOptions
  pub chosen : IsCertOptions lib p.opts options
  pub csr : Str
  pub pk : Str
  pub generated : lib.gen_csr options ≡ some (csr, pk)
  pub bundle : Bundle
  pub signed :
      signer (record {
        identities = bytes "istio-csr-serving";
        csr = csr;
        duration = p.opts.serving_certificate_duration;
        usages = usage_server_auth ∷ [];
      })
      ≡ ok bundle
  pub p' : Provider lib
  pub roots : Roots lib p bundle p'
  pub c : Config lib
  pub config : IsConfig lib p' bundle pk c not_after
  pub after_eq : after ≡ record p' { tls_config = some c }

IsFetched-Fetches :
    (lib : Libraries) {E : Type 0} (signer : Signer E) (p : Provider lib) {after : Provider lib}
    {t : lib.Time}
    → IsFetched lib signer p after t
    → Fetches lib signer p after t
IsFetched-Fetches lib signer p f = record {
  options = f.options;
  chosen = cert_options_sound lib p.opts f.chosen;
  csr = f.csr;
  pk = f.pk;
  generated = f.generated;
  bundle = f.bundle;
  signed = f.signed;
  p' = f.p';
  roots = update_roots_sound lib f.updated;
  c = f.c;
  config = Serves-IsConfig lib f.serves;
  after_eq = f.after_eq;
}

Fetches-IsFetched :
    (lib : Libraries) {E : Type 0} (signer : Signer E) (p : Provider lib) {after : Provider lib}
    {t : lib.Time}
    → Fetches lib signer p after t
    → IsFetched lib signer p after t
Fetches-IsFetched lib signer p f = record {
  options = f.options;
  chosen = cert_options_complete lib p.opts f.chosen;
  csr = f.csr;
  pk = f.pk;
  generated = f.generated;
  bundle = f.bundle;
  signed = f.signed;
  p' = f.p';
  updated = update_roots_complete lib f.roots;
  c = f.c;
  serves = IsConfig-Serves lib f.config;
  after_eq = f.after_eq;
}

-- A fetch succeeds exactly where the options name RSA, or ECDSA with 256 or 384 bits, a CSR is made
-- for that key and the DNS names, and the signer gives a bundle for the serving identity, the serving
-- duration and server authentication; the roots are then those of the file, or of the bundle's CA
-- where no file is given, and the bundle serves with them, from TLS 1.2 on and with the settings of
-- the provider. The new configuration is then in place.
pub fetch_certificate_iff :
    (lib : Libraries) {E : Type 0} (signer : Signer E) (p after : Provider lib) (t : lib.Time)
    → (fetch_certificate lib signer p ≡ (after, ok t)) ↔ Fetches lib signer p after t
fetch_certificate_iff lib signer p after t = (
  λ e. IsFetched-Fetches lib signer p (IsFetched-sound lib signer p e),
  λ f. IsFetched-complete lib signer p (Fetches-IsFetched lib signer p f),
)
