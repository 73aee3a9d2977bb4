-- ===== src/Tls.antt =====
-- pkg/tls/tls.go: the provider of the serving certificate, of the TLS configuration and of the
-- roots of the mesh.
pub mod Fetch
pub mod Startup
pub mod Fetched
pub mod Start
mod Renewals
pub mod Renewal
pub mod Runs
pub mod Uptime
pub mod Roots
pub mod Attempts
pub mod Listener
pub mod Secure
pub mod FromFile
pub mod Issued
pub mod Examples
use istio_csr.Base.{
  ℕ, suc, ◌≤◌, Bool, true, false, not, ◌&&◌, ◌||◌, Option, none, some, List, [], ◌∷◌, ◌++◌, Result,
  ok, err, ◌>>=◌, ◌>>◌, guard, or_fail, ◌==◌, list_eq, nat_eq, is_empty, ltb, nat_beq,
  if◌then◌else◌, map,
}
use istio_csr.Base.Int64.{ℤ}
use istio_csr.Base.Text.{Str}
use istio_csr.Rootca.{RootCas, Pools}
use istio_csr.Base.Utf8.{decode_runes}
use istio_csr.Curves.{CurveError, Runes, parse_curve_preferences}

pub record Options : Type 0 where
  pub trust_domain : Str
  pub root_cas_cert_file : Str
  pub serving_certificate_duration : ℤ
  pub serving_certificate_dns_names : List Str
  pub serving_certificate_key_size : ℤ
  pub serving_signature_algorithm : Str
  pub serving_tls_min_version : Str
  pub serving_tls_cipher_suites : List Str
  pub serving_tls_curve_preferences : List Str

-- istio's pkiutil.CertOptions.
pub record CertOptions : Type 0 where
  pub host : Str
  pub is_server : Bool
  pub ttl : ℤ
  pub ec_sig_alg : Str
  pub ecc_curve : Str
  pub rsa_key_size : ℤ

-- What the provider takes from the libraries.
pub record Libraries : Type 1 where
  pub pools : Pools
  pub Verifier : Type 0
  pub KeyPair : Type 0
  pub Time : Type 0
  -- k8s.io/component-base's cliflag.TLSVersion and TLSCipherSuites
  pub tls_version : Str → Option ℕ
  pub tls_cipher_suites : List Str → Option (List ℕ)
  pub runes : Runes
  -- pkiutil: EcdsaSigAlg, P256Curve, P384Curve and GenCSR, a CSR and its key
  pub ecdsa_sig_alg : Str
  pub p256_curve : Str
  pub p384_curve : Str
  pub gen_csr : CertOptions → Option (Str × Str)
  -- spiffe.NewPeerCertVerifier with AddMappingFromPEM, and GetGeneralCertPool
  pub peer_cert_verifier : Str → Str → Option Verifier
  pub get_general_cert_pool : Verifier → pools.Pool
  -- tls.X509KeyPair
  pub x509_key_pair : Str → Str → Option KeyPair
  -- pki.DecodeX509CertificateBytes, its NotAfter
  pub decode_not_after : Str → Option Time

-- tls.VersionTLS12.
abbrev pub version_tls12 : ℕ
version_tls12 = 0x0303

pub data ClientAuth : Type 0 where
  no_client_cert require_and_verify_client_cert verify_client_cert_if_given : ClientAuth

module _ (lib : Libraries) where
  open lib use {pools, Verifier, KeyPair, Time}

  -- crypto/tls's Config. `for_client` says that GetConfigForClient is the provider's; the verifier
  -- is the one that VerifyPeerCertificate calls.
  pub record Config : Type 0 where
    pub certificates : List KeyPair
    pub next_protos : List Str
    pub client_auth : ClientAuth
    pub client_cas : Option pools.Pool
    pub session_tickets_disabled : Bool
    pub verify_peer_certificate : Option Verifier
    pub for_client : Bool
    pub min_version : ℕ
    pub cipher_suites : List ℕ
    pub curve_preferences : List ℕ

  -- A subscription is its index; `pending` holds the indices that goroutines captured to send to.
  pub record Provider : Type 0 where
    pub opts : Options
    pub root_cas : RootCas pools.Pool
    pub serving_min_version : ℕ
    pub serving_cipher_suites : List ℕ
    pub serving_curve_preferences : List ℕ
    pub tls_config : Option Config
    pub subscriptions : ℕ
    pub pending : List ℕ

  pub data NewError : Type 0 where
    bad_min_version min_version_too_low bad_cipher_suites : NewError
    bad_curve_preferences : CurveError → NewError

  abbrev pub or_curve_error : Result CurveError (List ℕ) → Result NewError (List ℕ)
  or_curve_error (ok curves) = ok curves
  or_curve_error (err e) = err (bad_curve_preferences e)

  unfoldable pub new_provider : Options → Result NewError Provider
  new_provider opts = do
    min_version ← or_fail (lib.tls_version opts.serving_tls_min_version) bad_min_version
    guard (not (ltb min_version version_tls12)) min_version_too_low
    cipher_suites ← or_fail (lib.tls_cipher_suites opts.serving_tls_cipher_suites) bad_cipher_suites
    curves ←
        or_curve_error
          (parse_curve_preferences lib.runes (map decode_runes opts.serving_tls_curve_preferences))
    ok (record {
      opts = opts;
      root_cas = record { pem = []; cert_pool = none };
      serving_min_version = min_version;
      serving_cipher_suites = cipher_suites;
      serving_curve_preferences = curves;
      tls_config = none;
      subscriptions = 0;
      pending = [];
    })

  -- applyTLSSecuritySettings.
  unfoldable pub apply_tls_security_settings : Provider → Config → Config
  apply_tls_security_settings p cfg = record cfg {
    min_version =
        if ltb p.serving_min_version version_tls12 then version_tls12 else p.serving_min_version;
    cipher_suites =
        if not (is_empty p.serving_cipher_suites)
        then p.serving_cipher_suites
        else cfg.cipher_suites;
    curve_preferences =
        if not (is_empty p.serving_curve_preferences)
        then p.serving_curve_preferences
        else cfg.curve_preferences;
  }

  -- The zero Config of Go.
  abbrev pub no_config : Config
  no_config = record {
    certificates = [];
    next_protos = [];
    client_auth = no_client_cert;
    client_cas = none;
    session_tickets_disabled = false;
    verify_peer_certificate = none;
    for_client = false;
    min_version = 0;
    cipher_suites = [];
    curve_preferences = [];
  }

  -- Config, once a configuration is there.
  unfoldable pub outer_config : Provider → Config
  outer_config p =
      apply_tls_security_settings p
        (record no_config { for_client = true; client_auth = require_and_verify_client_cert })

  -- What a turn of the loops of Config and RootCAs finds: the provider of that moment, or the end
  -- of the context.
  pub data Turn : Type 0 where
    seen : Provider → Turn
    context_done : Turn

  pub data Waiting (A : Type 0) : Type 0 where
    blocked : Waiting A
    ready : A → Waiting A
    cancelled : Waiting A

  unfoldable pub config : List Turn → Waiting Config
  config [] = blocked
  config (context_done ∷ turns) = cancelled
  config (seen p ∷ turns) =
      let rest = config turns in elim p.tls_config [ none ↦ rest | some c ↦ ready (outer_config p) ]

  -- The roots are there: a PEM, and a pool.
  abbrev pub has_roots : Provider → Bool
  has_roots p = elim p.root_cas.cert_pool [
    | none ↦ false
    | some pool ↦ not (is_empty p.root_cas.pem)
  ]

  unfoldable pub root_cas : List Turn → Waiting (RootCas pools.Pool)
  root_cas [] = blocked
  root_cas (context_done ∷ turns) = cancelled
  root_cas (seen p ∷ turns) =
      let rest = root_cas turns in if not (has_roots p) then rest else ready p.root_cas

  -- The pointer that RootCAs returns: nil where the context has ended. Where it waits on, it returns
  -- nothing.
  abbrev pub pointer : Waiting (RootCas pools.Pool) → Option (RootCas pools.Pool)
  pointer blocked = none
  pointer cancelled = none
  pointer (ready r) = some r

  -- getConfigForClient, and Check, true for no error.
  abbrev pub get_config_for_client : Provider → Option Config
  get_config_for_client p = p.tls_config

  unfoldable pub check : Provider → Bool
  check p = elim p.tls_config [ none ↦ false | some c ↦ true ]

  -- SubscribeRootCAsEvent: the new subscription is the last one.
  unfoldable pub subscribe_root_cas_event : Provider → Provider × ℕ
  subscribe_root_cas_event p = (record p { subscriptions = suc p.subscriptions }, p.subscriptions)
