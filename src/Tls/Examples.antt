-- ===== src/Tls/Examples.antt =====
-- Runs of the TLS provider, and its theorems at concrete options.
use istio_csr.Base.{◌≡◌, refl, none, some, [], ◌∷◌, ok, err, list_beq, list_eq, nat_eq}
use istio_csr.Base.Int64.{pos}
use istio_csr.Base.Text.{Str, bytes}
use istio_csr.Rootca.{add_all}
use istio_csr.Rootca.Examples.{plain_pools}
use istio_csr.Curves.Examples.{ascii, parsing}
use istio_csr.Server.Certificate.{Signer}
use istio_csr.Tls.{
  Options, Libraries, Provider, new_provider, apply_tls_security_settings, outer_config, seen,
  ready, config,
}
use istio_csr.Tls.Fetch.{
  unknown_algorithm, load_cas_root, cert_options, config_of, serve, update_roots, fetch_certificate,
  subscribed, fetched, run,
}
use istio_csr.Tls.Issued.{Fetches, fetch_certificate_iff}
use istio_csr.Tls.Attempts.{fetch_certificate-keeps}
use istio_csr.Tls.Secure.{Inv, run-new_provider-Inv}

-- A verifier is the roots, a key pair and the end of a certificate are the certificate.
abbrev pub libraries : Libraries
libraries = record {
  pools = plain_pools;
  Verifier = Str;
  KeyPair = Str;
  Time = Str;
  tls_version = λ name. some 0x0304;
  tls_cipher_suites = λ names. some [];
  runes = ascii;
  ecdsa_sig_alg = bytes "ECDSA";
  p256_curve = bytes "P256";
  p384_curve = bytes "P384";
  gen_csr = λ opts. some (bytes "csr", bytes "key");
  peer_cert_verifier = λ trust_domain roots. some roots;
  get_general_cert_pool = λ roots. roots ∷ [];
  x509_key_pair = λ certificate key. some certificate;
  decode_not_after = λ certificate. some certificate;
}

abbrev pub options : Options
options = record {
  trust_domain = bytes "td";
  root_cas_cert_file = [];
  serving_certificate_duration = pos 3600;
  serving_certificate_dns_names = bytes "csr" ∷ [];
  serving_certificate_key_size = pos 2048;
  serving_signature_algorithm = bytes "RSA";
  serving_tls_min_version = bytes "VersionTLS13";
  serving_tls_cipher_suites = [];
  serving_tls_curve_preferences = bytes "X25519" ∷ [];
}

abbrev pub provider : Provider libraries
provider = record {
  opts = options;
  root_cas = record { pem = []; cert_pool = none };
  serving_min_version = 0x0304;
  serving_cipher_suites = [];
  serving_curve_preferences = 29 ∷ [];
  tls_config = none;
  subscriptions = 0;
  pending = [];
}

pub new_run : new_provider libraries options ≡ ok provider
unfolding new_provider parsing
new_run = refl

abbrev pub signer : Signer Str
signer call = ok (record { certificate = bytes "cert"; ca = bytes "ca" })

-- What a run of a fetch unfolds.
unfoldable pub fetching : Unit {0}
unfolding fetch_certificate cert_options update_roots load_cas_root serve config_of
    apply_tls_security_settings add_all bytes list_beq
fetching = tt

abbrev pub after : Provider libraries
after = (fetch_certificate libraries signer provider).0

fetch_run : fetch_certificate libraries signer provider ≡ (after, ok (bytes "cert"))
unfolding fetching
fetch_run = refl

fetch_certificate_iff_example : Fetches libraries signer provider after (bytes "cert")
fetch_certificate_iff_example =
    (fetch_certificate_iff libraries signer provider after (bytes "cert")).0 fetch_run

-- A provider that serves, with an algorithm that is not known.
abbrev dsa : Provider libraries
dsa = record after { opts = record options { serving_signature_algorithm = bytes "DSA" } }

dsa_run : (fetch_certificate libraries signer dsa).1 ≡ err (unknown_algorithm (bytes "DSA"))
unfolding fetching
dsa_run = refl

fetch_certificate-keeps_example :
    (fetch_certificate libraries signer dsa).0.tls_config ≡ after.tls_config
fetch_certificate-keeps_example =
    fetch_certificate-keeps libraries signer dsa (unknown_algorithm (bytes "DSA")) dsa_run

run-new_provider-Inv_example :
    Inv libraries options (run libraries provider (subscribed ∷ fetched signer ∷ subscribed ∷ []))
run-new_provider-Inv_example =
    run-new_provider-Inv libraries options provider (subscribed ∷ fetched signer ∷ subscribed ∷ [])
      new_run

config_run :
    config libraries (seen provider ∷ seen after ∷ []) ≡ ready (outer_config libraries after)
unfolding config fetching
config_run = refl
