-- ===== src/Server/Answers.antt =====
-- Runs of CreateCertificate: the chain that answers a node proxy, and the durations that clients
-- ask for.
use istio_csr.Base.{
  ◌≡◌, ◌≢◌, refl, ◌^◌, ◌*◌, ◌-◌, true, Option, none, some, List, [], ◌∷◌, arith, ok, list_eq,
  nat_eq,
}
use istio_csr.Base.Int64.{ℤ, pos, negsuc, ◌<ℤ◌}
use istio_csr.Rootca.{RootCas}
use istio_csr.Base.Text.{Str, bytes}
use istio_csr.Certmanager.{Bundle}
use istio_csr.Server.Certificate.{
  IstioCertificateRequest, second, requested_duration, Pki, Signer, encode_all, chain_of,
  parse_certificate_bundle, create_certificate,
}
use istio_csr.Server.Certificate.Served.{
  Asks, IsServed, create_certificate-Asks, create_certificate_iff,
}
use istio_csr.Server.Certificate.Duration.{requested_duration_wraps}
use istio_csr.Server.Requests.{libraries, authenticators, asking, authorizer, asking_authorized}

-- A chain is its text, a certificate its text too, and every verification succeeds.
abbrev pub plain_pki : (Pool : Type 0) → Pki Pool
plain_pki Pool = record {
  Certificate = Str;
  parse_single_certificate_chain_pem = λ s. some s;
  decode_x509_certificate_chain_bytes = λ s. some (s ∷ bytes "intermediate" ∷ []);
  verify = λ leaf intermediates pool. true;
  encode_x509 = λ c. some c;
}

abbrev pub mesh : Option (RootCas Unit)
mesh = some (record { pem = bytes "roots"; cert_pool = some tt })

abbrev pub issued : Bundle
issued = record { certificate = bytes "leaf"; ca = [] }

abbrev pub chain : List Str
chain = bytes "leaf" ∷ bytes "intermediate" ∷ bytes "roots" ∷ []

abbrev no_error : Option Str
no_error = none

mesh_given : mesh ≡ none → no_error ≢ none
mesh_given e = λ _. cc

chain_run : parse_certificate_bundle (plain_pki Unit) mesh no_error issued ≡ ok chain
unfolding parse_certificate_bundle chain_of encode_all bytes
chain_run = refl

abbrev always : Signer Str
always call = ok issued

abbrev hour : ℤ
hour = pos 3_600_000_000_000

abbrev request : IstioCertificateRequest
request = record { request = asking; validity_duration = pos 60 }

served_run :
    (create_certificate libraries
      (plain_pki Unit)
      (some authorizer)
      hour
      authenticators
      always
      tt
      mesh
      no_error
      request).0
    ≡ ok chain
unfolding create_certificate
served_run = ground (arith, asking_authorized, chain_run)

create_certificate_iff_example :
    IsServed libraries
      (plain_pki Unit)
      (some authorizer)
      hour
      authenticators
      always
      tt
      mesh
      no_error
      request
      chain
create_certificate_iff_example =
    (create_certificate_iff libraries (plain_pki Unit) (some authorizer) hour authenticators always
        tt mesh no_error request chain mesh_given).0
      served_run

create_certificate-Asks_example :
    Asks libraries
      (plain_pki Unit)
      (some authorizer)
      hour
      authenticators
      always
      tt
      mesh
      no_error
      request
create_certificate-Asks_example =
    create_certificate-Asks libraries (plain_pki Unit) (some authorizer) hour authenticators always
      tt mesh no_error request

-- 10^10 seconds, some 317 years.
requested_duration_wraps_example :
    (requested_duration (pos 10_000_000_000) hour ≡ negsuc (2 ^ 64 - 10_000_000_000 * second - 1))
    × (requested_duration (pos 10_000_000_000) hour <ℤ pos 0)
requested_duration_wraps_example =
    requested_duration_wraps 10_000_000_000 3_600_000_000_000 (omega arith) (omega arith)
