-- ===== src/Server/Certificate.antt =====
-- pkg/server/server.go: CreateCertificate, the requested duration, and the certificate chain
-- of the answer.
pub mod Duration
pub mod Chain
pub mod Served
use istio_csr.Base.{
  ℕ, ◌≡◌, Bool, true, false, not, Option, none, some, List, [], ◌∷◌, ◌++◌, Result, ok, err, ◌>>=◌,
  ◌>>◌, guard, or_fail, if◌then◌else◌,
}
use istio_csr.Base.Int64.{ℤ, pos, scale, wrap64, min_ℤ}
use istio_csr.Base.Text.{Str}
use istio_csr.Rootca.{RootCas}
use istio_csr.Certmanager.{Bundle, KeyUsage, usage_client_auth, usage_server_auth}
use istio_csr.Server.Auth.{SigningRequest, Authenticator, Libraries, auth_request}
use istio_csr.Server.NodeAuth.{ClusterNodeAuthorizer}

-- istio's IstioCertificateRequest.
pub record IstioCertificateRequest : Type 0 where
  pub request : SigningRequest
  pub open request use *
  pub validity_duration : ℤ

-- time.Second, in nanoseconds.
abbrev pub second : ℕ
second = 1_000_000_000

-- `min(time.Duration(v)*time.Second, maximum)`: the product is an int64 and wraps.
unfoldable pub requested_duration : ℤ → ℤ → ℤ
requested_duration v maximum = min_ℤ (wrap64 (scale v second)) maximum

-- What the chain's code takes from cert-manager's pki and crypto/x509, of which the type of pools is
-- given.
pub record Pki (Pool : Type 0) : Type 1 where
  pub Certificate : Type 0
  -- pki.ParseSingleCertificateChainPEM, its ChainPEM
  pub parse_single_certificate_chain_pem : Str → Option Str
  -- pki.DecodeX509CertificateChainBytes
  pub decode_x509_certificate_chain_bytes : Str → Option (List Certificate)
  -- respCerts[0].Verify with these intermediates and roots, for client and server
  -- authentication; true for no error
  pub verify : Certificate → List Certificate → Option Pool → Bool
  -- pki.EncodeX509
  pub encode_x509 : Certificate → Option Str

-- The errors of parseCertificateBundle. `panic` is an index out of range; `context_error` is that
-- of the request's context.
pub data ChainError : Type 0 where
  bad_chain bad_certificates not_verified not_encoded : ChainError
  context_error : Str → ChainError
  panic : ChainError

module _ {Pool : Type 0} (pki : Pki Pool) where
  open pki use {Certificate, encode_x509}

  -- The loop that encodes the certificates.
  unfoldable pub encode_all : List Certificate → Result ChainError (List Str)
  encode_all [] = ok []
  encode_all (cert ∷ certs) = do
    encoded ← or_fail (encode_x509 cert) not_encoded
    rest ← encode_all certs
    ok (encoded ∷ rest)

  unfoldable pub chain_of :
      RootCas Pool → Certificate → List Certificate → Result ChainError (List Str)
  chain_of root_cas leaf intermediates = do
    guard (pki.verify leaf intermediates root_cas.cert_pool) not_verified
    chain ← encode_all (leaf ∷ intermediates)
    ok (chain ++ root_cas.pem ∷ [])

  -- parseCertificateBundle. `root_cas` is what the TLS provider gives, nil if the context ended
  -- first, and `ctx_err` is the context's error then. Slicing off the head panics before that.
  unfoldable pub parse_certificate_bundle :
      Option (RootCas Pool) → Option Str → Bundle → Result ChainError (List Str)
  parse_certificate_bundle root_cas ctx_err bundle = do
    chain_pem ← or_fail (pki.parse_single_certificate_chain_pem bundle.certificate) bad_chain
    certs ← or_fail (pki.decode_x509_certificate_chain_bytes chain_pem) bad_certificates
    elim certs [
      | [] ↦ err panic
      | leaf ∷ intermediates ↦ elim root_cas [
        | none ↦ elim ctx_err [ none ↦ ok [] | some e ↦ err (context_error e) ]
        | some roots ↦ chain_of roots leaf intermediates
      ]
    ]

-- The status of the answer, or a panic in place of one.
pub data Status : Type 0 where
  unauthenticated internal_sign internal_chain : Status
  panicked : Status

-- The arguments of a call of Sign.
pub record SignCall : Type 0 where
  pub identities : Str
  pub csr : Str
  pub duration : ℤ
  pub usages : List KeyUsage

-- certmanager.Signer.
abbrev pub Signer : Type 0 → Type 0
Signer E = SignCall → Result E Bundle

abbrev pub response : Result ChainError (List Str) → Result Status (List Str)
response (ok chain) = ok chain
response (err panic) = err panicked
response (err e) = err internal_chain

module _ (lib : Libraries) {Pool : Type 0} (pki : Pki Pool)
    (node_authorizer : Option ClusterNodeAuthorizer) (maximum : ℤ) {Context E A : Type 0}
    (authenticators : List (Authenticator Context A)) (signer : Signer E) where
  abbrev pub sign_call : IstioCertificateRequest → Str → SignCall
  sign_call icr identities = record {
    identities = identities;
    csr = icr.csr;
    duration = requested_duration icr.validity_duration maximum;
    usages = usage_client_auth ∷ usage_server_auth ∷ [];
  }

  -- CreateCertificate: the answer, and the calls of the signer.
  unfoldable pub create_certificate :
      Context
      → Option (RootCas Pool)
      → Option Str
      → IstioCertificateRequest
      → Result Status (List Str) × List SignCall
  create_certificate ctx root_cas ctx_err icr =
      let (identities, authorized) =
        auth_request lib node_authorizer authenticators ctx icr.request in
      let call = sign_call icr identities in
      let signed : Result Status (List Str) = elim (signer call) [
        | err e ↦ err internal_sign
        | ok bundle ↦ response (parse_certificate_bundle pki root_cas ctx_err bundle)
      ] in
      if not authorized then (err unauthenticated, []) else (signed, call ∷ [])
