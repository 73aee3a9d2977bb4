-- ===== src/Server/Auth.antt =====
-- pkg/server/auth.go, authRequest: who asks, and whether the request may be signed.
pub mod Callers
pub mod Authorized
use istio_csr.Base.{
  All, ℕ, ◌≡◌, Bool, true, false, not, ◌&&◌, ◌||◌, Option, none, some, List, [], ◌∷◌, ◌==◌, list_eq,
  nat_eq, Result, ok, err, ◌>>=◌, ◌>>◌, guard, or_fail, is_empty, if◌then◌else◌,
}
use istio_csr.Base.Text.{Str, join_with}
use istio_csr.Server.Csr.{CertificateRequest, string}
use istio_csr.Server.Extensions.{Aggregation, validate_csr_extensions}
use istio_csr.Server.Extensions.Permitted.{HasBytes}
use istio_csr.Server.Identities.{identities_match}
use istio_csr.Server.NodeAuth.{
  KubernetesInfo, Identity, ClusterNodeAuthorizer, authenticate_impersonation,
}

-- istio's security.Caller.
pub record Caller : Type 0 where
  pub identities : List Str
  pub kubernetes_info : KubernetesInfo

-- A value of the request's metadata, google.protobuf.Value: a string, or anything else.
pub data Value : Type 0 where
  string_value : Str → Value
  other_value : Value

-- istio's IstioCertificateRequest, without the validity duration.
pub record SigningRequest : Type 0 where
  pub csr : Str
  pub metadata : List (Str × Value)

-- An authenticator's answer, a caller or an error.
abbrev pub Authenticator : Type 0 → Type 0 → Type 0
Authenticator Context E = Context → Result E Caller

-- What the code takes from istio, Go's crypto and apimachinery.
pub record Libraries : Type 0 where
  -- security.ImpersonatedIdentity
  pub impersonated_identity : Str
  -- spiffe.ParseIdentity
  pub parse_identity : Str → Option Identity
  -- pkiutil.ParsePemEncodedCSR
  pub parse_pem_encoded_csr : Str → Option CertificateRequest
  -- the values of a parsed CSR's extensions are bytes
  pub parsed_bytes :
      (pem : Str) {csr : CertificateRequest}
      → parse_pem_encoded_csr pem ≡ some csr
      → All HasBytes csr.extensions
  -- (*x509.CertificateRequest).CheckSignature, true for no error
  pub check_signature : CertificateRequest → Bool
  pub aggregation : Aggregation

-- `fields[key].GetStringValue()`: empty where the key is missing or its value is no string.
unfoldable pub get_string_value : List (Str × Value) → Str → Str
get_string_value [] key = []
get_string_value ((k, string_value s) ∷ fields) key =
    if k == key then s else get_string_value fields key
get_string_value ((k, other_value) ∷ fields) key =
    if k == key then [] else get_string_value fields key

-- The loop over the authenticators: the first that answers with a caller.
unfoldable pub authenticate :
    {Context E : Type 0} → List (Authenticator Context E) → Context → Option Caller
authenticate [] ctx = none
authenticate (a ∷ others) ctx =
    let rest = authenticate others ctx in elim (a ctx) [ ok caller ↦ some caller | err e ↦ rest ]

-- Any of the options that a request must not set.
abbrev pub has_forbidden_options : CertificateRequest → Bool
has_forbidden_options csr =
    not (is_empty csr.dns_names)
    || not (is_empty csr.ip_addresses)
    || not (is_empty csr.common_name)
    || not (is_empty csr.email_addresses)

abbrev pub is_nil {ℓ} : {A : Type ℓ} → Option A → Bool
is_nil none = true
is_nil (some a) = false

-- The identity that the metadata asks for, empty for none.
abbrev pub impersonated : Libraries → SigningRequest → Str
impersonated lib icr = get_string_value icr.metadata lib.impersonated_identity

-- The names that the URIs of the request must be.
abbrev pub expected_identities : Caller → Str → List Str
expected_identities caller identity = if identity == [] then caller.identities else identity ∷ []

module _ (lib : Libraries) (node_authorizer : Option ClusterNodeAuthorizer) where
  -- Whether an impersonation is allowed: only with a node authorizer that agrees.
  unfoldable pub may_impersonate : Caller → Str → Bool
  may_impersonate caller identity = elim node_authorizer [
    | none ↦ false
    | some na ↦
        elim (authenticate_impersonation lib.parse_identity na caller.kubernetes_info identity) [
          | ok _ ↦ true
          | err _ ↦ false
        ]
  ]

  -- The identities that the request is about, and whether the caller may ask for them.
  unfoldable pub requested_identities : Caller → Str → Result Str Str
  requested_identities caller identity =
      if not (identity == [])
      then (if may_impersonate caller identity then ok identity else err [])
      else ok (join_with (b',' ∷ []) caller.identities)

  -- An early return gives the identities known so far and false.
  unfoldable pub check_request :
      {Context E : Type 0}
      → List (Authenticator Context E)
      → Context
      → SigningRequest
      → Result Str Str
  check_request authenticators ctx icr = do
    caller ← or_fail (authenticate authenticators ctx) []
    guard (not (is_empty caller.identities)) []
    identities ← requested_identities caller (impersonated lib icr)
    csr ← or_fail (lib.parse_pem_encoded_csr icr.csr) identities
    guard (lib.check_signature csr) identities
    guard (not (has_forbidden_options csr)) identities
    guard (is_nil (validate_csr_extensions lib.aggregation csr)) identities
    guard (identities_match (expected_identities caller (impersonated lib icr)) csr.uris) identities
    ok identities

  unfoldable pub auth_request :
      {Context E : Type 0} → List (Authenticator Context E) → Context → SigningRequest → Str × Bool
  auth_request authenticators ctx icr = elim (check_request authenticators ctx icr) [
    | ok identities ↦ (identities, true)
    | err identities ↦ (identities, false)
  ]
