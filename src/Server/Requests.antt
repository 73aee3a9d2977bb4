-- ===== src/Server/Requests.antt =====
-- Runs of whole requests: a node proxy that asks for the certificate of a workload on its node.
use mathlib.Core.List.{Memᴰ}
use istio_csr.Base.{
  All, map, subst, ◌≡◌, refl, true, Option, none, some, List, [], ◌∷◌, arith, ok, err, list_beq,
  list_eq, nat_eq,
}
use istio_csr.Base.Text.{Str, bytes, less, join_with}
use istio_csr.Base.Sort.{insert_by, sort_by, sort_strings}
use istio_csr.Server.Identities.{all_match, identities_match}
use istio_csr.Server.Csr.{CertificateRequest}
use istio_csr.Server.Extensions.Permitted.{HasBytes}
use istio_csr.Server.Examples.{validation, first_of_all, workload, sample_csr}
use istio_csr.Server.Cluster.{cluster, node_proxy, workload_pod, find_pod, pods_with, has_key}
use istio_csr.Server.NodeAuth.{
  NamespacedName, KubernetesInfo, Identity, ClusterNodeAuthorizer, contains, sa_nodes,
  authenticate_impersonation,
}
use istio_csr.Server.NodeAuth.Impersonation.{MayImpersonate, authenticate_impersonation_iff}
use istio_csr.Server.NodeAuth.Trusted.{cut, trusted_accounts, entry_of, trusted_accounts-entries}
use istio_csr.Server.Auth.{
  Caller, string_value, SigningRequest, Authenticator, Libraries, get_string_value, authenticate,
  may_impersonate, requested_identities, check_request, auth_request,
}
use istio_csr.Server.Auth.Authorized.{IsAuthorized, auth_request_iff}

abbrev configured : List Str
configured = bytes "no-slash" ∷ bytes "istio-system/ztunnel" ∷ []

abbrev pub proxy_account : NamespacedName
proxy_account = record { namespace = bytes "istio-system"; name = bytes "ztunnel" }

accounts_run : trusted_accounts configured ≡ proxy_account ∷ []
unfolding trusted_accounts cut bytes
accounts_run = refl

proxy_trusted : Memᴰ proxy_account (trusted_accounts configured)
proxy_trusted = rw accounts_run (Memᴰ.head refl)

abbrev pub parse_identity : Str → Option Identity
parse_identity s =
    some
      (record { trust_domain = bytes "td"; namespace = bytes "foo"; service_account = bytes "bar" })

abbrev pub authorizer : ClusterNodeAuthorizer
authorizer = record {
  trusted_node_accounts = proxy_account ∷ [];
  pods = cluster (node_proxy ∷ workload_pod ∷ []);
}

abbrev pub proxy_info : KubernetesInfo
proxy_info = record {
  pod_name = bytes "ztunnel-1";
  pod_namespace = bytes "istio-system";
  pod_uid = bytes "u1";
  pod_service_account = bytes "ztunnel";
}

-- What a run of the node authorizer unfolds.
unfoldable pub node_auth : Unit {0}
unfolding authenticate_impersonation contains find_pod pods_with has_key sa_nodes bytes list_beq
node_auth = tt

proxy_allowed : authenticate_impersonation parse_identity authorizer proxy_info workload ≡ ok tt
unfolding node_auth
proxy_allowed = refl

authenticate_impersonation_iff_example :
    MayImpersonate parse_identity authorizer proxy_info workload
authenticate_impersonation_iff_example =
    (authenticate_impersonation_iff parse_identity authorizer proxy_info workload).0 proxy_allowed

pub sample_bytes : All HasBytes sample_csr.extensions
unfolding bytes
sample_bytes = omega arith

-- A parsed CSR, if there is one, has bytes.
abbrev pub ParsesBytes : Option CertificateRequest → Type 0
ParsesBytes none = Unit
ParsesBytes (some csr) = All HasBytes csr.extensions

abbrev pub libraries : Libraries
libraries = record {
  impersonated_identity = bytes "ImpersonatedIdentity";
  parse_identity = parse_identity;
  parse_pem_encoded_csr = λ s. some sample_csr;
  parsed_bytes = λ pem e. subst ParsesBytes e sample_bytes;
  check_signature = λ csr. true;
  aggregation = first_of_all;
}

abbrev pub proxy : Caller
proxy = record {
  identities = bytes "spiffe://td/ns/istio-system/sa/ztunnel" ∷ [];
  kubernetes_info = proxy_info;
}

-- The first does not know the caller, the second does.
abbrev pub authenticators : List (Authenticator (Unit {0}) Str)
authenticators = (λ ctx. err []) ∷ (λ ctx. ok proxy) ∷ []

abbrev pub asking : SigningRequest
asking = record {
  csr = bytes "pem";
  metadata = (bytes "ImpersonatedIdentity", string_value workload) ∷ [];
}

-- What a run of a request unfolds.
unfoldable pub requests : Unit {0}
unfolding node_auth validation get_string_value authenticate may_impersonate requested_identities
    check_request auth_request join_with identities_match all_match sort_strings sort_by insert_by
    less
requests = tt

pub asking_authorized :
    auth_request libraries (some authorizer) authenticators tt asking ≡ (workload, true)
unfolding requests
asking_authorized = refl

auth_request_iff_example :
    IsAuthorized libraries (some authorizer) authenticators tt asking workload
auth_request_iff_example =
    (auth_request_iff libraries (some authorizer) authenticators tt asking workload).0
      asking_authorized

trusted_accounts-entries_example :
    trusted_accounts (map entry_of (proxy_account ∷ [])) ≡ proxy_account ∷ []
unfolding bytes
trusted_accounts-entries_example = trusted_accounts-entries (proxy_account ∷ []) (omega arith)
