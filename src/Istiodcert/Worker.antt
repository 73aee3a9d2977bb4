-- ===== src/Istiodcert/Worker.antt =====
-- pkg/istiodcert/worker.go: the names of istiod's certificate, its reconciliation, and the issuer.
use istio_csr.Base.{
  ℕ, suc, Bool, true, false, not, ◌&&◌, Option, none, some, List, [], ◌∷◌, ◌++◌, Result, ok, err,
  ◌==◌, list_eq, nat_eq, is_empty, if◌then◌else◌,
}
use istio_csr.Base.Int64.{ℤ}
use istio_csr.Base.Text.{Str, bytes}
use istio_csr.Base.Dict.{Dict}
use istio_csr.Certmanager.{IssuerReference, Manager, initial_issuer}
use istio_csr.Certmanager.Subscriptions.{subscribe_issuer_change}
use istio_csr.Istiodcert.Validation.{KeyAlgorithm, Options}

abbrev pub default_revision : Str
default_revision = bytes "default"

-- `fmt.Sprintf("istiod.%s.svc", namespace)`.
abbrev pub default_san : Str → Str
default_san namespace = bytes "istiod." ++ namespace ++ bytes ".svc"

-- `fmt.Sprintf("istiod-%s.%s.svc", revision, namespace)`.
abbrev pub revision_san : Str → Str → Str
revision_san namespace revision =
    bytes "istiod-" ++ revision ++ bytes "." ++ namespace ++ bytes ".svc"

-- The loop over the revisions.
unfoldable pub names_of : Str → List Str → List Str
names_of namespace [] = []
names_of namespace (revision ∷ revisions) =
    let rest = names_of namespace revisions in
    if revision == default_revision
    then default_san namespace ∷ rest
    else revision_san namespace revision ∷ rest

-- makeDNSNamesFromRevisions: the common name, and the DNS names.
unfoldable pub make_dns_names_from_revisions : Str → List Str → Str × List Str
make_dns_names_from_revisions namespace istio_revisions =
    let revisions = if is_empty istio_revisions then default_revision ∷ [] else istio_revisions in
    (default_san namespace, names_of namespace revisions)

-- cert-manager's CertificateSpec and Certificate. The rotation policy is Always and the history
-- limit 1 in every spec that is made here.
pub record CertificateSpec : Type 0 where
  pub common_name : Str
  pub dns_names : List Str
  pub uris : List Str
  pub secret_name : Str
  pub duration : ℤ
  pub renew_before : ℤ
  pub rotation_policy_always : Bool
  pub algorithm : KeyAlgorithm
  pub size : ℤ
  pub revision_history_limit : ℕ
  pub issuer_ref : IssuerReference

pub record Certificate : Type 0 where
  pub name : Str
  pub namespace : Str
  pub annotations : Dict Str
  pub spec : CertificateSpec

-- DynamicIstiodCertProvisioner; `triggered` counts the events sent to its reconcile channel.
pub record Provisioner : Type 0 where
  pub opts : Options
  pub initial_issuer_ref : Option IssuerReference
  pub issuer_ref : Option IssuerReference
  pub issuer_change_subscription : ℕ
  pub trust_domain : Str
  pub triggered : ℕ

-- New: the provisioner, and the manager with its subscription. The test says whether the client
-- could be built.
unfoldable pub new : Bool → Options → Manager → Str → Option (Provisioner × Manager)
new cm_client opts issuer_change_notifier trust_domain =
    let (subscribed, subscription) = subscribe_issuer_change issuer_change_notifier in
    let initial_issuer_ref = initial_issuer issuer_change_notifier in
    if not cm_client
    then none
    else some (
      record {
        opts = opts;
        initial_issuer_ref = initial_issuer_ref;
        issuer_ref = initial_issuer_ref;
        issuer_change_subscription = subscription;
        trust_domain = trust_domain;
        triggered = 0;
      },
      subscribed,
    )

-- AddControllersToManager: which certificates are processed, and the request that a trigger gives.
abbrev pub is_processed : Provisioner → Str → Str → Bool
is_processed p namespace name =
    name == p.opts.certificate_name && namespace == p.opts.certificate_namespace

abbrev pub trigger_request : Provisioner → Str × Str
trigger_request p = (p.opts.certificate_namespace, p.opts.certificate_name)

abbrev pub is_some {ℓ} : {A : Type ℓ} → Option A → Bool
is_some none = false
is_some (some a) = true

abbrev pub trigger : Provisioner → Option IssuerReference → Provisioner
trigger p issuer_ref = record p { issuer_ref = issuer_ref; triggered = suc p.triggered }

unfoldable pub handle_new_issuer : Provisioner → Option IssuerReference → Provisioner
handle_new_issuer p (some r) = trigger p (some r)
handle_new_issuer p none =
    if is_some p.initial_issuer_ref
    then record p { issuer_ref = p.initial_issuer_ref }
    else trigger p none

-- The loop of Start over the issuers that the subscription brings.
unfoldable pub handle_all : Provisioner → List (Option IssuerReference) → Provisioner
handle_all p [] = p
handle_all p (r ∷ rs) = handle_all (handle_new_issuer p r) rs

unfoldable pub start : Provisioner → List (Option IssuerReference) → Provisioner
start p rs =
    if is_some p.initial_issuer_ref
    then handle_all (handle_new_issuer p p.initial_issuer_ref) rs
    else handle_all p rs

pub data ApiError : Type 0 where
  not_found : ApiError
  other_error : Str → ApiError

-- cert-manager's client for certificates; a write gives its error, or none.
pub record Api : Type 0 where
  pub get : Str → Result ApiError Certificate
  pub create : Certificate → Option Str
  pub update : Certificate → Option Str

pub data Return : Type 0 where
  done : Return
  failed : Str → Return

pub data Write : Type 0 where
  created updated : Certificate → Write

abbrev pub returned : Option Str → Return
returned none = done
returned (some e) = failed e

abbrev pub spiffe_id : Str → Str → Str
spiffe_id trust_domain namespace =
    bytes "spiffe://"
    ++ trust_domain
    ++ bytes "/ns/"
    ++ namespace
    ++ bytes "/sa/istiod-service-account"

unfoldable pub desired_spec : Provisioner → Str → IssuerReference → CertificateSpec
desired_spec p namespace issuer_ref =
    let (common_name, dns_names) = make_dns_names_from_revisions namespace p.opts.istio_revisions in
    record {
      common_name = common_name;
      dns_names =
          if not (is_empty p.opts.additional_dns_names)
          then dns_names ++ p.opts.additional_dns_names
          else dns_names;
      uris = spiffe_id p.trust_domain namespace ∷ [];
      secret_name = bytes "istiod-tls";
      duration = p.opts.duration;
      renew_before = p.opts.renew_before;
      rotation_policy_always = true;
      algorithm = p.opts.cm_key_algorithm;
      size = p.opts.key_size;
      revision_history_limit = 1;
      issuer_ref = issuer_ref;
    }

abbrev pub new_certificate : Provisioner → Str → Str → IssuerReference → Certificate
new_certificate p namespace name issuer_ref = record {
  name = name;
  namespace = namespace;
  annotations = p.opts.additional_annotations;
  spec = desired_spec p namespace issuer_ref;
}

-- Reconcile of a request: what it returns, and its writes.
unfoldable pub reconcile : Provisioner → Api → Str → Str → Return × List Write
reconcile p api namespace name = elim p.issuer_ref [
  | none ↦ (done, [])
  | some issuer_ref ↦ elim (api.get name) [
    | err (other_error e) ↦ (failed e, [])
    | err not_found ↦
        let cert = new_certificate p namespace name issuer_ref in
        (returned (api.create cert), created cert ∷ [])
    | ok cert ↦
        let cert' = record cert { spec = desired_spec p namespace issuer_ref } in
        (returned (api.update cert'), updated cert' ∷ [])
  ]
]
