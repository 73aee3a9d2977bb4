-- ===== src/Certmanager.antt =====
-- pkg/certmanager/certmanager.go: the manager that has cert-manager sign requests. This file holds
-- its data, its options and its start; the children hold its operations.
pub mod Startup
pub mod Subscriptions
pub mod Runtime
pub mod Waiting
pub mod Request
pub mod Examples
use istio_csr.Base.{
  ℕ, ◌≡◌, Bool, true, false, not, ◌&&◌, ◌||◌, Option, none, some, List, [], ◌∷◌, ◌==◌, list_eq,
  nat_eq, Result, ok, err, ◌>>=◌, ◌>>◌, guard, or_fail, is_empty, if◌then◌else◌,
}
use istio_csr.Base.Text.{Str}
use istio_csr.Base.Dict.{Dict}

-- cert-manager's cmmeta.IssuerReference.
pub record IssuerReference : Type 0 where
  pub name : Str
  pub kind : Str
  pub group : Str

pub record Options : Type 0 where
  pub preserve_certificate_requests : Bool
  pub namespace : Str
  pub default_issuer_enabled : Bool
  pub issuer_ref : IssuerReference
  pub issuance_config_map_name : Str
  pub issuance_config_map_namespace : Str
  pub additional_annotations : Dict Str

-- Options.HasRuntimeConfiguration.
unfoldable pub has_runtime_configuration : Options → Bool
has_runtime_configuration o =
    not (is_empty o.issuance_config_map_name) && not (is_empty o.issuance_config_map_namespace)

-- A goroutine of notifyIssuerChange that has not run yet: the index that it captured, and what
-- it is to send, nil for "back to the original issuer".
pub record Send : Type 0 where
  pub index : ℕ
  pub issuer_ref : Option IssuerReference

-- The manager, with the heap of its subscriptions: a subscription is a number, `closed` lists
-- those whose flag is set, `next_subscription` is the next fresh number. `pending` holds the
-- goroutines that were started and have not run.
pub record Manager : Type 0 where
  pub opts : Options
  pub active_issuer_ref : Option IssuerReference
  pub original_issuer_ref : Option IssuerReference
  pub issuer_change_subscriptions : List ℕ
  pub closed : List ℕ
  pub next_subscription : ℕ
  pub pending : List Send

pub record Bundle : Type 0 where
  pub certificate : Str
  pub ca : Str

pub data KeyUsage : Type 0 where
  usage_client_auth usage_server_auth : KeyUsage

-- The errors of New and of handleOriginalIssuerRef.
pub data StartError : Type 0 where
  no_original_issuer : StartError
  name_required kind_required group_required : StartError
  no_kubernetes_client no_cert_manager_client : StartError
  invalid_issuer_ref : StartError → StartError
  runtime_configuration_required : StartError

unfoldable pub handle_original_issuer_ref : Options → Result StartError IssuerReference
handle_original_issuer_ref opts =
    if not opts.default_issuer_enabled
    then err no_original_issuer
    else if is_empty opts.issuer_ref.name
        && is_empty opts.issuer_ref.kind
        && is_empty opts.issuer_ref.group
    then err no_original_issuer
    else if is_empty opts.issuer_ref.name
    then err name_required
    else if is_empty opts.issuer_ref.kind
    then err kind_required
    else if is_empty opts.issuer_ref.group
    then err group_required
    else ok opts.issuer_ref

abbrev started : Options → Option IssuerReference → Manager
started opts issuer_ref = record {
  opts = opts;
  active_issuer_ref = issuer_ref;
  original_issuer_ref = issuer_ref;
  issuer_change_subscriptions = [];
  closed = [];
  next_subscription = 0;
  pending = [];
}

-- New. The two tests say whether the Kubernetes and the cert-manager client could be built.
unfoldable pub new : Bool → Bool → Options → Result StartError Manager
new kubernetes_client cert_manager_client opts = do
  guard kubernetes_client no_kubernetes_client
  guard cert_manager_client no_cert_manager_client
  elim (handle_original_issuer_ref opts) [
    | ok issuer_ref ↦ ok (started opts (some issuer_ref))
    | err no_original_issuer ↦
        if not (has_runtime_configuration opts)
        then err runtime_configuration_required
        else ok (started opts none)
    | err e ↦ err (invalid_issuer_ref e)
  ]

-- HasIssuerConfig and InitialIssuer.
unfoldable pub has_issuer_config : Manager → Bool
has_issuer_config m = elim m.active_issuer_ref [ none ↦ false | some r ↦ true ]

unfoldable pub initial_issuer : Manager → Option IssuerReference
initial_issuer m = m.original_issuer_ref
