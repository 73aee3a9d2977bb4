-- ===== src/Controller.antt =====
-- pkg/controller/configmap.go: the controller that keeps a ConfigMap with the root certificates in
-- each namespace.
pub mod Repair
pub mod Outcome
pub mod Cluster
pub mod Rotation
pub mod Examples
use istio_csr.Base.{
  ℕ, Bool, true, false, not, ◌&&◌, ◌||◌, Option, none, some, List, [], ◌∷◌, Result, ok, err, ◌==◌,
  list_eq, nat_eq, is_empty, if◌then◌else◌,
}
use istio_csr.Base.Text.{Str, bytes}
use istio_csr.Base.Dict.{Dict, lookup, insert}

abbrev pub config_map_name_istio_root : Str
config_map_name_istio_root = bytes "istio-ca-root-cert"

abbrev pub config_map_label_key : Str
config_map_label_key = bytes "istio.io/config"

abbrev pub root_cert_key : Str
root_cert_key = bytes "root-cert.pem"

abbrev pub namespace_terminating : Str
namespace_terminating = bytes "Terminating"

-- The parts of a Kubernetes namespace and ConfigMap that are read or written. A nil map is none;
-- `contents` is the field Data.
pub record Namespace : Type 0 where
  pub name : Str
  pub labels : Dict Str
  pub phase : Str

pub record ConfigMap : Type 0 where
  pub namespace : Str
  pub name : Str
  pub labels : Option (Dict Str)
  pub contents : Option (Dict Str)

-- The controller's state; the selector of apimachinery is a test on labels.
pub record Controller : Type 0 where
  pub namespace_selector : Dict Str → Bool
  pub root_cas_pem : Str

pub data ApiError : Type 0 where
  not_found : ApiError
  other_error : Str → ApiError

-- The lister and the client of controller-runtime; a write gives its error, or none.
pub record Api : Type 0 where
  pub get_namespace : Str → Result ApiError Namespace
  pub get_config_map : Str → Str → Result ApiError ConfigMap
  pub create : ConfigMap → Option Str
  pub update : ConfigMap → Option Str

-- What Reconcile returns: an empty result, a requeue after 100 ms, or an error.
pub data Return : Type 0 where
  done : Return
  requeue : Return
  failed : Str → Return

pub data Write : Type 0 where
  created updated : ConfigMap → Write

abbrev pub returned : Option Str → Return
returned none = done
returned (some e) = failed e

-- A map to write to: a nil map is made first.
abbrev pub made : Option (Dict Str) → Dict Str
made none = []
made (some m) = m

-- The loop over the keys of the data.
unfoldable pub has_unexpected_key : Dict Str → Bool
has_unexpected_key [] = false
has_unexpected_key ((k, v) ∷ m) = not (k == root_cert_key) || has_unexpected_key m

-- `v, ok := m[k]; !ok || v != expected`, and then the write.
unfoldable pub ensure : Str → Str → Dict Str × Bool → Dict Str × Bool
ensure k expected (m, update_needed) = elim (lookup k m) [
  | none ↦ (insert k expected m, true)
  | some v ↦ if not (v == expected) then (insert k expected m, true) else (m, update_needed)
]

-- The ConfigMap as it is sent, and whether an update is needed.
unfoldable pub repair : Str → ConfigMap → ConfigMap × Bool
repair root_cas_pem config_map =
    let contents = made config_map.contents in
    let cleaned : Dict Str × Bool =
      if has_unexpected_key contents then ([], true) else (contents, false) in
    let (contents', contents_changed) = ensure root_cert_key root_cas_pem cleaned in
    let (labels', changed) =
      ensure config_map_label_key (bytes "true") (made config_map.labels, contents_changed) in
    (record config_map { contents = some contents'; labels = some labels' }, changed)

-- The ConfigMap that is created.
abbrev pub new_config_map : Str → Str → ConfigMap
new_config_map namespace root_cas_pem = record {
  namespace = namespace;
  name = config_map_name_istio_root;
  labels = some ((config_map_label_key, bytes "true") ∷ []);
  contents = some ((root_cert_key, root_cas_pem) ∷ []);
}

module _ (c : Controller) (api : Api) where
  -- Reconcile from the read of the ConfigMap on.
  unfoldable pub sync : Str → Return × List Write
  sync namespace = elim (api.get_config_map namespace config_map_name_istio_root) [
    | err not_found ↦
        let new = new_config_map namespace c.root_cas_pem in
        (returned (api.create new), created new ∷ [])
    | err (other_error e) ↦ (failed e, [])
    | ok config_map ↦
        let (repaired, update_needed) = repair c.root_cas_pem config_map in
        if update_needed
        then (returned (api.update repaired), updated repaired ∷ [])
        else (done, [])
  ]

  -- Reconcile of the request for a namespace: what it returns, and its writes.
  unfoldable pub reconcile : Str → Return × List Write
  reconcile req_namespace =
      let synced = sync req_namespace in
      elim (api.get_namespace req_namespace) [
        | err not_found ↦ (done, [])
        | err (other_error e) ↦ (failed e, [])
        | ok namespace ↦
            if not (c.namespace_selector namespace.labels)
            then (done, [])
            else if namespace.phase == namespace_terminating
            then (done, [])
            else if is_empty c.root_cas_pem
            then (requeue, [])
            else synced
      ]

-- The requests of the handler of namespace events: one, for the namespace.
abbrev pub namespace_requests : Namespace → List Str
namespace_requests namespace = namespace.name ∷ []

-- Whether an event of a ConfigMap is processed.
abbrev pub is_processed : ConfigMap → Bool
is_processed config_map = config_map.name == config_map_name_istio_root

-- The requests for the namespaces that match the selector.
unfoldable pub matching : (Dict Str → Bool) → List Namespace → List Str
matching selector [] = []
matching selector (namespace ∷ namespaces) =
    let rest = matching selector namespaces in
    if not (selector namespace.labels) then rest else namespace.name ∷ rest

-- What the handler of root CA events does: it gives requests, or the process ends.
pub data Handled : Type 0 where
  requests : List Str → Handled
  exited : Handled

-- The handler of root CA events, from the PEM of the roots, if there are some, and the answer of
-- listing the namespaces.
unfoldable pub on_root_cas_event :
    Controller → Option Str → Result Str (List Namespace) → Controller × Handled
on_root_cas_event c none listed = (c, requests [])
on_root_cas_event c (some pem) listed =
    let c' = record c { root_cas_pem = pem } in
    elim listed [
      | err e ↦ (c', exited)
      | ok namespaces ↦ (c', requests (matching c.namespace_selector namespaces))
    ]

pub data AddError : Type 0 where
  no_client bad_selector not_complete : Str → AddError

-- AddConfigMapController: the controller, with no roots yet. It is given the errors of making the
-- client and of controller-runtime's Complete, and apimachinery's labels.Parse with Matches.
unfoldable pub add_config_map_controller :
    Option Str
    → (Str → Result Str (Dict Str → Bool))
    → Option Str
    → Str
    → Result AddError Controller
add_config_map_controller client_error parse complete_error config_map_namespace_selector =
    elim client_error [
      | some e ↦ err (no_client e)
      | none ↦ elim (parse config_map_namespace_selector) [
        | err e ↦ err (bad_selector e)
        | ok selector ↦ elim complete_error [
          | some e ↦ err (not_complete e)
          | none ↦ ok (record { namespace_selector = selector; root_cas_pem = [] })
        ]
      ]
    ]
