-- ===== src/Controller/Examples.antt =====
-- Runs of the controller, and its theorems at a concrete cluster.
use istio_csr.Base.{
  ◌≡◌, ◌≢◌, refl, true, some, List, [], ◌∷◌, ok, arith, list_beq, list_eq, nat_eq, ◌==◌, Bool-cases,
  inl, inr, list_beq_iff,
}
use istio_csr.Base.Text.{Str, bytes}
use istio_csr.Base.Dict.{lookup}
use istio_csr.Controller.{Namespace, ConfigMap, Controller, reconcile, on_root_cas_event, requests}
use istio_csr.Controller.Outcome.{IsSelected, Settles, reconcile-Settles}
use istio_csr.Controller.Cluster.{Cluster, api_of, find_namespace, IsFiled, HasCurrent}
use istio_csr.Controller.Rotation.{reconcile_all, with_roots, on_root_cas_event-HasCurrent}

abbrev controller : Controller
controller = record { namespace_selector = λ labels. true; root_cas_pem = bytes "old" }

abbrev pub foo : Namespace
foo = record { name = bytes "foo"; labels = []; phase = bytes "Active" }

-- A ConfigMap with an unexpected key and a label of its own.
abbrev stale : ConfigMap
stale = record {
  namespace = bytes "foo";
  name = bytes "istio-ca-root-cert";
  labels = some ((bytes "team", bytes "a") ∷ []);
  contents = some ((bytes "extra", bytes "x") ∷ []);
}

abbrev pub cluster : Cluster
cluster = record { namespaces = foo ∷ []; config_maps = (bytes "foo", stale) ∷ [] }

reconcile-Settles_example :
    Settles controller
      (api_of cluster)
      (bytes "foo")
      (reconcile controller (api_of cluster) (bytes "foo"))
reconcile-Settles_example = reconcile-Settles controller (api_of cluster) (bytes "foo")

pub cluster-IsFiled : IsFiled cluster
unfolding lookup
cluster-IsFiled ns cm e = elim (Bool-cases (bytes "foo" == ns)) [
  | inl same ↦ ground (arith, list_beq_iff (bytes "foo") ns)
  | inr other ↦ ground arith
]

pub foo_there : find_namespace (bytes "foo") cluster.namespaces ≡ some foo
unfolding find_namespace bytes list_beq
foo_there = refl

new_roots : bytes "pem" ≢ []
unfolding bytes
new_roots e = cc

foo-IsSelected : IsSelected controller foo
unfolding bytes
foo-IsSelected = record { matches = refl; stays = λ e. cc }

on_root_cas_event-HasCurrent_example :
    (reqs : List Str) × (on_root_cas_event controller (some (bytes "pem")) (ok cluster.namespaces)
      ≡ (with_roots controller (bytes "pem"), requests reqs))
    × HasCurrent
        (bytes "pem")
        (reconcile_all (with_roots controller (bytes "pem")) reqs cluster)
        (bytes "foo")
on_root_cas_event-HasCurrent_example =
    on_root_cas_event-HasCurrent controller (bytes "pem") cluster (bytes "foo") foo cluster-IsFiled
      new_roots foo_there foo-IsSelected
