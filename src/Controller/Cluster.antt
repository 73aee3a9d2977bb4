-- ===== src/Controller/Cluster.antt =====
-- One request of the controller against an API server that answers every call.
use istio_csr.Base.{
  ◌≡◌, ◌≢◌, refl, ◌∙◌, ap, subst, inl, inr, Option, none, some, List, [], ◌∷◌, arith, Result, ok,
  err, ◌==◌, list_eq, nat_eq, list_beq, list_beq_iff, Option-cases, if◌then◌else◌,
}
use istio_csr.Base.Text.{Str, bytes}
use istio_csr.Base.Dict.{Dict, lookup, insert, lookup-insert}
use istio_csr.Controller.{
  Namespace, ConfigMap, Controller, ApiError, not_found, Api, Return, Write, created, updated,
  new_config_map,
}
use istio_csr.Controller.Repair.{IsCurrent, repair-keeps}
use istio_csr.Controller.Outcome.{
  IsSelected, Syncs, creating, no_config_map, updating, untouched, Settles, absent, no_namespace,
  ignored, not_ready, active,
}

-- An API server that answers every call: the namespaces, and the root ConfigMap of each namespace
-- that has one.
pub record Cluster : Type 0 where
  pub namespaces : List Namespace
  pub config_maps : Dict ConfigMap

unfoldable pub find_namespace : Str → List Namespace → Option Namespace
find_namespace name [] = none
find_namespace name (n ∷ ns) = if n.name == name then some n else find_namespace name ns

abbrev pub found {ℓ} : {A : Type ℓ} → Option A → Result ApiError A
found none = err not_found
found (some a) = ok a

abbrev pub api_of : Cluster → Api
api_of cluster = record {
  get_namespace = λ name. found (find_namespace name cluster.namespaces);
  get_config_map = λ namespace name. found (lookup namespace cluster.config_maps);
  create = λ cm. none;
  update = λ cm. none;
}

abbrev pub written : Write → ConfigMap
written (created cm) = cm
written (updated cm) = cm

abbrev pub store : ConfigMap → Cluster → Cluster
store cm cluster = record cluster { config_maps = insert cm.namespace cm cluster.config_maps }

abbrev pub apply : List Write → Cluster → Cluster
apply [] cluster = cluster
apply (w ∷ ws) cluster = apply ws (store (written w) cluster)

-- A ConfigMap is kept under its own namespace.
abbrev pub IsFiled : Cluster → Type 0
IsFiled cluster =
    (ns : Str) (cm : ConfigMap) → lookup ns cluster.config_maps ≡ some cm → cm.namespace ≡ ns

-- The namespace has a current ConfigMap.
abbrev pub HasCurrent : Str → Cluster → Str → Type 0
HasCurrent pem cluster ns =
    (cm : ConfigMap) × (lookup ns cluster.config_maps ≡ some cm) × IsCurrent pem cm

new-IsCurrent : (ns pem : Str) → IsCurrent pem (new_config_map ns pem)
unfolding lookup list_beq bytes
new-IsCurrent ns pem = record { contents = λ k. refl; label = refl }

-- What one request of a cluster writes: nothing, or one current ConfigMap for its namespace.
pub data Writes (pem ns : Str) : List Write → Type 0 where
  nothing : Writes pem ns []
  one :
      (w : Write) → (written w).namespace ≡ ns → IsCurrent pem (written w) → Writes pem ns (w ∷ [])

found_eq_ok {ℓ} : {A : Type ℓ} (o : Option A) {a : A} → found o ≡ ok a → o ≡ some a
found_eq_ok none e = cc
found_eq_ok (some b) e = ground arith

module _ (c : Controller) (cluster : Cluster) (filed : IsFiled cluster) (ns : Str) where
  Syncs-Writes :
      {out : Return × List Write} → Syncs c (api_of cluster) ns out → Writes c.root_cas_pem ns out.1
  Syncs-Writes (creating missing) =
      one (created (new_config_map ns c.root_cas_pem)) refl (new-IsCurrent ns c.root_cas_pem)
  Syncs-Writes (no_config_map bad) = nothing
  Syncs-Writes (updating cm cm' there stale good same) =
      one (updated cm')
        (ap (λ x. x.namespace) same
          ∙ (repair-keeps c.root_cas_pem cm).0
          ∙ filed ns cm (found_eq_ok (lookup ns cluster.config_maps) there))
        good
  Syncs-Writes (untouched cm there good) = nothing

  pub Settles-Writes :
      {out : Return × List Write}
      → Settles c (api_of cluster) ns out
      → Writes c.root_cas_pem ns out.1
  Settles-Writes (absent e) = nothing
  Settles-Writes (no_namespace e) = nothing
  Settles-Writes (ignored there unselected) = nothing
  Settles-Writes (not_ready there s e) = nothing
  Settles-Writes (active there s ready y) = Syncs-Writes y

  store-HasCurrent :
      (cm : ConfigMap)
      → cm.namespace ≡ ns
      → IsCurrent c.root_cas_pem cm
      → HasCurrent c.root_cas_pem (store cm cluster) ns
  store-HasCurrent cm same good = (
    cm,
    ground
        (arith, lookup-insert cm.namespace ns cm cluster.config_maps, list_beq_iff cm.namespace ns),
    good,
  )

  Syncs-HasCurrent :
      {out : Return × List Write}
      → Syncs c (api_of cluster) ns out
      → HasCurrent c.root_cas_pem (apply out.1 cluster) ns
  Syncs-HasCurrent (creating missing) =
      store-HasCurrent (new_config_map ns c.root_cas_pem) refl (new-IsCurrent ns c.root_cas_pem)
  Syncs-HasCurrent (no_config_map bad) = elim (Option-cases (lookup ns cluster.config_maps)) [
    | inl missing ↦ ground arith
    | inr (cm, there) ↦ ground arith
  ]
  Syncs-HasCurrent (updating cm cm' there stale good same) =
      store-HasCurrent cm'
        (ap (λ x. x.namespace) same
          ∙ (repair-keeps c.root_cas_pem cm).0
          ∙ filed ns cm (found_eq_ok (lookup ns cluster.config_maps) there))
        good
  Syncs-HasCurrent (untouched cm there good) =
      (cm, found_eq_ok (lookup ns cluster.config_maps) there, good)

  pub Settles-HasCurrent :
      {n : Namespace} {out : Return × List Write}
      → find_namespace ns cluster.namespaces ≡ some n
      → IsSelected c n
      → c.root_cas_pem ≢ []
      → Settles c (api_of cluster) ns out
      → HasCurrent c.root_cas_pem (apply out.1 cluster) ns
  Settles-HasCurrent e s ready (absent missing) = ground arith
  Settles-HasCurrent e s ready (no_namespace bad) = ground arith
  Settles-HasCurrent {n} e s ready (ignored there unselected) =
      absurd (unselected (subst (IsSelected c) (ground arith) s))
  Settles-HasCurrent e s ready (not_ready there s' empty) = absurd (ready empty)
  Settles-HasCurrent e s ready (active there s' ready' y) = Syncs-HasCurrent y
