-- ===== src/Controller/Rotation.antt =====
-- A rotation of the roots: what the requests of one event do to the ConfigMaps of a cluster.
use mathlib.Core.List.{Memᴰ}
use istio_csr.Base.{
  ◌≡◌, ◌≢◌, refl, sym, ◌∙◌, ap, subst, inl, inr, Bool, true, some, List, [], ◌∷◌, arith, ok, ◌==◌,
  list_eq, nat_eq, list_beq_iff, Bool-cases,
}
use istio_csr.Base.Text.{Str}
use istio_csr.Base.Dict.{Dict, lookup-insert}
use istio_csr.Controller.{
  Namespace, Controller, Write, reconcile, matching, requests, on_root_cas_event,
}
use istio_csr.Controller.Outcome.{IsSelected, reconcile-Settles}
use istio_csr.Controller.Cluster.{
  Cluster, find_namespace, api_of, written, apply, IsFiled, HasCurrent, Writes, nothing, one,
  Settles-Writes, Settles-HasCurrent,
}

-- The requests, one after another.
unfoldable pub reconcile_all : Controller → List Str → Cluster → Cluster
reconcile_all c [] cluster = cluster
reconcile_all c (ns ∷ reqs) cluster =
    reconcile_all c reqs (apply (reconcile c (api_of cluster) ns).1 cluster)

module _ {pem ns : Str} (cluster : Cluster) where
  IsFiled-after :
      {ws : List Write} → IsFiled cluster → Writes pem ns ws → IsFiled (apply ws cluster)
  IsFiled-after filed nothing = filed
  IsFiled-after filed (one w same good) = λ m cm e. ground (
    arith,
    filed m cm,
    lookup-insert (written w).namespace m (written w) cluster.config_maps,
    list_beq_iff (written w).namespace m,
  )

  HasCurrent-after :
      {ws : List Write} (m : Str)
      → HasCurrent pem cluster m
      → Writes pem ns ws
      → HasCurrent pem (apply ws cluster) m
  HasCurrent-after m h nothing = h
  HasCurrent-after m (cm, there, current) (one w same good) =
      let inserted = lookup-insert (written w).namespace m (written w) cluster.config_maps in
      elim (Bool-cases ((written w).namespace == m)) [
        | inl own ↦ (written w, ground (arith, inserted), good)
        | inr other ↦ (cm, ground (arith, inserted), current)
      ]

  namespaces_after :
      {ws : List Write} → Writes pem ns ws → (apply ws cluster).namespaces ≡ cluster.namespaces
  namespaces_after nothing = refl
  namespaces_after (one w same good) = refl

module _ (c : Controller) where
  keeps_current :
      (reqs : List Str) (cluster : Cluster) (m : Str)
      → IsFiled cluster
      → HasCurrent c.root_cas_pem cluster m
      → HasCurrent c.root_cas_pem (reconcile_all c reqs cluster) m
  unfolding reconcile_all
  keeps_current [] cluster m filed h = h
  keeps_current (ns ∷ reqs) cluster m filed h =
      let w = Settles-Writes c cluster filed ns (reconcile-Settles c (api_of cluster) ns) in
      keeps_current reqs (apply (reconcile c (api_of cluster) ns).1 cluster) m
        (IsFiled-after cluster filed w) (HasCurrent-after cluster m h w)

  pub reconcile_all-HasCurrent :
      (reqs : List Str) (cluster : Cluster) (n : Namespace) {ns : Str}
      → IsFiled cluster
      → c.root_cas_pem ≢ []
      → find_namespace ns cluster.namespaces ≡ some n
      → IsSelected c n
      → Memᴰ ns reqs
      → HasCurrent c.root_cas_pem (reconcile_all c reqs cluster) ns
  unfolding reconcile_all
  reconcile_all-HasCurrent [] cluster n filed ready there s m = elim m [ ]
  reconcile_all-HasCurrent (r ∷ reqs) cluster n {ns} filed ready there s (Memᴰ.head same) =
      let settled = reconcile-Settles c (api_of cluster) r in
      let w = Settles-Writes c cluster filed r settled in
      keeps_current reqs (apply (reconcile c (api_of cluster) r).1 cluster) ns
        (IsFiled-after cluster filed w)
        (subst (HasCurrent c.root_cas_pem (apply (reconcile c (api_of cluster) r).1 cluster))
          (sym same) (Settles-HasCurrent c cluster filed r (ground arith) s ready settled))
  reconcile_all-HasCurrent (r ∷ reqs) cluster n {ns} filed ready there s (Memᴰ.tail t) =
      let w = Settles-Writes c cluster filed r (reconcile-Settles c (api_of cluster) r) in
      reconcile_all-HasCurrent reqs (apply (reconcile c (api_of cluster) r).1 cluster) n
        (IsFiled-after cluster filed w) ready
        (ap (find_namespace ns) (namespaces_after cluster w) ∙ there) s t

mem-matching :
    (selector : Dict Str → Bool) (name : Str) (ns : List Namespace) {n : Namespace}
    → find_namespace name ns ≡ some n
    → selector n.labels ≡ true
    → Memᴰ name (matching selector ns)
unfolding find_namespace matching
mem-matching selector name [] e s = cc
mem-matching selector name (m ∷ ns) {n} e s = elim (Bool-cases (m.name == name)) [
  | inl here ↦
      let matches : selector m.labels ≡ true = ground arith in
      rw matches (Memᴰ.head (sym ((list_beq_iff m.name name).0 here)))
  | inr later ↦
      let t = mem-matching selector name ns {n = n} (ground arith) s in
      elim (Bool-cases (selector m.labels)) [
        | inl matches ↦ rw matches (Memᴰ.tail t)
        | inr skipped ↦ rw skipped t
      ]
]

-- The controller after an event with these roots.
abbrev pub with_roots : Controller → Str → Controller
with_roots c pem = record c { root_cas_pem = pem }

-- An event with roots that are not empty, with every call of the API answered, gives requests after
-- which each namespace that the selector matches and that is not terminating has a ConfigMap whose
-- data is those roots and nothing else, and that has the label. ConfigMaps are kept under their own
-- namespaces.
pub on_root_cas_event-HasCurrent :
    (c : Controller) (pem : Str) (cluster : Cluster) (name : Str) (n : Namespace)
    → IsFiled cluster
    → pem ≢ []
    → find_namespace name cluster.namespaces ≡ some n
    → IsSelected c n
    → (reqs : List Str) × (on_root_cas_event c (some pem) (ok cluster.namespaces)
        ≡ (with_roots c pem, requests reqs))
      × HasCurrent pem (reconcile_all (with_roots c pem) reqs cluster) name
unfolding on_root_cas_event
on_root_cas_event-HasCurrent c pem cluster name n filed ready there s = (
  matching c.namespace_selector cluster.namespaces,
  refl,
  reconcile_all-HasCurrent (with_roots c pem) (matching c.namespace_selector cluster.namespaces)
      cluster n filed ready there (record { matches = s.matches; stays = s.stays })
      (mem-matching c.namespace_selector name cluster.namespaces there s.matches),
)
