-- ===== src/Server/Cluster.antt =====
-- A cluster of listed pods, as a client of the node authorizer, for the runs of the service.
use mathlib.Core.List.{Memᴰ}
use istio_csr.Base.{
  ◌≡◌, ◌↔◌, inl, inr, Bool, true, false, ◌&&◌, ◌||◌, Option, none, some, List, [], ◌∷◌, arith,
  list_eq, nat_eq, list_beq, list_beq_iff, Bool-cases, if◌then◌else◌,
}
use istio_csr.Base.Text.{Str, bytes}
use istio_csr.Server.NodeAuth.{name_beq, name_beq_iff, SaNode, Pod, PodClient}

abbrev sa_node_beq : SaNode → SaNode → Bool
sa_node_beq a b = name_beq a.service_account b.service_account && list_beq a.node b.node

sa_node_beq_iff : (a b : SaNode) → (sa_node_beq a b ≡ true) ↔ (a ≡ b)
sa_node_beq_iff a b =
    ground (arith, name_beq_iff a.service_account b.service_account, list_beq_iff a.node b.node)

unfoldable pub has_key : SaNode → List SaNode → Bool
has_key k [] = false
has_key k (x ∷ xs) = sa_node_beq k x || has_key k xs

pub has_key_sound : (k : SaNode) (xs : List SaNode) → has_key k xs ≡ true → Memᴰ k xs
unfolding has_key
has_key_sound k [] e = cc
has_key_sound k (x ∷ xs) e = elim (Bool-cases (sa_node_beq k x)) [
  | inl hit ↦ Memᴰ.head ((sa_node_beq_iff k x).0 hit)
  | inr miss ↦ Memᴰ.tail (has_key_sound k xs (ground arith))
]

pub has_key_complete : {k : SaNode} {xs : List SaNode} → Memᴰ k xs → has_key k xs ≡ true
unfolding has_key
has_key_complete {k} (Memᴰ.head {x} {xs} e) = rw ((sa_node_beq_iff k x).1 e)
has_key_complete (Memᴰ.tail m) = ground (arith, has_key_complete m)

unfoldable pub find_pod : List Pod → Str → Str → Option Pod
find_pod [] name namespace = none
find_pod (p ∷ ps) name namespace =
    let rest = find_pod ps name namespace in
    if list_beq p.name name && list_beq p.namespace namespace then some p else rest

pub find_pod_sound :
    (ps : List Pod) (name namespace : Str) {p : Pod}
    → find_pod ps name namespace ≡ some p
    → Memᴰ p ps × (p.name ≡ name) × (p.namespace ≡ namespace)
unfolding find_pod
find_pod_sound [] name namespace e = cc
find_pod_sound (q ∷ qs) name namespace {p} e =
    elim (Bool-cases (list_beq q.name name && list_beq q.namespace namespace)) [
      | inl hit ↦ (
        Memᴰ.head (ground arith),
        ground (arith, list_beq_iff q.name name),
        ground (arith, list_beq_iff q.namespace namespace),
      )
      | inr miss ↦
          let (m, same, same') = find_pod_sound qs name namespace {p = p} (ground arith) in
          (Memᴰ.tail m, same, same')
    ]

unfoldable pub pods_with : (Pod → List SaNode) → SaNode → List Pod → List Pod
pods_with keys k [] = []
pods_with keys k (p ∷ ps) =
    let rest = pods_with keys k ps in if has_key k (keys p) then p ∷ rest else rest

mem-keyed :
    (keys : Pod → List SaNode) (k : SaNode) {p q : Pod} {qs rest : List Pod}
    → has_key k (keys q) ≡ true
    → (Memᴰ p rest → Memᴰ p qs × (has_key k (keys p) ≡ true))
    → Memᴰ p (q ∷ rest)
    → Memᴰ p (q ∷ qs) × (has_key k (keys p) ≡ true)
mem-keyed keys k h later (Memᴰ.head e) = (Memᴰ.head e, ground arith)
mem-keyed keys k h later (Memᴰ.tail t) = let (there, e) = later t in (Memᴰ.tail there, e)

pub pods_with_sound :
    (keys : Pod → List SaNode) (k : SaNode) (ps : List Pod) {p : Pod}
    → Memᴰ p (pods_with keys k ps)
    → Memᴰ p ps × (has_key k (keys p) ≡ true)
unfolding pods_with
pods_with_sound keys k [] m = elim m [ ]
pods_with_sound keys k (q ∷ qs) {p} m = elim (Bool-cases (has_key k (keys q))) [
  | inl hit ↦ mem-keyed keys k hit (pods_with_sound keys k qs) (rw hit at m)
  | inr miss ↦
      let (later, e) = pods_with_sound keys k qs {p = p} (rw miss at m) in (Memᴰ.tail later, e)
]

pub pods_with_complete :
    (keys : Pod → List SaNode) (k : SaNode) {p : Pod} {ps : List Pod}
    → has_key k (keys p) ≡ true
    → Memᴰ p ps
    → Memᴰ p (pods_with keys k ps)
unfolding pods_with
pods_with_complete keys k {p} h (Memᴰ.head {x} {xs} e) =
    let hit : has_key k (keys x) ≡ true = ground arith in rw hit (Memᴰ.head e)
pods_with_complete keys k h (Memᴰ.tail {x} {xs} m) = elim (Bool-cases (has_key k (keys x))) [
  | inl hit ↦ rw hit (Memᴰ.tail (pods_with_complete keys k h m))
  | inr miss ↦ rw miss (pods_with_complete keys k h m)
]

abbrev pub cluster : List Pod → PodClient
cluster ps = record {
  pods = ps;
  get = find_pod ps;
  get_sound = find_pod_sound ps;
  lookup = λ keys k. pods_with keys k ps;
  lookup_iff = λ keys k p. (
    λ m. let (there, e) = pods_with_sound keys k ps m in (there, has_key_sound k (keys p) e),
    λ (there, keyed). pods_with_complete keys k (has_key_complete keyed) there,
  );
}

abbrev pub node_proxy : Pod
node_proxy = record {
  namespace = bytes "istio-system";
  name = bytes "ztunnel-1";
  uid = bytes "u1";
  service_account_name = bytes "ztunnel";
  node_name = bytes "n1";
}

abbrev pub workload_pod : Pod
workload_pod = record {
  namespace = bytes "foo";
  name = bytes "web";
  uid = bytes "u2";
  service_account_name = bytes "bar";
  node_name = bytes "n1";
}
