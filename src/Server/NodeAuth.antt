-- ===== src/Server/NodeAuth.antt =====
-- pkg/server/node_auth.go, and the parsing of CATrustedNodeAccounts in pkg/server/server.go: when a
-- node proxy may ask for the certificate of a workload.
pub mod Trusted
pub mod Impersonation
use mathlib.Core.List.{Memᴰ}
use istio_csr.Base.{
  ℕ, ◌≡◌, ◌↔◌, Bool, true, false, not, ◌&&◌, ◌||◌, Option, none, some, List, [], ◌∷◌, ◌++◌, arith,
  Eq, ◌==◌, list_eq, nat_eq, list_beq, list_beq_iff, Result, ok, err, ◌>>=◌, ◌>>◌, guard, or_fail,
  is_empty, if◌then◌else◌, nat_beq,
}
use istio_csr.Base.Text.{Str}

-- k8s.io/apimachinery's NamespacedName.
pub record NamespacedName : Type 0 where
  pub namespace : Str
  pub name : Str

abbrev pub name_beq : NamespacedName → NamespacedName → Bool
name_beq a b = list_beq a.namespace b.namespace && list_beq a.name b.name

pub name_beq_iff : (a b : NamespacedName) → (name_beq a b ≡ true) ↔ (a ≡ b)
name_beq_iff a b = ground (arith, list_beq_iff a.namespace b.namespace, list_beq_iff a.name b.name)

instance abbrev pub name_eq : Eq NamespacedName
name_eq = record { same = name_beq; same_iff = name_beq_iff }

-- istio's ca.SaNode, the key of the index.
pub record SaNode : Type 0 where
  pub service_account : NamespacedName
  pub node : Str

-- The parts of a Kubernetes pod that the authorizer reads.
pub record Pod : Type 0 where
  pub namespace : Str
  pub name : Str
  pub uid : Str
  pub service_account_name : Str
  pub node_name : Str

-- istio's security.KubernetesInfo.
pub record KubernetesInfo : Type 0 where
  pub pod_name : Str
  pub pod_namespace : Str
  pub pod_uid : Str
  pub pod_service_account : Str

-- istio's spiffe.Identity.
pub record Identity : Type 0 where
  pub trust_domain : Str
  pub namespace : Str
  pub service_account : Str

-- The function that NewClusterNodeAuthorizer gives to `CreateIndex`: the keys of a pod.
unfoldable pub sa_nodes : Pod → List SaNode
sa_nodes pod =
    if is_empty pod.node_name
    then []
    else if is_empty pod.service_account_name
    then []
    else record {
      service_account = record { namespace = pod.namespace; name = pod.service_account_name };
      node = pod.node_name;
    }
      ∷ []

-- istio's kclient: the pods of the cluster, `Get`, and the `Lookup` of an index that was made by a
-- function from pods to keys.
pub record PodClient : Type 0 where
  pub pods : List Pod
  pub get : Str → Str → Option Pod
  pub get_sound :
      (name namespace : Str) {p : Pod}
      → get name namespace ≡ some p
      → Memᴰ p pods × (p.name ≡ name) × (p.namespace ≡ namespace)
  pub lookup : (Pod → List SaNode) → SaNode → List Pod
  pub lookup_iff :
      (keys : Pod → List SaNode) (k : SaNode) (p : Pod)
      → Memᴰ p (lookup keys k) ↔ (Memᴰ p pods × Memᴰ k (keys p))

pub record ClusterNodeAuthorizer : Type 0 where
  pub trusted_node_accounts : List NamespacedName
  pub pods : PodClient

-- `nodeIndex.Lookup(k)`.
abbrev pub node_index : ClusterNodeAuthorizer → SaNode → List Pod
node_index na k = na.pods.lookup sa_nodes k

-- The errors of authenticateImpersonation.
pub data ImpersonationError : Type 0 where
  not_allowed_to_impersonate : KubernetesInfo → ImpersonationError
  bad_identity : Str → ImpersonationError
  pod_not_found : Str → Str → ImpersonationError
  uid_does_not_match : Str → Str → ImpersonationError
  service_account_does_not_match : Str → Str → ImpersonationError
  no_instances : SaNode → ImpersonationError

-- Membership in a set of istio's util/sets.
unfoldable pub contains : List NamespacedName → NamespacedName → Bool
contains [] a = false
contains (x ∷ xs) a = a == x || contains xs a

-- `parse_identity` is istio's spiffe.ParseIdentity.
module _ (parse_identity : Str → Option Identity) where
  unfoldable pub authenticate_impersonation :
      ClusterNodeAuthorizer → KubernetesInfo → Str → Result ImpersonationError (Unit {0})
  authenticate_impersonation na caller requested = do
    let caller_sa : NamespacedName = record {
      namespace = caller.pod_namespace;
      name = caller.pod_service_account;
    }
    guard (contains na.trusted_node_accounts caller_sa) (not_allowed_to_impersonate caller)
    identity ← or_fail (parse_identity requested) (bad_identity requested)
    caller_pod ←
        or_fail (na.pods.get caller.pod_name caller.pod_namespace)
          (pod_not_found caller.pod_namespace caller.pod_name)
    guard (caller_pod.uid == caller.pod_uid) (uid_does_not_match caller_pod.uid caller.pod_uid)
    guard (caller_pod.service_account_name == caller.pod_service_account)
        (service_account_does_not_match caller_pod.service_account_name caller.pod_service_account)
    let k : SaNode = record {
      service_account = record { namespace = identity.namespace; name = identity.service_account };
      node = caller_pod.node_name;
    }
    guard (not (is_empty (node_index na k))) (no_instances k)
