-- ===== src/Server/NodeAuth/Impersonation.antt =====
-- When authenticateImpersonation lets a node proxy ask for another identity.
use mathlib.Core.List.{Memᴰ}
use istio_csr.Base.{
  ◌≡◌, ◌≢◌, refl, sym, ◌⊎◌, ◌↔◌, inl, inr, true, false, Option, some, List, [], ◌∷◌, arith, ◌==◌,
  list_eq, nat_eq, list_beq_iff, ok, is_empty, Option-cases, Bool-cases, subst,
}
use istio_csr.Base.Text.{Str}
use istio_csr.Server.NodeAuth.{
  NamespacedName, name_beq_iff, name_eq, SaNode, Pod, KubernetesInfo, Identity, sa_nodes,
  ClusterNodeAuthorizer, node_index, contains, authenticate_impersonation,
}

pub contains_sound :
    (xs : List NamespacedName) (a : NamespacedName) → contains xs a ≡ true → Memᴰ a xs
unfolding contains
contains_sound [] a e = cc
contains_sound (x ∷ xs) a e = elim (Bool-cases (a == x)) [
  | inl hit ↦ Memᴰ.head ((name_beq_iff a x).0 hit)
  | inr miss ↦ Memᴰ.tail (contains_sound xs a (ground arith))
]

pub contains_complete :
    {a : NamespacedName} {xs : List NamespacedName} → Memᴰ a xs → contains xs a ≡ true
unfolding contains
contains_complete {a} (Memᴰ.head {x} {xs} e) = rw ((name_beq_iff a x).1 e)
contains_complete (Memᴰ.tail m) = ground (arith, contains_complete m)

abbrev pub caller_account : KubernetesInfo → NamespacedName
caller_account caller = record {
  namespace = caller.pod_namespace;
  name = caller.pod_service_account;
}

-- The key that is looked up: the requested account on the caller's node.
abbrev pub wanted : Identity → Pod → SaNode
wanted identity caller_pod = record {
  service_account = record { namespace = identity.namespace; name = identity.service_account };
  node = caller_pod.node_name;
}

-- A pod of the service account runs on the node; both are named.
pub record IsHosted (pods : List Pod) (k : SaNode) : Type 0 where
  pub host : Pod
  pub running : Memᴰ host pods
  pub namespace : host.namespace ≡ k.service_account.namespace
  pub account : host.service_account_name ≡ k.service_account.name
  pub same_node : host.node_name ≡ k.node
  pub scheduled : k.node ≢ []
  pub named : k.service_account.name ≢ []

-- What stands behind a permitted impersonation: a trusted caller, whose own pod is the current one
-- of its name, and a pod of the requested service account on the same node.
pub record MayImpersonate (parse_identity : Str → Option Identity) (na : ClusterNodeAuthorizer)
    (caller : KubernetesInfo) (requested : Str) : Type 0 where
  pub trusted : Memᴰ (caller_account caller) na.trusted_node_accounts
  pub identity : Identity
  pub parsed : parse_identity requested ≡ some identity
  pub caller_pod : Pod
  pub found : na.pods.get caller.pod_name caller.pod_namespace ≡ some caller_pod
  pub current : caller_pod.uid ≡ caller.pod_uid
  pub account : caller_pod.service_account_name ≡ caller.pod_service_account
  pub hosted : IsHosted na.pods.pods (wanted identity caller_pod)

abbrev key_of : Pod → SaNode
key_of p = record {
  service_account = record { namespace = p.namespace; name = p.service_account_name };
  node = p.node_name;
}

sa_nodes_cases :
    (p : Pod)
    → (((p.node_name ≡ []) ⊎ (p.service_account_name ≡ [])) × (sa_nodes p ≡ []))
      ⊎ ((p.node_name ≢ []) × (p.service_account_name ≢ []) × (sa_nodes p ≡ key_of p ∷ []))
unfolding sa_nodes
sa_nodes_cases p = ground arith

eq_of_mem_one {ℓ} : {A : Type ℓ} {k a : A} → Memᴰ k (a ∷ []) → k ≡ a
eq_of_mem_one (Memᴰ.head e) = e
eq_of_mem_one (Memᴰ.tail m) = elim m [ ]

mem-sa_nodes-IsHosted :
    (pods : List Pod) (k : SaNode) (p : Pod) → Memᴰ p pods → Memᴰ k (sa_nodes p) → IsHosted pods k
mem-sa_nodes-IsHosted pods k p running m = elim (sa_nodes_cases p) [
  | inl (empty, e) ↦ elim (subst (Memᴰ k) e m) [ ]
  | inr (node, account, e) ↦
      let same : k ≡ key_of p = eq_of_mem_one (subst (Memᴰ k) e m) in
      record {
        host = p;
        running = running;
        namespace = cc;
        account = cc;
        same_node = cc;
        scheduled = λ n. node (cc);
        named = λ n. account (cc);
      }
]

mem-sa_nodes_of_IsHosted :
    {pods : List Pod} {k : SaNode} (h : IsHosted pods k) → Memᴰ k (sa_nodes h.host)
mem-sa_nodes_of_IsHosted {k} h =
    let keys : sa_nodes h.host ≡ key_of h.host ∷ [] = ground (arith, sa_nodes_cases h.host) in
    subst (Memᴰ k) (sym keys) (Memᴰ.head (ground arith))

some_member {ℓ} : {A : Type ℓ} (xs : List A) → is_empty xs ≡ false → (a : A) × Memᴰ a xs
some_member [] e = cc
some_member (x ∷ xs) e = (x, Memᴰ.head refl)

not_empty {ℓ} : {A : Type ℓ} {a : A} {xs : List A} → Memᴰ a xs → is_empty xs ≡ false
not_empty (Memᴰ.head e) = refl
not_empty (Memᴰ.tail m) = refl

node_index-IsHosted_iff :
    (na : ClusterNodeAuthorizer) (k : SaNode)
    → (is_empty (node_index na k) ≡ false) ↔ IsHosted na.pods.pods k
node_index-IsHosted_iff na k = (
  λ e.
      let (host, listed) = some_member (node_index na k) e in
      let (running, keyed) = (na.pods.lookup_iff sa_nodes k host).0 listed in
      mem-sa_nodes-IsHosted na.pods.pods k host running keyed,
  λ h. not_empty ((na.pods.lookup_iff sa_nodes k h.host).1 (h.running, mem-sa_nodes_of_IsHosted h)),
)

module _ (parse_identity : Str → Option Identity) (na : ClusterNodeAuthorizer)
    (caller : KubernetesInfo) (requested : Str) where
  impersonation_sound :
      authenticate_impersonation parse_identity na caller requested ≡ ok tt
      → MayImpersonate parse_identity na caller requested
  unfolding authenticate_impersonation
  impersonation_sound e = elim (Option-cases (parse_identity requested)) [
    | inl bad ↦ ground arith
    | inr (identity, parsed) ↦
        elim (Option-cases (na.pods.get caller.pod_name caller.pod_namespace)) [
          | inl missing ↦ ground arith
          | inr (pod, found) ↦ record {
            trusted =
                contains_sound na.trusted_node_accounts (caller_account caller) (ground arith);
            identity = identity;
            parsed = parsed;
            caller_pod = pod;
            found = found;
            current = ground (arith, list_beq_iff pod.uid caller.pod_uid);
            account =
                ground (arith, list_beq_iff pod.service_account_name caller.pod_service_account);
            hosted = (node_index-IsHosted_iff na (wanted identity pod)).0 (ground arith);
          }
        ]
  ]

  impersonation_complete :
      MayImpersonate parse_identity na caller requested
      → authenticate_impersonation parse_identity na caller requested ≡ ok tt
  unfolding authenticate_impersonation
  impersonation_complete m = ground (
    arith,
    contains_complete m.trusted,
    list_beq_iff m.caller_pod.uid caller.pod_uid,
    list_beq_iff m.caller_pod.service_account_name caller.pod_service_account,
    (node_index-IsHosted_iff na (wanted m.identity m.caller_pod)).1 m.hosted,
  )

-- A node proxy may ask for an identity exactly when its account is trusted, the identity parses,
-- its own pod is the current one of its name and account, and a pod of the requested service
-- account runs on the same node; the account and the node are then not empty.
pub authenticate_impersonation_iff :
    (parse_identity : Str → Option Identity) (na : ClusterNodeAuthorizer) (caller : KubernetesInfo)
    (requested : Str)
    → (authenticate_impersonation parse_identity na caller requested ≡ ok tt)
      ↔ MayImpersonate parse_identity na caller requested
authenticate_impersonation_iff parse_identity na caller requested = (
  impersonation_sound parse_identity na caller requested,
  impersonation_complete parse_identity na caller requested,
)
