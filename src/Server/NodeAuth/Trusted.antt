-- ===== src/Server/NodeAuth/Trusted.antt =====
-- pkg/server/server.go, New: the trusted node accounts, given as "namespace/name".
use mathlib.Core.List.{Memᴰ}
use istio_csr.Base.{
  ℕ, ◌≡◌, ◌≢◌, refl, sym, ap, ◌↔◌, inl, inr, true, false, not, Option, none, some, List, [], ◌∷◌,
  ◌++◌, map, arith, nat_beq, Option-cases, subst, if◌then◌else◌, is_empty, All, ap, ◌∙◌,
}
use istio_csr.Base.Text.{Str}
use istio_csr.Server.NodeAuth.{NamespacedName, PodClient, ClusterNodeAuthorizer}

abbrev pub slash : ℕ
slash = b'/'

-- `strings.Cut(v, "/")`: the text before and after the first slash.
unfoldable pub cut : Str → Option (Str × Str)
cut [] = none
cut (c ∷ s) = elim (nat_beq c slash) [
  | true ↦ some ([], s)
  | false ↦ elim (cut s) [ none ↦ none | some (before, after) ↦ some (c ∷ before, after) ]
]

-- The loop over CATrustedNodeAccounts; an entry with no slash is ignored. The set is a list that
-- is read by membership only.
unfoldable pub trusted_accounts : List Str → List NamespacedName
trusted_accounts [] = []
trusted_accounts (v ∷ vs) = elim (cut v) [
  | none ↦ trusted_accounts vs
  | some (ns, sa) ↦ record { namespace = ns; name = sa } ∷ trusted_accounts vs
]

-- The node authorizer of the server: none where no account is configured.
unfoldable pub node_authorizer : PodClient → List Str → Option ClusterNodeAuthorizer
node_authorizer client accounts =
    if not (is_empty accounts)
    then some (record { trusted_node_accounts = trusted_accounts accounts; pods = client })
    else none

abbrev pub NoSlash : Str → Type 0
NoSlash s = All (λ c. c ≢ slash) s

cut_sound : (v ns sa : Str) → cut v ≡ some (ns, sa) → NoSlash ns × (v ≡ ns ++ slash ∷ sa)
unfolding cut
cut_sound [] ns sa e = cc
cut_sound (c ∷ s) [] sa e = (tt, ground arith)
cut_sound (c ∷ s) (n ∷ ns) sa e =
    let tail : cut s ≡ some (ns, sa) = ground arith in
    let (clean, split) = cut_sound s ns sa tail in ((ground arith, clean), ground (arith, split))

cut_complete : (ns sa : Str) → NoSlash ns → cut (ns ++ slash ∷ sa) ≡ some (ns, sa)
unfolding cut
cut_complete [] sa h = refl
cut_complete (c ∷ ns) sa h = ground (arith, cut_complete ns sa h.1)

-- An entry stands for an account: its text is the namespace, a slash and the name, and the
-- namespace has no slash.
abbrev pub Names : Str → NamespacedName → Type 0
Names v a = NoSlash a.namespace × (v ≡ a.namespace ++ slash ∷ a.name)

-- Some configured entry stands for the account.
pub data IsConfigured (a : NamespacedName) : List Str → Type 0 where
  here : {v : Str} {vs : List Str} → Names v a → IsConfigured a (v ∷ vs)
  there : {v : Str} {vs : List Str} → IsConfigured a vs → IsConfigured a (v ∷ vs)

mem-entry :
    {a b : NamespacedName} {v : Str} {vs : List Str} {rest : List NamespacedName}
    → Names v b
    → (Memᴰ a rest → IsConfigured a vs)
    → Memᴰ a (b ∷ rest)
    → IsConfigured a (v ∷ vs)
mem-entry {v} n ih (Memᴰ.head e) = here (subst (Names v) (sym e) n)
mem-entry n ih (Memᴰ.tail t) = there (ih t)

trusted_sound :
    (a : NamespacedName) (vs : List Str) → Memᴰ a (trusted_accounts vs) → IsConfigured a vs
unfolding trusted_accounts
trusted_sound a [] m = elim m [ ]
trusted_sound a (v ∷ vs) m = elim (Option-cases (cut v)) [
  | inl bad ↦ there (trusted_sound a vs (rw (bad, trusted_accounts) at m))
  | inr ((ns, sa), good) ↦
      mem-entry (cut_sound v ns sa good) (trusted_sound a vs) (rw (good, trusted_accounts) at m)
]

trusted_complete :
    {a : NamespacedName} {vs : List Str} → IsConfigured a vs → Memᴰ a (trusted_accounts vs)
unfolding trusted_accounts
trusted_complete {a} (here {v} {vs} n) =
    let good : cut v ≡ some (a.namespace, a.name) =
      ap cut n.1 ∙ cut_complete a.namespace a.name n.0 in
    rw (good, trusted_accounts) (Memᴰ.head refl)
trusted_complete (there {v} {vs} c) = elim (Option-cases (cut v)) [
  | inl bad ↦ rw (bad, trusted_accounts) (trusted_complete c)
  | inr (parts, good) ↦ rw (good, trusted_accounts) (Memᴰ.tail (trusted_complete c))
]

-- The trusted accounts are exactly those that a configured entry stands for, split at its first
-- slash; entries without a slash add none.
pub trusted_accounts_iff :
    (accounts : List Str) (a : NamespacedName)
    → Memᴰ a (trusted_accounts accounts) ↔ IsConfigured a accounts
trusted_accounts_iff accounts a = (trusted_sound a accounts, trusted_complete)

-- An account as an entry writes it.
abbrev pub entry_of : NamespacedName → Str
entry_of a = a.namespace ++ slash ∷ a.name

-- Accounts that are written as entries are read back as they were, in their order, where no
-- namespace has a slash; a name may have some.
pub trusted_accounts-entries :
    (accounts : List NamespacedName)
    → All (λ a. NoSlash a.namespace) accounts
    → trusted_accounts (map entry_of accounts) ≡ accounts
unfolding trusted_accounts
trusted_accounts-entries [] h = refl
trusted_accounts-entries (a ∷ accounts) h =
    ground (arith, cut_complete a.namespace a.name h.0, trusted_accounts-entries accounts h.1)
