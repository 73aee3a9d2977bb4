-- ===== src/Tls/Roots.antt =====
-- What loadCAsRoot does to the roots and to their subscribers.
use istio_csr.Base.{
  ℕ, zero, suc, ◌<◌, ◌≡◌, ◌≢◌, subst, inl, inr, Option, none, some, List, [], ◌∷◌, ◌++◌, arith, All,
  ◌==◌, list_eq, nat_eq, list_beq_iff, Bool-cases, Option-cases,
}
use istio_csr.Base.Text.{Str}
use istio_csr.Rootca.{RootCas, roots_of}
use istio_csr.Tls.{Libraries, Provider}
use istio_csr.Tls.Fetch.{indices, announce, load_cas_root}

module _ (lib : Libraries) where
  -- The outcome of a bundle's CA: nothing for the PEM that is held, an error for one that does not
  -- decode, else its roots and a message to each subscriber.
  pub data Loads (p : Provider lib) (pem : Str) : Option (Provider lib) → Type 0 where
    unchanged : p.root_cas.pem ≡ pem → Loads p pem (some p)
    undecodable : p.root_cas.pem ≢ pem → roots_of lib.pools pem ≡ none → Loads p pem none
    changed :
        (root_cas : RootCas lib.pools.Pool)
        → p.root_cas.pem ≢ pem
        → roots_of lib.pools pem ≡ some root_cas
        → root_cas.pem ≡ pem
        → Loads p pem (some (announce lib (record p { root_cas = root_cas })))

  pub roots_of-pem :
      (pem : Str) {r : RootCas lib.pools.Pool} → roots_of lib.pools pem ≡ some r → r.pem ≡ pem
  roots_of-pem pem e = elim (Option-cases (lib.pools.decode_x509_certificate_set_bytes pem)) [
    | inl bad ↦ ground arith
    | inr (certs, good) ↦ ground arith
  ]

  load_cases : (p : Provider lib) (pem : Str) → Loads p pem (load_cas_root lib p pem)
  unfolding load_cas_root
  load_cases p pem = elim (Bool-cases (p.root_cas.pem == pem)) [
    | inl same ↦
        subst (Loads p pem) (ground arith) (unchanged ((list_beq_iff p.root_cas.pem pem).0 same))
    | inr other ↦
        let differs : p.root_cas.pem ≢ pem =
          λ e. cc (other, (list_beq_iff p.root_cas.pem pem).1 e) in
        elim (Option-cases (roots_of lib.pools pem)) [
          | inl bad ↦ subst (Loads p pem) (ground arith) (undecodable differs bad)
          | inr (r, good) ↦
              subst (Loads p pem) (ground arith) (changed r differs good (roots_of-pem pem good))
        ]
  ]

-- loadCAsRoot on every branch: the PEM that is held already changes nothing; one that does not
-- decode is an error; else its roots become those of the mesh, and a message to each subscriber is
-- started.
pub load_cas_root-Loads :
    (lib : Libraries) (p : Provider lib) (pem : Str) → Loads lib p pem (load_cas_root lib p pem)
load_cas_root-Loads lib p pem = load_cases lib p pem

-- All indices are below n.
abbrev pub AllBelow : ℕ → List ℕ → Type 0
AllBelow n is = All (λ i. i < n) is

pub AllBelow-append :
    (n : ℕ) (is js : List ℕ) → AllBelow n is → AllBelow n js → AllBelow n (is ++ js)
AllBelow-append n [] js h k = k
AllBelow-append n (i ∷ is) js (b, h) k = (b, AllBelow-append n is js h k)

pub AllBelow-suc : (n : ℕ) (is : List ℕ) → AllBelow n is → AllBelow (suc n) is
AllBelow-suc n [] h = tt
AllBelow-suc n (i ∷ is) (b, h) = (omega (arith, b), AllBelow-suc n is h)

pub indices-AllBelow : (n : ℕ) → AllBelow n (indices n)
indices-AllBelow zero = tt
indices-AllBelow (suc n) =
    AllBelow-append (suc n) (indices n) (n ∷ []) (AllBelow-suc n (indices n) (indices-AllBelow n))
      (omega arith, tt)
