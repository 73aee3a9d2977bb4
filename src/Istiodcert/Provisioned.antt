-- ===== src/Istiodcert/Provisioned.antt =====
-- What Reconcile does with istiod's certificate, on every branch.
use mathlib.Core.List.{append-nil}
use istio_csr.Base.{
  ◌≡◌, ◌≢◌, refl, sym, subst, ◌⊎◌, true, not, ◌++◌, ◌==◌, list_eq, nat_eq, list_beq_iff, is_empty,
  Bool-cases, if◌then◌else◌, inl, inr, none, some, List, [], ◌∷◌, arith, ok, err, Option-cases,
  Result-cases,
}
use istio_csr.Base.Text.{Str, bytes}
use istio_csr.Certmanager.{IssuerReference}
use istio_csr.Istiodcert.Validation.{Options}
use istio_csr.Istiodcert.Worker.{
  CertificateSpec, default_revision, default_san, names_of, make_dns_names_from_revisions,
  Certificate, Provisioner, not_found, other_error, Api, Return, done, failed, Write, created,
  updated, returned, desired_spec, new_certificate, reconcile,
}

-- The names of the revisions, in their order: "default" has the one without a revision.
pub data AreNames (namespace : Str) : List Str → List Str → Type 0 where
  no_names : AreNames namespace [] []
  default_name :
      {revisions names : List Str}
      → AreNames namespace revisions names
      → AreNames namespace
          (bytes "default" ∷ revisions)
          ((bytes "istiod." ++ namespace ++ bytes ".svc") ∷ names)
  revision_name :
      {revision : Str} {revisions names : List Str}
      → revision ≢ bytes "default"
      → AreNames namespace revisions names
      → AreNames namespace
          (revision ∷ revisions)
          ((bytes "istiod-" ++ revision ++ bytes "." ++ namespace ++ bytes ".svc") ∷ names)

-- The spec is that of istiod's certificate from the issuer.
pub record IsSpec (opts : Options) (trust_domain namespace : Str) (r : IssuerReference)
    (spec : CertificateSpec) : Type 0 where
  pub issuer : spec.issuer_ref ≡ r
  pub common_name : spec.common_name ≡ bytes "istiod." ++ namespace ++ bytes ".svc"
  -- the names of the revisions, of "default" where there is none, and then the additional ones
  pub revisions : List Str
  pub chosen :
      ((opts.istio_revisions ≡ []) × (revisions ≡ bytes "default" ∷ []))
      ⊎ ((opts.istio_revisions ≢ []) × (revisions ≡ opts.istio_revisions))
  pub names : List Str
  pub named : AreNames namespace revisions names
  pub dns_names : spec.dns_names ≡ names ++ opts.additional_dns_names
  pub uris :
      spec.uris
      ≡ (bytes "spiffe://"
          ++ trust_domain
          ++ bytes "/ns/"
          ++ namespace
          ++ bytes "/sa/istiod-service-account")
        ∷ []
  pub secret : spec.secret_name ≡ bytes "istiod-tls"
  pub times : (spec.duration ≡ opts.duration) × (spec.renew_before ≡ opts.renew_before)
  pub key : (spec.algorithm ≡ opts.cm_key_algorithm) × (spec.size ≡ opts.key_size)
  pub rotated : spec.rotation_policy_always ≡ true
  pub history : spec.revision_history_limit ≡ 1

names_of-AreNames :
    (namespace : Str) (rs : List Str) → AreNames namespace rs (names_of namespace rs)
unfolding names_of
names_of-AreNames namespace [] = no_names
names_of-AreNames namespace (r ∷ rs) =
    let rest = names_of-AreNames namespace rs in
    elim (Bool-cases (r == default_revision)) [
      | inl is_default ↦
          let same : default_revision ≡ r = sym ((list_beq_iff r default_revision).0 is_default) in
          rw (is_default, names_of)
            (subst
              (λ (x : Str).
                AreNames namespace (x ∷ rs) (default_san namespace ∷ names_of namespace rs))
              same (default_name rest))
      | inr other ↦
          rw (other, names_of)
            (revision_name (λ e. cc (other, (list_beq_iff r default_revision).1 e)) rest)
    ]

additional_names :
    (names additional : List Str)
    → (if not (is_empty additional) then names ++ additional else names) ≡ names ++ additional
additional_names names [] = sym (append-nil names)
additional_names names (a ∷ additional) = refl

desired_spec-IsSpec :
    (p : Provisioner) (namespace : Str) (r : IssuerReference)
    → IsSpec p.opts p.trust_domain namespace r (desired_spec p namespace r)
unfolding desired_spec make_dns_names_from_revisions
desired_spec-IsSpec p namespace r = record {
  issuer = refl;
  common_name = refl;
  revisions = chosen_revisions;
  chosen = choice p.opts.istio_revisions;
  names = names_of namespace chosen_revisions;
  named = names_of-AreNames namespace chosen_revisions;
  dns_names = additional_names (names_of namespace chosen_revisions) p.opts.additional_dns_names;
  uris = refl;
  secret = refl;
  times = (refl, refl);
  key = (refl, refl);
  rotated = refl;
  history = refl;
}
  where
    chosen_revisions : List Str
    chosen_revisions =
        if is_empty p.opts.istio_revisions then default_revision ∷ [] else p.opts.istio_revisions

    choice :
        (given : List Str)
        → let used = if is_empty given then default_revision ∷ [] else given in
          ((given ≡ []) × (used ≡ bytes "default" ∷ [])) ⊎ ((given ≢ []) × (used ≡ given))
    choice [] = inl (refl, refl)
    choice (x ∷ xs) = inr (λ e. cc, refl)

module _ (p : Provisioner) (api : Api) (namespace name : Str) where
  -- The outcome of one Reconcile of the certificate.
  pub data Provisions : Return × List Write → Type 0 where
    no_issuer : p.issuer_ref ≡ none → Provisions (done, [])
    unreadable :
        {r : IssuerReference} {e : Str}
        → p.issuer_ref ≡ some r
        → api.get name ≡ err (other_error e)
        → Provisions (failed e, [])
    creating :
        (cert : Certificate) {r : IssuerReference}
        → p.issuer_ref ≡ some r
        → api.get name ≡ err not_found
        → (cert.name ≡ name)
          × (cert.namespace ≡ namespace)
          × (cert.annotations ≡ p.opts.additional_annotations)
        → IsSpec p.opts p.trust_domain namespace r cert.spec
        → Provisions (returned (api.create cert), created cert ∷ [])
    updating :
        (found cert : Certificate) {r : IssuerReference}
        → p.issuer_ref ≡ some r
        → api.get name ≡ ok found
        → (cert.name ≡ found.name)
          × (cert.namespace ≡ found.namespace)
          × (cert.annotations ≡ found.annotations)
        → IsSpec p.opts p.trust_domain namespace r cert.spec
        → Provisions (returned (api.update cert), updated cert ∷ [])

  provision : Provisions (reconcile p api namespace name)
  unfolding reconcile
  provision = elim (Option-cases p.issuer_ref) [
    | inl missing ↦ subst Provisions (ground arith) (no_issuer missing)
    | inr (r, there) ↦ elim (Result-cases (api.get name)) [
      | inr (not_found, absent) ↦ subst Provisions (ground arith) (
          creating (new_certificate p namespace name r) there absent (refl, refl, refl)
            (desired_spec-IsSpec p namespace r))
      | inr (other_error e, bad) ↦ subst Provisions (ground arith) (unreadable there bad)
      | inl (cert, found) ↦ subst Provisions (ground arith) (
          updating cert (record cert { spec = desired_spec p namespace r }) there found
            (refl, refl, refl) (desired_spec-IsSpec p namespace r))
    ]
  ]

-- Reconcile on every branch: without an issuer nothing is written; a missing certificate is created
-- with the annotations of the options, and one that is there keeps its own; either way one is
-- written with the names of the revisions and the additional ones, the SPIFFE id of istiod, the key
-- and the times of the options, and the current issuer. The errors of the API are returned.
pub reconcile-Provisions :
    (p : Provisioner) (api : Api) (namespace name : Str)
    → Provisions p api namespace name (reconcile p api namespace name)
reconcile-Provisions p api namespace name = provision p api namespace name
