-- ===== src/Controller/Outcome.antt =====
-- What Reconcile returns and writes, on every branch.
use istio_csr.Base.{
  ◌≡◌, ◌≢◌, refl, subst, ◌⊎◌, inl, inr, true, false, List, [], ◌∷◌, arith, ok, err, ◌==◌, list_eq,
  nat_eq, list_beq_iff, is_empty, Bool-cases, Result-cases,
}
use istio_csr.Base.Text.{Str}
use istio_csr.Controller.{
  config_map_name_istio_root, namespace_terminating, Namespace, ConfigMap, Controller, not_found,
  other_error, Api, Return, done, requeue, failed, Write, created, updated, returned, repair,
  new_config_map, sync, reconcile,
}
use istio_csr.Controller.Repair.{IsCurrent, repair-IsCurrent, repair-unneeded_iff}

-- The controller cares for the namespace: the selector matches, and it is not on its way out.
pub record IsSelected (c : Controller) (n : Namespace) : Type 0 where
  pub matches : c.namespace_selector n.labels ≡ true
  pub stays : n.phase ≢ namespace_terminating

module _ (c : Controller) (api : Api) (ns : Str) where
  -- The outcome for the ConfigMap of a selected namespace: created where it is missing, updated to
  -- a current one where it is not current, else left alone.
  pub data Syncs : Return × List Write → Type 0 where
    creating :
        api.get_config_map ns config_map_name_istio_root ≡ err not_found
        → Syncs (
          returned (api.create (new_config_map ns c.root_cas_pem)),
          created (new_config_map ns c.root_cas_pem) ∷ [],
        )
    no_config_map :
        {e : Str}
        → api.get_config_map ns config_map_name_istio_root ≡ err (other_error e)
        → Syncs (failed e, [])
    updating :
        (cm cm' : ConfigMap)
        → api.get_config_map ns config_map_name_istio_root ≡ ok cm
        → ¬ IsCurrent c.root_cas_pem cm
        → IsCurrent c.root_cas_pem cm'
        → cm' ≡ (repair c.root_cas_pem cm).0
        → Syncs (returned (api.update cm'), updated cm' ∷ [])
    untouched :
        (cm : ConfigMap)
        → api.get_config_map ns config_map_name_istio_root ≡ ok cm
        → IsCurrent c.root_cas_pem cm
        → Syncs (done, [])

  -- The outcome of one Reconcile of the namespace `ns`.
  pub data Settles : Return × List Write → Type 0 where
    absent : api.get_namespace ns ≡ err not_found → Settles (done, [])
    no_namespace : {e : Str} → api.get_namespace ns ≡ err (other_error e) → Settles (failed e, [])
    ignored : {n : Namespace} → api.get_namespace ns ≡ ok n → ¬ IsSelected c n → Settles (done, [])
    not_ready :
        {n : Namespace}
        → api.get_namespace ns ≡ ok n
        → IsSelected c n
        → c.root_cas_pem ≡ []
        → Settles (requeue, [])
    active :
        {n : Namespace} {out : Return × List Write}
        → api.get_namespace ns ≡ ok n
        → IsSelected c n
        → c.root_cas_pem ≢ []
        → Syncs out
        → Settles out

  sync_cases : Syncs (sync c api ns)
  unfolding sync
  sync_cases = elim (Result-cases (api.get_config_map ns config_map_name_istio_root)) [
    | inr (not_found, missing) ↦ subst Syncs (ground arith) (creating missing)
    | inr (other_error e, bad) ↦ subst Syncs (ground arith) (no_config_map bad)
    | inl (cm, there) ↦ elim (Bool-cases (repair c.root_cas_pem cm).1) [
      | inr unneeded ↦
          subst Syncs (ground arith)
            (untouched cm there ((repair-unneeded_iff c.root_cas_pem cm).0 unneeded))
      | inl needed ↦ subst Syncs (ground arith) (
          updating cm (repair c.root_cas_pem cm).0 there
            (λ i. cc (needed, (repair-unneeded_iff c.root_cas_pem cm).1 i))
            (repair-IsCurrent c.root_cas_pem cm) refl)
    ]
  ]

  IsSelected-cases :
      (n : Namespace)
      → IsSelected c n
        ⊎ (¬ IsSelected c n
            × ((c.namespace_selector n.labels ≡ false)
                ⊎ ((n.phase == namespace_terminating) ≡ true)))
  IsSelected-cases n = elim (Bool-cases (c.namespace_selector n.labels)) [
    | inr unmatched ↦ inr (λ s. cc (unmatched, s.matches), inl unmatched)
    | inl matched ↦ elim (Bool-cases (n.phase == namespace_terminating)) [
      | inl ends ↦
          inr (λ s. s.stays ((list_beq_iff n.phase namespace_terminating).0 ends), inr ends)
      | inr stays ↦ inl (record {
        matches = matched;
        stays = λ e. cc (stays, (list_beq_iff n.phase namespace_terminating).1 e);
      })
    ]
  ]

  settle : (n : Namespace) → api.get_namespace ns ≡ ok n → Settles (reconcile c api ns)
  unfolding reconcile
  settle n there = elim (IsSelected-cases n) [
    | inr (unselected, why) ↦ subst Settles (ground arith) (ignored there unselected)
    | inl selected ↦
        let eligible : (n.phase == namespace_terminating) ≡ false =
          ground (arith, selected.stays, list_beq_iff n.phase namespace_terminating) in
        elim (Bool-cases (is_empty c.root_cas_pem)) [
          | inl empty ↦
              subst Settles (ground (arith, selected.matches))
                (not_ready there selected (ground arith))
          | inr ready ↦
              subst Settles (ground (arith, selected.matches))
                (active there selected (ground arith) sync_cases)
        ]
  ]

  settle_all : Settles (reconcile c api ns)
  unfolding reconcile
  settle_all = elim (Result-cases (api.get_namespace ns)) [
    | inl (n, there) ↦ settle n there
    | inr (not_found, missing) ↦ subst Settles (ground arith) (absent missing)
    | inr (other_error e, bad) ↦ subst Settles (ground arith) (no_namespace bad)
  ]

-- Reconcile on every branch: nothing is written for a namespace that is gone, not selected or
-- terminating, nor before the roots are known, when it is asked for again; else a missing ConfigMap
-- is created, one that is not current is replaced by its repair, which is current, and a current
-- one is left alone. The errors of the API are returned.
pub reconcile-Settles :
    (c : Controller) (api : Api) (ns : Str) → Settles c api ns (reconcile c api ns)
reconcile-Settles c api ns = settle_all c api ns
