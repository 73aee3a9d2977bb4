-- ===== src/App/Added.antt =====
-- What the command adds for the parts that the options turn on or off.
use istio_csr.Base.{
  Bool, ◌≡◌, sym, subst, inl, inr, true, false, Option, none, some, List, [], ◌∷◌, ◌++◌, arith, All,
  Result, ok, Bool-cases, if◌then◌else◌,
}
use istio_csr.Base.Text.{Str}
use istio_csr.Base.Dict.{Dict}
use istio_csr.Certmanager.{Manager, has_runtime_configuration, initial_issuer}
use istio_csr.Certmanager.Subscriptions.{subscribe_issuer_change}
use istio_csr.Controller.{Controller, add_config_map_controller}
use istio_csr.Istiodcert.Worker
use istio_csr.Options
use istio_csr.Options.{Options}
use istio_csr.App.{
  Registration, istiod_cert_controller, istiod_cert_provisioner, runtime_configuration_watcher,
  tls_provider, grpc_server, config_map_controller, tls_provider_check, grpc_server_check,
  Environment, add_provisioner, add_watcher,
}

module _ {lib : Options.Libraries} {Context A : Type 0} (env : Environment lib Context A) where
  -- Where istiod's certificate is enabled, a provisioner with the issuer of the start, which has
  -- subscribed to the manager; else none, and the manager as it was.
  pub data HasProvisioner (o : Options lib) (m : Manager) (p : Option Worker.Provisioner)
      (m' : Manager) : Type 0 where
    disabled : o.istiod_cert.enabled ≡ false → p ≡ none → m' ≡ m → HasProvisioner o m p m'
    enabled :
        o.istiod_cert.enabled ≡ true
        → env.istiod_client ≡ true
        → m' ≡ (subscribe_issuer_change m).0
        → p
          ≡ some (record {
            opts = o.istiod_cert;
            initial_issuer_ref = initial_issuer m;
            issuer_ref = initial_issuer m;
            issuer_change_subscription = m.next_subscription;
            trust_domain = o.tls.trust_domain;
            triggered = 0;
          })
        → HasProvisioner o m p m'

  -- What is added for istiod's certificate and for the runtime configuration, where they are
  -- enabled.
  abbrev pub istiod_registrations : Bool → List Registration
  istiod_registrations on = if on then istiod_cert_controller ∷ istiod_cert_provisioner ∷ [] else []

  abbrev pub runtime_registrations : Bool → List Registration
  runtime_registrations on = if on then runtime_configuration_watcher ∷ [] else []

  abbrev pub for_istiod : Options lib → List Registration
  for_istiod o = istiod_registrations o.istiod_cert.enabled

  abbrev pub for_runtime : Options lib → List Registration
  for_runtime o = runtime_registrations (has_runtime_configuration o.cert_manager)

  abbrev pub always : List Registration
  always =
      tls_provider_check ∷ tls_provider ∷ grpc_server_check ∷ grpc_server ∷ config_map_controller
      ∷ []

  abbrev pub expected : Options lib → List Registration
  expected o = for_istiod o ++ (for_runtime o ++ always)

  abbrev pub IsAdded : List Registration → Type 0
  IsAdded l = All (λ r. env.add r ≡ none) l

  pub provisioned_sound :
      (o : Options lib) (m : Manager) {p : Option Worker.Provisioner} {m' : Manager}
      {l : List Registration}
      → add_provisioner env o m ≡ ok (p, m', l)
      → HasProvisioner o m p m' × (l ≡ for_istiod o) × IsAdded l
  unfolding add_provisioner Worker.new subscribe_issuer_change
  provisioned_sound o m {l} e = elim (Bool-cases o.istiod_cert.enabled) [
    | inr off ↦
        let nothing : l ≡ [] = ground arith in
        (disabled off (ground arith) (ground arith), ground arith, subst IsAdded (sym nothing) tt)
    | inl on ↦
        let both : l ≡ istiod_cert_controller ∷ istiod_cert_provisioner ∷ [] = ground arith in
        (
          enabled on (ground arith) (ground arith) (ground arith),
          ground arith,
          subst IsAdded (sym both) (ground arith, (ground arith, tt)),
        )
  ]

  pub provisioned_complete :
      (o : Options lib) (m : Manager) (p : Option Worker.Provisioner) (m' : Manager)
      → HasProvisioner o m p m'
      → IsAdded (for_istiod o)
      → add_provisioner env o m ≡ ok (p, m', for_istiod o)
  unfolding add_provisioner Worker.new subscribe_issuer_change
  provisioned_complete o m p m' (disabled off e f) a = ground arith
  provisioned_complete o m p m' (enabled on client e f) a =
      let (first, (second, end)) = subst (λ b. IsAdded (istiod_registrations b)) on a in
      ground arith

  pub watched_sound :
      (o : Options lib) {l : List Registration}
      → add_watcher env o ≡ ok l
      → (l ≡ for_runtime o) × IsAdded l
  unfolding add_watcher
  watched_sound o {l} e = elim (Bool-cases (has_runtime_configuration o.cert_manager)) [
    | inr off ↦
        let nothing : l ≡ [] = ground arith in (ground arith, subst IsAdded (sym nothing) tt)
    | inl on ↦
        let watcher : l ≡ runtime_configuration_watcher ∷ [] = ground arith in
        (ground arith, subst IsAdded (sym watcher) (ground arith, tt))
  ]

  pub watched_complete :
      (o : Options lib) → IsAdded (for_runtime o) → add_watcher env o ≡ ok (for_runtime o)
  unfolding add_watcher
  watched_complete o a = elim (Bool-cases (has_runtime_configuration o.cert_manager)) [
    | inr off ↦ ground arith
    | inl on ↦
        let (first, end) = subst (λ b. IsAdded (runtime_registrations b)) on a in ground arith
  ]

  pub selected_sound :
      (parse : Str → Result Str (Dict Str → Bool)) (x y : Option Str) (s : Str) {c : Controller}
      → add_config_map_controller x parse y s ≡ ok c
      → (x ≡ none) × (parse s ≡ ok c.namespace_selector) × (c.root_cas_pem ≡ []) × (y ≡ none)
  unfolding add_config_map_controller
  selected_sound parse x y s e = ground arith

  pub selected_complete :
      (parse : Str → Result Str (Dict Str → Bool)) (x y : Option Str) (s : Str) (c : Controller)
      → x ≡ none
      → parse s ≡ ok c.namespace_selector
      → c.root_cas_pem ≡ []
      → y ≡ none
      → add_config_map_controller x parse y s ≡ ok c
  unfolding add_config_map_controller
  selected_complete parse x y s c ex es ep ey = ground arith
