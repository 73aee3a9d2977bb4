-- ===== src/App/Reissued.antt =====
-- The way of an issuer that is configured at run time, from its ConfigMap to istiod's certificate.
use mathlib.Core.List.{Memᴰ}
use mathlib.Core.List.Memᴰ
use istio_csr.Base.{
  ℕ, ◌≡◌, ◌≢◌, refl, sym, ap, subst, ◌∙◌, ◌⊎◌, inl, inr, suc, some, Option, List, [], ◌∷◌, ◌++◌,
  arith, ok, err,
}
use istio_csr.Base.Text.{Str}
use istio_csr.Certmanager.{IssuerReference, Manager}
use istio_csr.Certmanager.Subscriptions.{notify_issuer_change, deliver, delivered}
use istio_csr.Certmanager.Subscriptions.Recipients.{started_by}
use istio_csr.Certmanager.Subscriptions.First.{
  IsFirst, IsSafe, Managed, Change, watched, idle, change, change_all, change_all-IsSafe,
  notify-IsFirst, notify-first, deliver-first,
}
use istio_csr.Certmanager.Runtime.{
  added, modified, Event, handle_event, handle_runtime_config_issuer_change,
}
use istio_csr.Certmanager.Runtime.Active.{Sets, Sets-unique, switched, handle_change_cases}
use istio_csr.Istiodcert.Validation.{Options as CertOptions}
use istio_csr.Istiodcert.Worker
use istio_csr.Istiodcert.Worker.{Provisioner, Write, Api, handle_new_issuer, reconcile}
use istio_csr.Istiodcert.Provisioned.{
  IsSpec, Provisions, no_issuer, unreadable, creating, updating, reconcile-Provisions,
}
use istio_csr.Istiodcert.Issuer.{start-issuer_ref, start-triggers, start-kept}
use istio_csr.Options
use istio_csr.App.{Environment, App, build}
use istio_csr.App.Notified.{build-IsSafe}

-- An event that configures an issuer switches the manager to it.
event_switches :
    (m : Manager) (e : Event) (r : IssuerReference)
    → (e.type ≡ added) ⊎ (e.type ≡ modified)
    → Sets e.object r
    → handle_event m e ≡ switched m r
unfolding handle_event
event_switches m e r type sets = elim (handle_change_cases m e) [
  | inl (r', sets', done) ↦
      let changed : (handle_runtime_config_issuer_change m e).0 ≡ switched m r =
        ap (λ x. x.0) done ∙ ap (switched m) (Sets-unique sets' sets) in
      elim type [ inl a ↦ ground (arith, changed) | inr b ↦ ground (arith, changed) ]
  | inr (never, same, bad) ↦ absurd (never r sets)
]

-- The API server finds the certificate, or finds that there is none.
abbrev pub IsReadable : Api → Str → Type 0
IsReadable api name = (e : Str) → api.get name ≢ err (Worker.other_error e)

abbrev pub certificate_of : Write → Worker.Certificate
certificate_of (Worker.created cert) = cert
certificate_of (Worker.updated cert) = cert

-- The provisioner q writes one certificate, from the issuer and as the options of p say.
pub record IsReissued (p q : Provisioner) (api : Api) (namespace name : Str) (r : IssuerReference)
    : Type 0 where
  pub write : Write
  pub only : (reconcile q api namespace name).1 ≡ write ∷ []
  pub spec : IsSpec p.opts p.trust_domain namespace r (certificate_of write).spec

Provisions-spec :
    {q : Provisioner} {api : Api} {namespace name : Str} {r : IssuerReference}
    {out : Worker.Return × List Write}
    → q.issuer_ref ≡ some r
    → IsReadable api name
    → Provisions q api namespace name out
    → (w : Write) × (out.1 ≡ w ∷ [])
      × IsSpec q.opts q.trust_domain namespace r (certificate_of w).spec
Provisions-spec has readable (no_issuer missing) = absurd cc
Provisions-spec has readable (unreadable there bad) = absurd (readable _ bad)
Provisions-spec {q} {namespace = namespace} {r = r} has readable
      (creating cert {r = o} there absent kept spec) =
    let same : o ≡ r = cc in
    (
      Worker.created cert,
      refl,
      subst (λ (x : IssuerReference). IsSpec q.opts q.trust_domain namespace x cert.spec) same spec,
    )
Provisions-spec {q} {namespace = namespace} {r = r} has readable
      (updating found cert {r = o} there had kept spec) =
    let same : o ≡ r = cc in
    (
      Worker.updated cert,
      refl,
      subst (λ (x : IssuerReference). IsSpec q.opts q.trust_domain namespace x cert.spec) same spec,
    )

-- How the news of an issuer gets to the provisioner, and what it does with it.
pub record IsCarried (s : Managed) (later : List Change) (p : Provisioner)
    (earlier : List (Option IssuerReference)) (r : IssuerReference) (api : Api)
    (namespace name : Str) : Type 0 where
  -- a goroutine is started that will send the reference to the provisioner
  pub told : Memᴰ (record { index = 0; issuer_ref = some r }) s.manager.pending
  pub reached :
      deliver (change_all s later).manager (record { index = 0; issuer_ref = some r })
      ≡ delivered p.issuer_change_subscription (some r)
  -- the provisioner triggers a reconciliation
  pub triggered :
      (Worker.start p (earlier ++ some r ∷ [])).triggered ≡ suc (Worker.start p earlier).triggered
  pub reissued : IsReissued p (Worker.start p (earlier ++ some r ∷ [])) api namespace name r

switched_told :
    (m : Manager) (r : IssuerReference)
    → Memᴰ
        (record { index = 0; issuer_ref = some r })
        (started_by (record m { active_issuer_ref = some r }) (some r))
    → Memᴰ (record { index = 0; issuer_ref = some r }) (switched m r).pending
unfolding notify_issuer_change
switched_told m r t = Memᴰ.append_right m.pending t

reissues :
    (p : Provisioner) (earlier : List (Option IssuerReference)) (r : IssuerReference) (api : Api)
    (namespace name : Str)
    → IsReadable api name
    → IsReissued p (Worker.start p (earlier ++ some r ∷ [])) api namespace name r
reissues p earlier r api namespace name readable =
    let q = Worker.start p (earlier ++ some r ∷ []) in
    let (opts, trust_domain) = start-kept p (earlier ++ some r ∷ []) in
    let (w, only, spec) =
      Provisions-spec (start-issuer_ref p earlier (some r)) readable
        (reconcile-Provisions q api namespace name) in
    record {
      write = w;
      only = only;
      spec =
          subst (λ (x : CertOptions). IsSpec x p.trust_domain namespace r (certificate_of w).spec)
            opts
            (subst (λ (x : Str). IsSpec q.opts x namespace r (certificate_of w).spec) trust_domain
              spec);
    }

-- An event that configures an issuer tells the oldest subscription of it, also after later changes.
carries :
    (sub : ℕ) (s : Managed) (e : Event) (r : IssuerReference) (later : List Change)
    → IsSafe sub s
    → handle_event s.manager e ≡ switched s.manager r
    → Memᴰ (record { index = 0; issuer_ref = some r }) (change s (watched e)).manager.pending
      × (deliver
            (change_all (change s (watched e)) later).manager
            (record { index = 0; issuer_ref = some r })
          ≡ delivered sub (some r))
unfolding change
carries sub s e r later safe switches =
    let active : Manager = record s.manager { active_issuer_ref = some r } in
    let still : IsFirst sub active = record {
      rest = safe.first.rest;
      listed = safe.first.listed;
      open_still = safe.first.open_still;
      older = safe.first.older;
    } in
    let after : IsSafe sub (record s { manager = handle_event s.manager e }) = record {
      first = subst (IsFirst sub) (sym switches) (notify-IsFirst sub active (some r) still);
      apart = safe.apart;
    } in
    (
      subst (λ (x : Manager). Memᴰ (record { index = 0; issuer_ref = some r }) x.pending)
          (sym switches) (switched_told s.manager r (notify-first sub active (some r) still)),
      deliver-first sub (change_all (change s (watched e)) later).manager (some r)
          (change_all-IsSafe sub (change s (watched e)) later after).first,
    )

-- In a program with a provisioner of istiod's certificate, whatever the manager has met since the
-- start, waits for an issuer that begin and end, and events: when the ConfigMap with a whole issuer
-- is added or modified, a goroutine is started that sends the issuer to the provisioner, however the
-- list of subscriptions is shortened before it runs. The provisioner, whatever it was told before,
-- then triggers one reconciliation more, and a reconciliation, where the API server can say whether
-- the certificate is there, writes one certificate: from that issuer, with the names of the
-- revisions and the additional ones, the SPIFFE id of istiod, the key and the times of the options.
pub build-reissues :
    {lib : Options.Libraries} {Context A : Type 0} (env : Environment lib Context A)
    (options : Options.Options lib) (app : App env) (p : Provisioner) (cs : List Change) (e : Event)
    (r : IssuerReference) (later : List Change) (earlier : List (Option IssuerReference))
    (api : Api) (namespace name : Str)
    → build env options ≡ ok app
    → app.provisioner ≡ some p
    → (e.type ≡ added) ⊎ (e.type ≡ modified)
    → Sets e.object r
    → IsReadable api name
    → IsCarried
        (change (change_all (idle app.manager) cs) (watched e))
        later
        p
        earlier
        r
        api
        namespace
        name
build-reissues env options app p cs e r later earlier api namespace name built has type sets
      readable =
    let s = change_all (idle app.manager) cs in
    let (told, reached) =
      carries p.issuer_change_subscription s e r later (build-IsSafe env options app p cs built has)
        (event_switches s.manager e r type sets) in
    record {
      told = told;
      reached = reached;
      triggered = start-triggers p earlier r;
      reissued = reissues p earlier r api namespace name readable;
    }
