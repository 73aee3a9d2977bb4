-- ===== src/App/Notified.antt =====
-- How istiod's certificate learns of the issuers that the manager is configured with at run time.
use mathlib.Core.List.{Memᴰ}
use istio_csr.Base.{ℕ, ◌≡◌, sym, subst, Option, some, List, [], arith, ok}
use istio_csr.Certmanager.{IssuerReference, Manager, Options}
use istio_csr.Certmanager.Startup.{Starts, with_issuer, without_issuer}
use istio_csr.Certmanager.Subscriptions.{
  is_member, subscribe_issuer_change, notify_issuer_change, deliver, delivered,
}
use istio_csr.Certmanager.Subscriptions.Recipients.{started_by}
use istio_csr.Certmanager.Subscriptions.First.{
  IsFirst, IsSafe, Managed, Change, idle, change_all, idle-IsSafe, change_all-IsSafe,
  notify-IsFirst, notify-first, deliver-first,
}
use istio_csr.Istiodcert.Worker
use istio_csr.Options
use istio_csr.App.{Environment, App, build}
use istio_csr.App.Added.{HasProvisioner, disabled, enabled}
use istio_csr.App.Built.{build_iff}

subscribed-IsFirst :
    (opts : Options) (m : Manager)
    → Starts opts m
    → IsFirst m.next_subscription (subscribe_issuer_change m).0
unfolding subscribe_issuer_change is_member
subscribed-IsFirst opts m (with_issuer on complete e) = record {
  rest = [];
  listed = ground arith;
  open_still = ground arith;
  older = ground arith;
}
subscribed-IsFirst opts m (without_issuer nothing there e) = record {
  rest = [];
  listed = ground arith;
  open_still = ground arith;
  older = ground arith;
}

module _ {lib : Options.Libraries} {Context A : Type 0} (env : Environment lib Context A) where
  pub built-IsFirst :
      (o : Options.Options lib) (m : Manager) (p : Worker.Provisioner)
      {q : Option Worker.Provisioner} {m' : Manager}
      → Starts o.cert_manager m
      → HasProvisioner env o m q m'
      → q ≡ some p
      → IsFirst p.issuer_change_subscription m'
  built-IsFirst o m p s (disabled off e f) h = cc
  built-IsFirst o m p s (enabled on client f e) h =
      let same : m.next_subscription ≡ p.issuer_change_subscription = ground arith in
      let first =
        subst (IsFirst m.next_subscription) (sym f) (subscribed-IsFirst o.cert_manager m s) in
      rw (← same) first

module _ {lib : Options.Libraries} {Context A : Type 0} (env : Environment lib Context A) where
  -- Whatever changes the manager of a built program, the provisioner's subscription stays its first.
  pub build-IsSafe :
      (options : Options.Options lib) (app : App env) (p : Worker.Provisioner) (cs : List Change)
      → build env options ≡ ok app
      → app.provisioner ≡ some p
      → IsSafe p.issuer_change_subscription (change_all (idle app.manager) cs)
  build-IsSafe options app p cs e h =
      let b = (build_iff env options app).0 e in
      let sub = p.issuer_change_subscription in
      change_all-IsSafe sub (idle app.manager) cs (
        idle-IsSafe sub app.manager
          (built-IsFirst env app.opts b.signer p b.starts b.provisioner h))

-- A notification leaves the oldest subscription the first, and another one than that of a wait.
notify-IsSafe :
    (sub : ℕ) (s : Managed) (r : Option IssuerReference)
    → IsSafe sub s
    → IsSafe sub (record s { manager = notify_issuer_change s.manager r })
notify-IsSafe sub s r i = record { first = notify-IsFirst sub s.manager r i.first; apart = i.apart }

-- In a program with a provisioner of istiod's certificate, whatever the manager has met since the
-- start, waits for an issuer that begin and end, and events of the runtime configuration: a
-- notification starts a goroutine for the provisioner, and that goroutine, however the list of
-- subscriptions was shortened by then, sends the reference to the provisioner.
pub build-notifies :
    {lib : Options.Libraries} {Context A : Type 0} (env : Environment lib Context A)
    (options : Options.Options lib) (app : App env) (p : Worker.Provisioner)
    (cs later : List Change) (r : Option IssuerReference)
    → build env options ≡ ok app
    → app.provisioner ≡ some p
    → let s = change_all (idle app.manager) cs in
      let notified : Managed = record s { manager = notify_issuer_change s.manager r } in
      Memᴰ (record { index = 0; issuer_ref = r }) (started_by s.manager r)
      × (deliver (change_all notified later).manager (record { index = 0; issuer_ref = r })
          ≡ delivered p.issuer_change_subscription r)
build-notifies env options app p cs later r e h =
    let sub = p.issuer_change_subscription in
    let s = change_all (idle app.manager) cs in
    let safe = build-IsSafe env options app p cs e h in
    let notified : Managed = record s { manager = notify_issuer_change s.manager r } in
    let after = change_all-IsSafe sub notified later (notify-IsSafe sub s r safe) in
    (
      notify-first sub s.manager r safe.first,
      deliver-first sub (change_all notified later).manager r after.first,
    )
