-- ===== src/Tls/Start.antt =====
-- pkg/tls/tls.go: Start and mustFetchCertificate, with the first fetch, the renewals and their
-- timer.
use istio_csr.Base.{
  false, suc, ◌-◌, ◌/◌, Option, none, some, List, [], ◌∷◌, ok, err, ltb, map, is_empty,
  if◌then◌else◌,
}
use istio_csr.Base.Int64.{ℤ, pos, negsuc, scale, wrap64}
use istio_csr.Certmanager.{Manager, has_issuer_config}
use istio_csr.Certmanager.Runtime
use istio_csr.Certmanager.Waiting.{Wakeup, handle_events, wait_for_issuer_config}
use istio_csr.Rootca.{RootCas, WatchError}
use istio_csr.Server.Certificate.{Signer}
use istio_csr.Tls.{Libraries, Provider}
use istio_csr.Tls.Fetch.{fetch_certificate, Event, subscribed, file_changed, run}

-- Go's a / 3 on int64, which rounds towards zero.
abbrev pub third : ℤ → ℤ
third (pos n) = pos (n / 3)
third (negsuc n) = if ltb (suc n / 3) 1 then pos 0 else negsuc (suc n / 3 - 1)

-- `(2 * time.Until(notAfter)) / 3`, from what time.Until gives; the product is an int64 and wraps.
unfoldable pub renewal_time : ℤ → ℤ
renewal_time until = third (wrap64 (scale until 2))

module _ (lib : Libraries) (E : Type 0) where
  open lib use {pools, Time}

  -- What other goroutines do to the provider meanwhile: a subscription, or new roots from the file.
  pub data Outside : Type 0 where
    subscribes : Outside
    file_changes : RootCas pools.Pool → Outside

  abbrev pub event_of : Outside → Event lib E
  event_of subscribes = subscribed
  event_of (file_changes root_cas) = file_changed root_cas

  abbrev pub meanwhile : Provider lib → List Outside → Provider lib
  meanwhile p outside = run lib p (map event_of outside)

  -- A turn of the loop of the first fetch, which the backoff controller grants: what happens to the
  -- manager and to the provider before it, what a wait for an issuer meets, and the signer as it
  -- answers within the ten seconds of the fetch.
  pub record Round : Type 0 where
    pub events : List Runtime.Event
    pub outside : List Outside
    pub wakeups : List Wakeup
    pub signer : Signer E

  -- How the loop of the first fetch stands: it has a certificate, the controller grants no further
  -- turn, or it waits for an issuer.
  pub data First : Type 0 where
    first_fetched : Time → First
    no_more_turns : First
    waiting : First

  unfoldable pub first_fetch : Manager → Provider lib → List Round → Provider lib × First
  first_fetch m p [] = (p, no_more_turns)
  first_fetch m p (r ∷ rs) =
      let now = handle_events m r.events in
      let (m', waits) =
        if has_issuer_config now then (now, false) else wait_for_issuer_config now r.wakeups in
      let (p', result) = fetch_certificate lib r.signer (meanwhile p r.outside) in
      let later = first_fetch m' p' rs in
      if waits
      then (meanwhile p r.outside, waiting)
      else elim result [ ok not_after ↦ (p', first_fetched not_after) | err e ↦ later ]

  -- What mustFetchCertificate meets after a failed fetch.
  pub data After : Type 0 where
    ticked context_done : After

  pub record Attempt : Type 0 where
    pub outside : List Outside
    pub signer : Signer E
    pub after : After

  -- What it returns: the end of the fetched certificate, or the zero time; or it has not returned
  -- yet.
  pub data Fetched : Type 0 where
    fetched_until : Time → Fetched
    cancelled : Fetched
    retrying : Fetched

  unfoldable pub must_fetch_certificate : Provider lib → List Attempt → Provider lib × Fetched
  must_fetch_certificate p [] = (p, retrying)
  must_fetch_certificate p (a ∷ attempts) =
      let (p', result) = fetch_certificate lib a.signer (meanwhile p a.outside) in
      let again = must_fetch_certificate p' attempts in
      elim result [
        | ok not_after ↦ (p', fetched_until not_after)
        | err e ↦ elim a.after [ context_done ↦ (p', cancelled) | ticked ↦ again ]
      ]

  -- What the select of the renewal loop meets: the end of the context, or the timer, and then what
  -- the renewal meets.
  pub data Tick : Type 0 where
    context_ended : List Outside → Tick
    timer_fired : List Outside → List Attempt → Tick

  -- Start goes on, has returned without an error, or with that of watching the roots' file.
  pub data Status : Type 0 where
    running stopped : Status
    failed : WatchError pools → Status

  -- The end of the certificate that a renewal gives; none is the zero time.
  abbrev pub end_of : Fetched → Option Time
  end_of (fetched_until t) = some t
  end_of cancelled = none
  end_of retrying = none

  -- The renewal loop from the end of the last certificate: the provider, whether Start has
  -- returned, and for which ends timers were made.
  unfoldable pub renew :
      Option Time → Provider lib → List Tick → Provider lib × Status × List (Option Time)
  renew not_after p [] = (p, running, not_after ∷ [])
  renew not_after p (context_ended outside ∷ ts) =
      (record (meanwhile p outside) { tls_config = none }, stopped, not_after ∷ [])
  renew not_after p (timer_fired outside attempts ∷ ts) =
      let (p', fetched) = must_fetch_certificate (meanwhile p outside) attempts in
      let (after, status, timers) = renew (end_of fetched) p' ts in
      elim fetched [
        | retrying ↦ (p', running, not_after ∷ [])
        | _ ↦ (after, status, not_after ∷ timers)
      ]

  -- Start from the first fetch on: the renewals follow it also where it gave up.
  unfoldable pub serve_certificates :
      Manager → Provider lib → List Round → List Tick → Provider lib × Status × List (Option Time)
  serve_certificates m p rounds ticks =
      let (p', first) = first_fetch m p rounds in
      elim first [
        | first_fetched not_after ↦ renew (some not_after) p' ticks
        | no_more_turns ↦ renew none p' ticks
        | waiting ↦ (p', running, [])
      ]

  -- Start, from what rootca.Watch gives where a file for the roots is given: an error, or none.
  unfoldable pub start :
      Option (WatchError pools)
      → Manager
      → Provider lib
      → List Round
      → List Tick
      → Provider lib × Status × List (Option Time)
  start watch_error m p rounds ticks =
      let served = serve_certificates m p rounds ticks in
      if is_empty p.opts.root_cas_cert_file
      then served
      else elim watch_error [ some e ↦ (p, failed e, []) | none ↦ served ]
