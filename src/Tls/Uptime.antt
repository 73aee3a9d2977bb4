-- ===== src/Tls/Uptime.antt =====
-- From when until when the TLS provider is ready.
use istio_csr.Base.{
  if◌then◌else◌, ◌⊎◌, none, is_empty, ◌≡◌, refl, ◌∙◌, inl, inr, Bool, true, false, Option, some,
  List, [], ◌∷◌, arith, ok, err, Bool-cases, Result-cases,
}
use istio_csr.Certmanager.{Manager, has_issuer_config}
use istio_csr.Certmanager.Waiting.{handle_events, wait_for_issuer_config}
use istio_csr.Server.Certificate.{Signer}
use istio_csr.Rootca.{WatchError}
use istio_csr.Tls.{Libraries, Provider, check, subscribe_root_cas_event}
use istio_csr.Tls.Fetch.{FetchError, fetch_certificate, step, run}
use istio_csr.Tls.Fetched.{IsFetched-sound}
use istio_csr.Tls.Attempts.{fetch_certificate-keeps}
use istio_csr.Tls.Start.{
  Outside, subscribes, file_changes, event_of, meanwhile, Round, first_fetched, first_fetch,
  Attempt, must_fetch_certificate, Tick, context_ended, timer_fired, end_of, Status, running,
  stopped, failed, renew, serve_certificates, start,
}
use istio_csr.Tls.Runs.{Fetched-cases, After-cases}

module _ (lib : Libraries) (E : Type 0) where
  outside-check :
      (p : Provider lib) (o : Outside lib E)
      → check lib (step lib p (event_of lib E o)) ≡ check lib p
  unfolding check step subscribe_root_cas_event
  outside-check p subscribes = refl
  outside-check p (file_changes r) = ground arith

  meanwhile-check :
      (p : Provider lib) (outside : List (Outside lib E))
      → check lib (meanwhile lib E p outside) ≡ check lib p
  unfolding run
  meanwhile-check p [] = refl
  meanwhile-check p (o ∷ outside) =
      meanwhile-check (step lib p (event_of lib E o)) outside ∙ outside-check p o

  fetched-check :
      (signer : Signer E) (p : Provider lib) (t : lib.Time)
      → (fetch_certificate lib signer p).1 ≡ ok t
      → check lib (fetch_certificate lib signer p).0 ≡ true
  unfolding check
  fetched-check signer p t e =
      let f =
        IsFetched-sound lib signer p {after = (fetch_certificate lib signer p).0} {t = t}
          (ground arith) in
      ground (arith, f.after_eq)

  kept-check :
      (signer : Signer E) (p : Provider lib) (x : FetchError E)
      → (fetch_certificate lib signer p).1 ≡ err x
      → check lib (fetch_certificate lib signer p).0 ≡ check lib p
  unfolding check
  kept-check signer p x e = ground (arith, fetch_certificate-keeps lib signer p x e)

  -- A renewal leaves a ready provider ready, and ends with one wherever it fetches.
  must_fetch-check :
      (p : Provider lib) (attempts : List (Attempt lib E))
      → check lib p ≡ true
      → check lib (must_fetch_certificate lib E p attempts).0 ≡ true
  unfolding must_fetch_certificate
  must_fetch-check p [] up = up
  must_fetch-check p (a ∷ attempts) up =
      let q = meanwhile lib E p a.outside in
      let up' = meanwhile-check p a.outside ∙ up in
      elim (Result-cases (fetch_certificate lib a.signer q).1) [
        | inl (t, good) ↦ ground (arith, fetched-check a.signer q t good)
        | inr (x, bad) ↦
            let kept = kept-check a.signer q x bad ∙ up' in
            let again = must_fetch-check (fetch_certificate lib a.signer q).0 attempts kept in
            elim (After-cases a.after) [
              | inl ticks ↦ ground (arith, again)
              | inr ends ↦ ground (arith, kept)
            ]
      ]

  first_fetch-check :
      (m : Manager) (p : Provider lib) (rs : List (Round lib E)) (t : lib.Time)
      → (first_fetch lib E m p rs).1 ≡ first_fetched t
      → check lib (first_fetch lib E m p rs).0 ≡ true
  unfolding first_fetch
  first_fetch-check m p [] t e = cc
  first_fetch-check m p (r ∷ rs) t e =
      let now = handle_events m r.events in
      let (m', waits) =
        if has_issuer_config now then (now, false) else wait_for_issuer_config now r.wakeups in
      let q = meanwhile lib E p r.outside in
      let next = (fetch_certificate lib r.signer q).0 in
      let later = first_fetch-check m' next rs t in
      elim (Bool-cases waits) [
        | inl blocked ↦ ground (arith, blocked)
        | inr free ↦ elim (Result-cases (fetch_certificate lib r.signer q).1) [
          | inl (t', good) ↦ ground (arith, fetched-check r.signer q t' good)
          | inr (x, bad) ↦ ground (arith, later)
        ]
      ]

  abbrev pub is_running : Status lib E → Bool
  is_running running = true
  is_running stopped = false
  is_running (failed e) = false

  -- In the renewal loop a ready provider stays ready until Start returns.
  renew-check :
      (not_after : Option lib.Time) (p : Provider lib) (ts : List (Tick lib E))
      → check lib p ≡ true
      → check lib (renew lib E not_after p ts).0 ≡ is_running (renew lib E not_after p ts).1
  unfolding renew check
  renew-check not_after p [] up = up
  renew-check not_after p (context_ended outside ∷ ts) up = refl
  renew-check not_after p (timer_fired outside attempts ∷ ts) up =
      let q = meanwhile lib E p outside in
      let (p', result) = must_fetch_certificate lib E q attempts in
      let up' = must_fetch-check q attempts (meanwhile-check p outside ∙ up) in
      let later = renew-check (end_of lib E result) p' ts up' in
      elim (Fetched-cases lib E result) [
        | inl still ↦ ground (arith, up')
        | inr (inl ended) ↦ ground (arith, later)
        | inr (inr (t, done)) ↦ ground (arith, later)
      ]

serve-check :
    (lib : Libraries) (E : Type 0) (m : Manager) (p : Provider lib) (rounds : List (Round lib E))
    (ticks : List (Tick lib E)) (t : lib.Time)
    → (first_fetch lib E m p rounds).1 ≡ first_fetched t
    → check lib (serve_certificates lib E m p rounds ticks).0
      ≡ is_running lib E (serve_certificates lib E m p rounds ticks).1
unfolding serve_certificates
serve-check lib E m p rounds ticks t e =
    let (p', first) = first_fetch lib E m p rounds in
    let up = first_fetch-check lib E m p rounds t e in
    ground (arith, e, renew-check lib E (some t) p' ticks up)

-- Where no file for the roots is given or it can be watched, and once the first fetch has a
-- certificate, Check succeeds exactly until Start returns: renewals that fail, new roots and
-- subscriptions do not change that, and the end of the context makes it fail.
pub start-check :
    (lib : Libraries) (E : Type 0) (watch_error : Option (WatchError lib.pools)) (m : Manager)
    (p : Provider lib) (rounds : List (Round lib E)) (ticks : List (Tick lib E)) (t : lib.Time)
    → (is_empty p.opts.root_cas_cert_file ≡ true) ⊎ (watch_error ≡ none)
    → (first_fetch lib E m p rounds).1 ≡ first_fetched t
    → check lib (start lib E watch_error m p rounds ticks).0
      ≡ is_running lib E (start lib E watch_error m p rounds ticks).1
unfolding start
start-check lib E watch_error m p rounds ticks t watched e =
    let up = serve-check lib E m p rounds ticks t e in
    elim watched [ inl own ↦ ground (arith, up) | inr good ↦ ground (arith, up) ]
