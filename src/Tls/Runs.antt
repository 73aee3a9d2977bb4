-- ===== src/Tls/Runs.antt =====
-- Start as a run of the events of the provider.
use istio_csr.Base.{
  if◌then◌else◌, false, ◌≡◌, refl, sym, ap, subst, ◌∙◌, ◌⊎◌, inl, inr, Option, none, some, List, [],
  ◌∷◌, ◌++◌, arith, ok, map, is_empty, Bool-cases, Option-cases, Result-cases,
}
use istio_csr.Certmanager.{Manager, has_issuer_config}
use istio_csr.Certmanager.Waiting.{handle_events, wait_for_issuer_config}
use istio_csr.Rootca.{WatchError}
use istio_csr.Tls.{Options, Libraries, Provider, new_provider}
use istio_csr.Tls.Fetch.{fetch_certificate, Event, fetched, stopped, step, run}
use istio_csr.Tls.Secure.{Inv, run-new_provider-Inv}
use istio_csr.Tls.Start.{
  Outside, event_of, meanwhile, Round, First, first_fetched, no_more_turns, waiting, first_fetch,
  Attempt, After, ticked, context_done, Fetched, fetched_until, cancelled, retrying,
  must_fetch_certificate, Tick, context_ended, timer_fired, end_of, renew, serve_certificates,
  start,
}

pub After-cases :
    {lib : Libraries} {E : Type 0} (a : After lib E) → (a ≡ ticked) ⊎ (a ≡ context_done)
After-cases ticked = inl refl
After-cases context_done = inr refl

module _ (lib : Libraries) (E : Type 0) where
  -- The provider comes from another by some events.
  abbrev Runs : Provider lib → Provider lib → Type 0
  Runs p after = (es : List (Event lib E)) × (after ≡ run lib p es)

  run-append :
      (p : Provider lib) (xs ys : List (Event lib E))
      → run lib p (xs ++ ys) ≡ run lib (run lib p xs) ys
  unfolding run
  run-append p [] ys = refl
  run-append p (x ∷ xs) ys = run-append (step lib p x) xs ys

  -- Some events of other goroutines, one event, and a run.
  Runs-then :
      (p after : Provider lib) (outside : List (Outside lib E)) (e : Event lib E)
      → Runs (step lib (meanwhile lib E p outside) e) after
      → Runs p after
  unfolding run
  Runs-then p after outside e (es, h) = (
    map (event_of lib E) outside ++ e ∷ es,
    h ∙ sym (run-append p (map (event_of lib E) outside) (e ∷ es)),
  )

  first_fetch-Runs :
      (m : Manager) (p : Provider lib) (rs : List (Round lib E))
      → Runs p (first_fetch lib E m p rs).0
  unfolding first_fetch run step
  first_fetch-Runs m p [] = ([], refl)
  first_fetch-Runs m p (r ∷ rs) =
      let now = handle_events m r.events in
      let (m', waits) =
        if has_issuer_config now then (now, false) else wait_for_issuer_config now r.wakeups in
      let q = meanwhile lib E p r.outside in
      let next = (fetch_certificate lib r.signer q).0 in
      let later = first_fetch-Runs m' next rs in
      elim (Bool-cases waits) [
        | inl blocked ↦ (map (event_of lib E) r.outside, ground (arith, blocked))
        | inr free ↦ elim (Result-cases (fetch_certificate lib r.signer q).1) [
          | inl (t, good) ↦
              subst (Runs p) (ground arith)
                (Runs-then p next r.outside (fetched r.signer) ([], refl))
          | inr (x, bad) ↦
              subst (Runs p) (ground arith)
                (Runs-then p (first_fetch lib E m' next rs).0 r.outside (fetched r.signer) later)
        ]
      ]

  must_fetch-Runs :
      (p : Provider lib) (attempts : List (Attempt lib E))
      → Runs p (must_fetch_certificate lib E p attempts).0
  unfolding must_fetch_certificate run step
  must_fetch-Runs p [] = ([], refl)
  must_fetch-Runs p (a ∷ attempts) =
      let q = meanwhile lib E p a.outside in
      let next = (fetch_certificate lib a.signer q).0 in
      let again = must_fetch-Runs next attempts in
      let once = Runs-then p next a.outside (fetched a.signer) ([], refl) in
      elim (Result-cases (fetch_certificate lib a.signer q).1) [
        | inl (t, good) ↦ subst (Runs p) (ground arith) once
        | inr (x, bad) ↦ elim (After-cases a.after) [
          | inl ticks ↦ subst (Runs p) (ground arith) (
              Runs-then p (must_fetch_certificate lib E next attempts).0 a.outside
                (fetched a.signer) again)
          | inr ends ↦ subst (Runs p) (ground arith) once
        ]
      ]

  pub Fetched-cases :
      (f : Fetched lib E)
      → (f ≡ retrying) ⊎ ((f ≡ cancelled) ⊎ ((t : lib.Time) × (f ≡ fetched_until t)))
  Fetched-cases retrying = inl refl
  Fetched-cases cancelled = inr (inl refl)
  Fetched-cases (fetched_until t) = inr (inr (t, refl))

  Runs-trans : (p q r : Provider lib) → Runs p q → Runs q r → Runs p r
  Runs-trans p q r (es, h) (fs, k) =
      (es ++ fs, k ∙ ap (λ (x : Provider lib). run lib x fs) h ∙ sym (run-append p es fs))

  renew-Runs :
      (not_after : Option lib.Time) (p : Provider lib) (ts : List (Tick lib E))
      → Runs p (renew lib E not_after p ts).0
  unfolding renew run step
  renew-Runs not_after p [] = ([], refl)
  renew-Runs not_after p (context_ended outside ∷ ts) =
      Runs-then p (renew lib E not_after p (context_ended outside ∷ ts)).0 outside stopped
        ([], refl)
  renew-Runs not_after p (timer_fired outside attempts ∷ ts) =
      let q = meanwhile lib E p outside in
      let (p', result) = must_fetch_certificate lib E q attempts in
      let renewed =
        Runs-trans p q p' (map (event_of lib E) outside, refl) (must_fetch-Runs q attempts) in
      let later =
        Runs-trans p p' (renew lib E (end_of lib E result) p' ts).0 renewed
          (renew-Runs (end_of lib E result) p' ts) in
      elim (Fetched-cases result) [
        | inl still ↦ subst (Runs p) (ground arith) renewed
        | inr (inl ended) ↦ subst (Runs p) (ground arith) later
        | inr (inr (t, done)) ↦ subst (Runs p) (ground arith) later
      ]

  pub First-cases :
      (f : First lib E)
      → (f ≡ waiting) ⊎ ((f ≡ no_more_turns) ⊎ ((t : lib.Time) × (f ≡ first_fetched t)))
  First-cases waiting = inl refl
  First-cases no_more_turns = inr (inl refl)
  First-cases (first_fetched t) = inr (inr (t, refl))

  serve-Runs :
      (m : Manager) (p : Provider lib) (rounds : List (Round lib E)) (ticks : List (Tick lib E))
      → Runs p (serve_certificates lib E m p rounds ticks).0
  unfolding serve_certificates
  serve-Runs m p rounds ticks =
      let (p', first) = first_fetch lib E m p rounds in
      let begun = first_fetch-Runs m p rounds in
      let later = λ (t : Option lib.Time).
        Runs-trans p p' (renew lib E t p' ticks).0 begun (renew-Runs t p' ticks) in
      elim (First-cases first) [
        | inl waits_on ↦ subst (Runs p) (ground arith) begun
        | inr (inl gave_up) ↦ subst (Runs p) (ground arith) (later none)
        | inr (inr (t, done)) ↦ subst (Runs p) (ground arith) (later (some t))
      ]

  start-Runs :
      (watch_error : Option (WatchError lib.pools)) (m : Manager) (p : Provider lib)
      (rounds : List (Round lib E)) (ticks : List (Tick lib E))
      → Runs p (start lib E watch_error m p rounds ticks).0
  unfolding start run
  start-Runs watch_error m p rounds ticks =
      let served = serve-Runs m p rounds ticks in
      elim (Bool-cases (is_empty p.opts.root_cas_cert_file)) [
        | inl own ↦ subst (Runs p) (ground (arith, own)) served
        | inr file ↦ elim (Option-cases watch_error) [
          | inl watched ↦ subst (Runs p) (ground (arith, file, watched)) served
          | inr (e, bad) ↦ subst (Runs p) (ground (arith, file, bad)) ([], refl)
        ]
      ]

-- Start of a new provider refines the provider's events: whatever the first fetch and the renewals
-- meet, with subscriptions and changes of the root file in between, the provider is one that some
-- sequence of those events makes of the new one; so what it serves is secure for the trust domain of
-- the options, and each message to a subscriber has a recipient.
pub start-run :
    (lib : Libraries) (E : Type 0) (opts : Options) (watch_error : Option (WatchError lib.pools))
    (m : Manager) (p : Provider lib) (rounds : List (Round lib E)) (ticks : List (Tick lib E))
    → new_provider lib opts ≡ ok p
    → ((es : List (Event lib E)) × ((start lib E watch_error m p rounds ticks).0 ≡ run lib p es))
      × Inv lib opts (start lib E watch_error m p rounds ticks).0
start-run lib E opts watch_error m p rounds ticks new =
    let (es, same) = start-Runs lib E watch_error m p rounds ticks in
    ((es, same), subst (Inv lib opts) (sym same) (run-new_provider-Inv lib opts p es new))
