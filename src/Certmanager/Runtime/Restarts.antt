-- ===== src/Certmanager/Runtime/Restarts.antt =====
-- pkg/certmanager/certmanager.go, Start of the RuntimeConfigurationWatcher: which event decides the
-- active issuer over all the watches that it makes.
use istio_csr.Base.{
  ◌≡◌, refl, sym, ap, subst, ◌∙◌, ◌⊎◌, inl, inr, Option, List, [], ◌∷◌, ◌++◌, arith, All,
}
use istio_csr.Certmanager.{IssuerReference, Manager}
use istio_csr.Certmanager.Runtime.{
  Event, handle_event, Signal, context_done, channel_closed, event, Status, watching, restarting,
  stopped, watch_loop, Attempt, watch_failed, watch_made, start,
}
use istio_csr.Certmanager.Runtime.Loop.{
  Decides, IsQuiet, quiet_keeps, after_events, handle_event_original, watch_loop-Decides,
}

Status-cases : (s : Status) → (s ≡ restarting) ⊎ ((s ≡ watching) ⊎ (s ≡ stopped))
Status-cases restarting = inl refl
Status-cases watching = inr (inl refl)
Status-cases stopped = inr (inr refl)

watch_loop_original :
    (m : Manager) (ss : List Signal)
    → (watch_loop m ss).0.original_issuer_ref ≡ m.original_issuer_ref
unfolding watch_loop
watch_loop_original m [] = refl
watch_loop_original m (context_done ∷ ss) = refl
watch_loop_original m (channel_closed ∷ ss) = refl
watch_loop_original m (event e ∷ ss) =
    watch_loop_original (handle_event m e) ss ∙ handle_event_original m e

start_original :
    (m : Manager) (attempts : List Attempt)
    → (start m attempts).0.original_issuer_ref ≡ m.original_issuer_ref
unfolding start
start_original m [] = refl
start_original m (watch_failed ∷ later) = start_original m later
start_original m (watch_made ss ∷ later) =
    let m' = (watch_loop m ss).0 in
    let kept = watch_loop_original m ss in
    let again = start_original m' later ∙ kept in
    elim (Status-cases (watch_loop m ss).1) [
      | inl restarts ↦ ground (arith, restarts, again)
      | inr (inl watches) ↦ ground (arith, watches, kept)
      | inr (inr stops) ↦ ground (arith, stops, kept)
    ]

-- Where some attempts leave Start about to make a watch, it goes on with what they made of the
-- manager.
start-append :
    (m : Manager) (earlier later : List Attempt)
    → (start m earlier).1 ≡ restarting
    → start m (earlier ++ later) ≡ start (start m earlier).0 later
unfolding start
start-append m [] later h = refl
start-append m (watch_failed ∷ earlier) later h = start-append m earlier later h
start-append m (watch_made ss ∷ earlier) later h =
    let m' = (watch_loop m ss).0 in
    elim (Status-cases (watch_loop m ss).1) [
      | inl restarts ↦
          let again = start-append m' earlier later (ground (arith, restarts)) in
          ground (arith, restarts, again)
      | inr (inl watches) ↦ absurd (ground (arith, watches))
      | inr (inr stops) ↦ absurd (ground (arith, stops))
    ]

-- An attempt to make a watch that brings no event that decides anything.
abbrev pub IsQuietAttempt : Attempt → Type 0
IsQuietAttempt watch_failed = Unit
IsQuietAttempt (watch_made ss) = IsQuiet ss

quiet_attempts_keep :
    (m : Manager) (attempts : List Attempt)
    → All IsQuietAttempt attempts
    → (start m attempts).0.active_issuer_ref ≡ m.active_issuer_ref
unfolding start
quiet_attempts_keep m [] q = refl
quiet_attempts_keep m (watch_failed ∷ later) q = quiet_attempts_keep m later q.1
quiet_attempts_keep m (watch_made ss ∷ later) q =
    let m' = (watch_loop m ss).0 in
    let kept = quiet_keeps m ss q.0 in
    let again = quiet_attempts_keep m' later q.1 ∙ kept in
    elim (Status-cases (watch_loop m ss).1) [
      | inl restarts ↦ ground (arith, restarts, again)
      | inr (inl watches) ↦ ground (arith, watches, kept)
      | inr (inr stops) ↦ ground (arith, stops, kept)
    ]

decided :
    (m : Manager) (ss : List Signal) (later : List Attempt) (r : Option IssuerReference)
    → (watch_loop m ss).0.active_issuer_ref ≡ r
    → All IsQuietAttempt later
    → (start m (watch_made ss ∷ later)).0.active_issuer_ref ≡ r
unfolding start
decided m ss later r h q =
    let again = quiet_attempts_keep (watch_loop m ss).0 later q ∙ h in
    elim (Status-cases (watch_loop m ss).1) [
      | inl restarts ↦ ground (arith, restarts, again)
      | inr (inl watches) ↦ ground (arith, watches, h)
      | inr (inr stops) ↦ ground (arith, stops, h)
    ]

-- Over all the watches that Start makes, the last event that decides anything decides the active
-- issuer: a good ConfigMap that is added or modified gives its own issuer, and the deletion the
-- original one. Watches that fail, close and are made again change nothing by themselves; so a
-- deletion that no watch brings leaves the issuer of the deleted ConfigMap active.
pub start-Decides :
    (m : Manager) (earlier : List Attempt) (before : List Event) (e : Event) (after : List Signal)
    (later : List Attempt) (r : Option IssuerReference)
    → (start m earlier).1 ≡ restarting
    → Decides m.original_issuer_ref r e
    → IsQuiet after
    → All IsQuietAttempt later
    → (start m
        (earlier ++ watch_made (after_events before (event e ∷ after)) ∷ later)).0.active_issuer_ref
      ≡ r
start-Decides m earlier before e after later r h d q l =
    let m' = (start m earlier).0 in
    let ss = after_events before (event e ∷ after) in
    let d' = subst (λ o. Decides o r e) (sym (start_original m earlier)) d in
    ap (λ (x : Manager × Status). x.0.active_issuer_ref)
      (start-append m earlier (watch_made ss ∷ later) h)
    ∙ decided m' ss later r (watch_loop-Decides m' before e after r d' q) l
