-- ===== src/Certmanager/Runtime/Loop.antt =====
-- Which event decides the active issuer after a run of the watcher.
use istio_csr.Base.{◌≡◌, ◌≢◌, refl, sym, subst, ◌∙◌, inl, inr, Option, some, List, [], ◌∷◌, arith}
use istio_csr.Certmanager.{IssuerReference, Manager}
use istio_csr.Certmanager.Subscriptions.{notify_issuer_change}
use istio_csr.Certmanager.Runtime.{
  added, modified, deleted, Event, handle_runtime_config_issuer_change,
  handle_runtime_config_issuer_deletion, handle_event, Signal, context_done, channel_closed, event,
  watch_loop,
}
use istio_csr.Certmanager.Runtime.Active.{Sets, Sets-unique, handle_change_cases}

-- The event makes `r` the active issuer, where `original` is the one of the start: a good
-- ConfigMap that is added or modified, or the deletion of the ConfigMap.
pub data Decides (original : Option IssuerReference) (r : Option IssuerReference) (e : Event)
    : Type 0 where
  by_added :
      {i : IssuerReference} → e.type ≡ added → Sets e.object i → r ≡ some i → Decides original r e
  by_modified :
      {i : IssuerReference}
      → e.type ≡ modified
      → Sets e.object i
      → r ≡ some i
      → Decides original r e
  by_deleted : e.type ≡ deleted → r ≡ original → Decides original r e

-- The event decides nothing: another type, or a ConfigMap that configures no issuer.
pub data IsIdle (e : Event) : Type 0 where
  no_config : ((r : IssuerReference) → ¬ Sets e.object r) → e.type ≢ deleted → IsIdle e
  other_type : e.type ≢ added → e.type ≢ modified → e.type ≢ deleted → IsIdle e

notify_active :
    (m : Manager) (r : Option IssuerReference)
    → (notify_issuer_change m r).active_issuer_ref ≡ m.active_issuer_ref
unfolding notify_issuer_change
notify_active m r = refl

change-Sets :
    (m : Manager) (e : Event) (i : IssuerReference)
    → Sets e.object i
    → (handle_runtime_config_issuer_change m e).0.active_issuer_ref ≡ some i
change-Sets m e i s = elim (handle_change_cases m e) [
  | inl (r, s', done) ↦ ground (
    arith,
    done,
    Sets-unique s s',
    notify_active (record m { active_issuer_ref = some r }) (some r),
  )
  | inr (never, same, bad) ↦ absurd (never i s)
]

deletion_restores :
    (m : Manager)
    → (handle_runtime_config_issuer_deletion m).active_issuer_ref ≡ m.original_issuer_ref
unfolding handle_runtime_config_issuer_deletion notify_issuer_change
deletion_restores m = ground arith

change_original :
    (m : Manager) (e : Event)
    → (handle_runtime_config_issuer_change m e).0.original_issuer_ref ≡ m.original_issuer_ref
unfolding handle_runtime_config_issuer_change notify_issuer_change
change_original m e = ground arith

pub handle_event_original :
    (m : Manager) (e : Event) → (handle_event m e).original_issuer_ref ≡ m.original_issuer_ref
unfolding handle_event handle_runtime_config_issuer_deletion notify_issuer_change
handle_event_original m e = ground (arith, change_original m e)

handle_event-Decides :
    (m : Manager) (r : Option IssuerReference) (e : Event)
    → Decides m.original_issuer_ref r e
    → (handle_event m e).active_issuer_ref ≡ r
unfolding handle_event
handle_event-Decides m r e (by_added {i} t s x) = ground (arith, change-Sets m e i s)
handle_event-Decides m r e (by_modified {i} t s x) = ground (arith, change-Sets m e i s)
handle_event-Decides m r e (by_deleted t x) = ground (arith, deletion_restores m)

handle_event_idle :
    (m : Manager) (e : Event)
    → IsIdle e
    → (handle_event m e).active_issuer_ref ≡ m.active_issuer_ref
unfolding handle_event
handle_event_idle m e (no_config never t) = elim (handle_change_cases m e) [
  | inl (r, s, done) ↦ absurd (never r s)
  | inr (_, same, bad) ↦ ground (arith, same)
]
handle_event_idle m e (other_type a b c) = ground arith

-- The signals from here on decide nothing, up to the end of the watch.
abbrev pub IsQuiet : List Signal → Type 0
IsQuiet [] = Unit
IsQuiet (context_done ∷ ss) = Unit
IsQuiet (channel_closed ∷ ss) = Unit
IsQuiet (event e ∷ ss) = IsIdle e × IsQuiet ss

pub quiet_keeps :
    (m : Manager) (ss : List Signal)
    → IsQuiet ss
    → (watch_loop m ss).0.active_issuer_ref ≡ m.active_issuer_ref
unfolding watch_loop
quiet_keeps m [] q = refl
quiet_keeps m (context_done ∷ ss) q = refl
quiet_keeps m (channel_closed ∷ ss) q = refl
quiet_keeps m (event e ∷ ss) q = quiet_keeps (handle_event m e) ss q.1 ∙ handle_event_idle m e q.0

-- The signals of some events, then the rest.
abbrev pub after_events : List Event → List Signal → List Signal
after_events [] ss = ss
after_events (e ∷ es) ss = event e ∷ after_events es ss

-- The last event of a watch that decides anything decides the active issuer: whatever came before
-- it, a good ConfigMap gives its own issuer and a deletion the original one, and what follows that
-- decides nothing changes nothing.
pub watch_loop-Decides :
    (m : Manager) (before : List Event) (e : Event) (after : List Signal)
    (r : Option IssuerReference)
    → Decides m.original_issuer_ref r e
    → IsQuiet after
    → (watch_loop m (after_events before (event e ∷ after))).0.active_issuer_ref ≡ r
unfolding watch_loop
watch_loop-Decides m [] e after r d q =
    quiet_keeps (handle_event m e) after q ∙ handle_event-Decides m r e d
watch_loop-Decides m (b ∷ before) e after r d q =
    watch_loop-Decides (handle_event m b) before e after r
      (subst (λ o. Decides o r e) (sym (handle_event_original m b)) d) q
