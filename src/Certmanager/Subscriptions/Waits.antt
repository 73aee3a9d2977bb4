-- ===== src/Certmanager/Subscriptions/Waits.antt =====
-- The wait for an issuer as a sequence of changes of the manager.
use istio_csr.Base.{
  ℕ, ◌≡◌, refl, sym, subst, ◌∙◌, inl, inr, Option, none, some, List, [], ◌∷◌, ◌++◌, arith,
  Bool-cases, map, true, false, ap, Bool, if◌then◌else◌,
}
use istio_csr.Certmanager.{Manager, has_issuer_config}
use istio_csr.Certmanager.Subscriptions.{close, subscribe_issuer_change}
use istio_csr.Certmanager.Waiting.{
  Wakeup, context_done, received, timer_fired, happened, handle_events, begin_wait, wait_loop,
  wait_for_issuer_config,
}
use istio_csr.Certmanager.Runtime.{Event, handle_event}
use istio_csr.Certmanager.Subscriptions.First.{
  Managed, Change, wait_begins, wait_ends, watched, idle, change, change_all,
}

handle_changes :
    (s : Managed) (es : List Event)
    → change_all s (map watched es) ≡ record s { manager = handle_events s.manager es }
unfolding change_all handle_events
handle_changes s [] = refl
handle_changes s (e ∷ es) = handle_changes (record s { manager = handle_event s.manager e }) es

wait_loop-handle_events :
    (m : Manager) (ws : List Wakeup) → (es : List Event) × ((wait_loop m ws).0 ≡ handle_events m es)
unfolding wait_loop handle_events
wait_loop-handle_events m [] = ([], refl)
wait_loop-handle_events m (context_done ∷ ws) = ([], refl)
wait_loop-handle_events m (received (some r) ∷ ws) = ([], refl)
wait_loop-handle_events m (received none ∷ ws) = wait_loop-handle_events m ws
wait_loop-handle_events m (timer_fired ∷ ws) = wait_loop-handle_events m ws
wait_loop-handle_events m (happened e ∷ ws) =
    let (es, same) = wait_loop-handle_events (handle_event m e) ws in (e ∷ es, same)

changes-append :
    (s : Managed) (cs ds : List Change) → change_all s (cs ++ ds) ≡ change_all (change_all s cs) ds
unfolding change_all
changes-append s [] ds = refl
changes-append s (c ∷ cs) ds = changes-append (change s c) cs ds

begin_opens :
    (m : Manager)
    → has_issuer_config m ≡ false
    → begin_wait m ≡ ((subscribe_issuer_change m).0, some m.next_subscription)
unfolding begin_wait subscribe_issuer_change
begin_opens m lacks = ground (arith, lacks)

begin_stays : (m : Manager) → has_issuer_config m ≡ true → begin_wait m ≡ (m, none)
unfolding begin_wait
begin_stays m has = ground (arith, has)

returned_from :
    (m : Manager) (ws : List Wakeup) (begun : Manager) (opened : ℕ) (waits : Bool)
    → begin_wait m ≡ (begun, some opened)
    → (wait_loop begun ws).1 ≡ waits
    → (wait_for_issuer_config m ws).0
      ≡ (if waits then (wait_loop begun ws).0 else close (wait_loop begun ws).0 opened)
unfolding wait_for_issuer_config
returned_from m ws begun opened waits opens e =
    subst
      (λ (b : Manager × Option ℕ).
        let (met, still) = wait_loop b.0 ws in
        let left : Manager × Bool = elim b.1 [
          | none ↦ (m, false)
          | some sub ↦ ((if still then met else close met sub), still)
        ] in
        left.0 ≡ (if waits then (wait_loop begun ws).0 else close (wait_loop begun ws).0 opened))
      (sym opens) (rw (e) refl)

stays :
    (m : Manager) (ws : List Wakeup)
    → begin_wait m ≡ (m, none)
    → (wait_for_issuer_config m ws).0 ≡ m
unfolding wait_for_issuer_config
stays m ws e = rw (e, wait_for_issuer_config) refl

begins :
    (m : Manager) (begun : Manager) (opened : ℕ)
    → begin_wait m ≡ (begun, some opened)
    → change (idle m) wait_begins ≡ record { manager = begun; waiting = some opened }
unfolding change
begins m begun opened opens = rw (opens) refl

-- A wait for an issuer is a sequence of these changes: its beginning, the events that are handled
-- meanwhile, and its end once it returns.
pub wait_for_issuer_config-change_all :
    (m : Manager) (ws : List Wakeup)
    → (cs : List Change) × ((wait_for_issuer_config m ws).0 ≡ (change_all (idle m) cs).manager)
unfolding change_all change
wait_for_issuer_config-change_all m ws = elim (Bool-cases (has_issuer_config m)) [
  | inl has ↦ ([], stays m ws (begin_stays m has))
  | inr lacks ↦
      let begun = (subscribe_issuer_change m).0 in
      let opened = m.next_subscription in
      let (es, same) = wait_loop-handle_events begun ws in
      let opens = begin_opens m lacks in
      let start : Managed = record { manager = begun; waiting = some opened } in
      let met : (change_all start (map watched es)).manager ≡ (wait_loop begun ws).0 =
        ap (λ (s : Managed). s.manager) (handle_changes start es) ∙ sym same in
      let ended : (change_all start (map watched es ++ wait_ends ∷ [])).manager
          ≡ close (wait_loop begun ws).0 opened =
        rw (changes-append start (map watched es) (wait_ends ∷ []), handle_changes start es, same)
          refl in
      elim (Bool-cases (wait_loop begun ws).1) [
        | inl waits ↦ (
          wait_begins ∷ map watched es,
          subst
              (λ (s : Managed).
                (wait_for_issuer_config m ws).0 ≡ (change_all s (map watched es)).manager)
              (sym (begins m begun opened opens))
              (returned_from m ws begun opened true opens waits ∙ sym met),
        )
        | inr returns ↦ (
          wait_begins ∷ (map watched es ++ wait_ends ∷ []),
          subst
              (λ (s : Managed).
                (wait_for_issuer_config m ws).0
                ≡ (change_all s (map watched es ++ wait_ends ∷ [])).manager)
              (sym (begins m begun opened opens))
              (returned_from m ws begun opened false opens returns ∙ sym ended),
        )
      ]
]
