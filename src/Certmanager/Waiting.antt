-- ===== src/Certmanager/Waiting.antt =====
-- pkg/certmanager/certmanager.go, WaitForIssuerConfig: its subscription is open while events of the
-- runtime configuration arrive, and is closed when it returns.
use istio_csr.Base.{ℕ, Bool, true, false, Option, none, some, List, [], ◌∷◌, if◌then◌else◌}
use istio_csr.Certmanager.{IssuerReference, Manager, has_issuer_config}
use istio_csr.Certmanager.Subscriptions.{close, subscribe_issuer_change}
use istio_csr.Certmanager.Runtime.{Event, handle_event}

-- What other goroutines do to the manager: they handle events of the runtime configuration.
unfoldable pub handle_events : Manager → List Event → Manager
handle_events m [] = m
handle_events m (e ∷ es) = handle_events (handle_event m e) es

-- What the loop meets: the cases of its select, and an event that is handled meanwhile.
pub data Wakeup : Type 0 where
  context_done : Wakeup
  received : Option IssuerReference → Wakeup
  timer_fired : Wakeup
  happened : Event → Wakeup

-- The beginning: no subscription where there is an issuer.
unfoldable pub begin_wait : Manager → Manager × Option ℕ
unfolding subscribe_issuer_change
begin_wait m =
    if has_issuer_config m
    then (m, none)
    else let (m', sub) = subscribe_issuer_change m in (m', some sub)

-- The loop: the manager afterwards, and whether it still waits.
unfoldable pub wait_loop : Manager → List Wakeup → Manager × Bool
wait_loop m [] = (m, true)
wait_loop m (context_done ∷ ws) = (m, false)
wait_loop m (received (some r) ∷ ws) = (m, false)
wait_loop m (received none ∷ ws) = wait_loop m ws
wait_loop m (timer_fired ∷ ws) = wait_loop m ws
wait_loop m (happened e ∷ ws) = wait_loop (handle_event m e) ws

-- WaitForIssuerConfig: the manager, and whether it still waits. The subscription is closed on return.
unfoldable pub wait_for_issuer_config : Manager → List Wakeup → Manager × Bool
unfolding begin_wait wait_loop close
wait_for_issuer_config m ws =
    let (begun, sub) = begin_wait m in
    let (met, waits) = wait_loop begun ws in
    elim sub [
      | none ↦ (m, false)
      | some opened ↦ ((if waits then met else close met opened), waits)
    ]
