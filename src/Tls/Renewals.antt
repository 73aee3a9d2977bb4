-- ===== src/Tls/Renewals.antt =====
-- Runs of Start: a first fetch at the second attempt, a renewal that fails once, and the end.
use istio_csr.Base.{◌≡◌, ◌≤◌, ◌<◌, ◌*◌, ◌+◌, ℕ, refl, none, inl, List, [], ◌∷◌, arith, err}
use istio_csr.Base.Int64.{pos, ◌≤ℤ◌}
use istio_csr.Base.Text.{Str, bytes}
use istio_csr.Certmanager.{has_issuer_config}
use istio_csr.Certmanager.Examples.{active}
use istio_csr.Certmanager.Waiting.{handle_events, wait_for_issuer_config}
use istio_csr.Server.Certificate.{Signer}
use istio_csr.Tls.{subscribe_root_cas_event, check}
use istio_csr.Tls.Fetch.{Event, step, run}
use istio_csr.Tls.Secure.{Inv}
use istio_csr.Tls.Examples.{libraries, options, provider, signer, fetching, new_run}
use istio_csr.Tls.Start.{
  subscribes, Round, first_fetched, first_fetch, Attempt, ticked, Tick, timer_fired, context_ended,
  renewal_time, start,
}
use istio_csr.Tls.Renewal.{renewal_time_bounds, renewal_time_wraps}
use istio_csr.Tls.Runs.{start-run}
use istio_csr.Tls.Uptime.{is_running, start-check}

abbrev refusing : Signer Str
refusing call = err (bytes "refused")

abbrev round : Signer Str → Round libraries Str
round s = record { events = []; outside = subscribes ∷ []; wakeups = []; signer = s }

abbrev rounds : List (Round libraries Str)
rounds = round refusing ∷ round signer ∷ []

abbrev attempt : Signer Str → Attempt libraries Str
attempt s = record { outside = []; signer = s; after = ticked }

abbrev ticks : List (Tick libraries Str)
ticks = timer_fired [] (attempt refusing ∷ attempt signer ∷ []) ∷ context_ended [] ∷ []

first_run : (first_fetch libraries Str active provider rounds).1 ≡ first_fetched (bytes "cert")
unfolding first_fetch handle_events has_issuer_config wait_for_issuer_config run step
    subscribe_root_cas_event fetching
first_run = refl

start-check_example :
    check libraries (start libraries Str none active provider rounds ticks).0
    ≡ is_running libraries Str (start libraries Str none active provider rounds ticks).1
start-check_example =
    start-check libraries Str none active provider rounds ticks (bytes "cert") (inl refl) first_run

start-run_example :
    ((es : List (Event libraries Str)) × ((start libraries Str none active provider rounds ticks).0
        ≡ run libraries provider es))
    × Inv libraries options (start libraries Str none active provider rounds ticks).0
start-run_example = start-run libraries Str options none active provider rounds ticks new_run

-- An hour is left.
renewal_time_bounds_example :
    (n : ℕ) × (renewal_time (pos 3_600_000_000_000) ≡ pos n)
    × (3 * n ≤ 2 * 3_600_000_000_000)
    × (2 * 3_600_000_000_000 < 3 * n + 3)
renewal_time_bounds_example = renewal_time_bounds 3_600_000_000_000 (omega arith)

-- 150 years are left.
renewal_time_wraps_example : renewal_time (pos 4_730_400_000_000_000_000) ≤ℤ pos 0
renewal_time_wraps_example =
    renewal_time_wraps 4_730_400_000_000_000_000 (omega arith) (omega arith)
