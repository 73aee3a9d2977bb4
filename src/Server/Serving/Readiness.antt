-- ===== src/Server/Serving/Readiness.antt =====
-- When the server is ready, over every interleaving of Start and its goroutine.
use istio_csr.Base.{
  ◌≡◌, sym, subst, ◌⊎◌, inl, inr, Bool, true, false, none, some, List, [], ◌∷◌, arith, Subsequence,
  nothing, taken, skipped,
}
use istio_csr.Server.Serving.{
  Main, configuring, registering, listening, marking, entering, serving, returned, no_config,
  not_registered, not_listening, serve_failed, Stopper, waiting, stopping, ended, Running, fresh,
  Event, configured, registered, listened, marked, cleared, step, run, check,
}

-- Start has set ready: it is on the way to Serve, in it, or behind it.
abbrev pub has_marked : Main → Bool
has_marked entering = true
has_marked serving = true
has_marked (returned none) = true
has_marked (returned (some (serve_failed e))) = true
has_marked main = false

-- Start has failed before it set ready.
abbrev has_failed : Main → Bool
has_failed (returned (some no_config)) = true
has_failed (returned (some not_registered)) = true
has_failed (returned (some not_listening)) = true
has_failed main = false

-- The goroutine has cleared ready.
abbrev pub has_cleared : Stopper → Bool
has_cleared stopping = true
has_cleared ended = true
has_cleared stopper = false

-- What has to happen until Start has set ready.
abbrev remaining : Main → List Event
remaining configuring = configured true ∷ registered true ∷ listened true ∷ marked ∷ []
remaining registering = registered true ∷ listened true ∷ marked ∷ []
remaining listening = listened true ∷ marked ∷ []
remaining marking = marked ∷ []
remaining main = []

step-has_marked :
    (s : Running) (e : Event)
    → (has_marked (step s e).main ≡ has_marked s.main) ⊎ (has_marked (step s e).main ≡ true)
unfolding step
step-has_marked s e = ground arith

step-remaining :
    (s : Running) (e : Event)
    → (remaining (step s e).main ≡ remaining s.main)
      ⊎ (e ∷ remaining (step s e).main ≡ remaining s.main)
      ⊎ (has_failed (step s e).main ≡ true)
unfolding step
step-remaining s e = ground arith

step_failed :
    (s : Running) (e : Event) → has_failed s.main ≡ true → has_failed (step s e).main ≡ true
unfolding step
step_failed s e h = ground arith

run_failed :
    (s : Running) (es : List Event) → has_failed s.main ≡ true → has_failed (run s es).main ≡ true
unfolding run
run_failed s [] h = h
run_failed s (e ∷ es) h = run_failed (step s e) es (step_failed s e h)

marked_remaining :
    (s : Running) (es : List Event)
    → has_marked (run s es).main ≡ true
    → Subsequence (remaining s.main) es
unfolding run
marked_remaining s [] h =
    let none_left : remaining s.main ≡ [] = ground arith in
    subst (λ (l : List Event). Subsequence l []) (sym none_left) nothing
marked_remaining s (e ∷ es) h = elim (step-remaining s e) [
  | inl same ↦
      subst (λ (l : List Event). Subsequence l (e ∷ es)) same
        (skipped (marked_remaining (step s e) es h))
  | inr (inl done) ↦
      subst (λ (l : List Event). Subsequence l (e ∷ es)) done
        (taken (marked_remaining (step s e) es h))
  | inr (inr failed) ↦ let stuck = run_failed (step s e) es failed in absurd (ground arith)
]

-- Ready is set by Start and by nothing else.
step-IsMarked :
    (s : Running) (e : Event)
    → (s.ready ≡ true → has_marked s.main ≡ true)
    → (step s e).ready ≡ true
    → has_marked (step s e).main ≡ true
unfolding step
step-IsMarked s e i h = ground arith

run-IsMarked :
    (s : Running) (es : List Event)
    → (s.ready ≡ true → has_marked s.main ≡ true)
    → (run s es).ready ≡ true
    → has_marked (run s es).main ≡ true
unfolding run
run-IsMarked s [] i h = i h
run-IsMarked s (e ∷ es) i h = run-IsMarked (step s e) es (step-IsMarked s e i) h

-- The server is ready only after Start got the TLS configuration, registered its metrics, listened
-- on its address and set ready, in this order, whatever the goroutine and the context do meanwhile.
pub run-check :
    (es : List Event)
    → check (run fresh es) ≡ true
    → Subsequence (configured true ∷ registered true ∷ listened true ∷ marked ∷ []) es
run-check es h = marked_remaining fresh es (run-IsMarked fresh es (λ e. cc) h)

-- What neither Start nor the goroutine changes any more once both have written ready.
abbrev IsSettled : Running → Bool → Type 0
IsSettled s ready = (has_marked s.main ≡ true) × (has_cleared s.stopper ≡ true) × (s.ready ≡ ready)

step-IsSettled :
    (s : Running) (e : Event) (ready : Bool) → IsSettled s ready → IsSettled (step s e) ready
unfolding step
step-IsSettled s e ready h = ground arith

run-IsSettled :
    (s : Running) (es : List Event) (ready : Bool) → IsSettled s ready → IsSettled (run s es) ready
unfolding run
run-IsSettled s [] ready h = h
run-IsSettled s (e ∷ es) ready h = run-IsSettled (step s e) es ready (step-IsSettled s e ready h)

clears :
    (s : Running)
    → has_marked s.main ≡ true
    → s.stopper ≡ waiting
    → s.cancelled ≡ true
    → IsSettled (step s cleared) false
unfolding step
clears s m w c = ground arith

-- Where Start has set ready before the goroutine sees the end of the context, the goroutine's step
-- makes the server unready for good.
pub run-cleared :
    (s : Running) (es : List Event)
    → has_marked s.main ≡ true
    → s.stopper ≡ waiting
    → s.cancelled ≡ true
    → check (run (step s cleared) es) ≡ false
run-cleared s es m w c = (run-IsSettled (step s cleared) es false (clears s m w c)).2

marks :
    (s : Running) → s.main ≡ marking → has_cleared s.stopper ≡ true → IsSettled (step s marked) true
unfolding step
marks s m c = ground arith

-- Where the context ends while Start is about to set ready, and the goroutine clears it first, the
-- server is ready from then on whatever happens, also after the gRPC server has stopped.
pub run-marked_late :
    (s : Running) (es : List Event)
    → s.main ≡ marking
    → has_cleared s.stopper ≡ true
    → check (run (step s marked) es) ≡ true
run-marked_late s es m c = (run-IsSettled (step s marked) es true (marks s m c)).2
