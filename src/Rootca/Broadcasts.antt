-- ===== src/Rootca/Broadcasts.antt =====
-- What the watcher of the root file broadcasts.
use istio_csr.Base.{
  ◌≡◌, ◌≢◌, refl, sym, ◌∙◌, subst, ◌⊎◌, inl, inr, Bool, true, false, Option, none, some, List, [],
  ◌∷◌, ◌++◌, arith, All, ok, ◌==◌, list_eq, nat_eq, list_beq_iff, Bool-cases, Option-cases,
  if◌then◌else◌,
}
use istio_csr.Base.Text.{Str}
use istio_csr.Rootca.{
  RootCas, Pools, roots_of, Watcher, load_root_cas_file, send, reload_config, Signal, context_done,
  watch_error, event, watch_loop, idle, watch,
}

module _ (pools : Pools) where
  open pools use {Pool}

  -- What was broadcast, newest last: each the roots of its PEM, each PEM another one than that
  -- before it, the first not empty, and the last the one that is held.
  pub data IsHistory : Str → List (RootCas Pool) → Type 0 where
    start : IsHistory [] []
    next :
        {pem : Str} {sent : List (RootCas Pool)} (root_cas : RootCas Pool)
        → IsHistory pem sent
        → root_cas.pem ≢ pem
        → roots_of pools root_cas.pem ≡ some root_cas
        → IsHistory root_cas.pem (sent ++ root_cas ∷ [])

  abbrev pub Inv : Watcher pools → Type 0
  Inv w = IsHistory w.root_cas_pem w.broadcast

  roots_of-pem : (pem : Str) {r : RootCas Pool} → roots_of pools pem ≡ some r → r.pem ≡ pem
  roots_of-pem pem e = elim (Option-cases (pools.decode_x509_certificate_set_bytes pem)) [
    | inl bad ↦ ground arith
    | inr (certs, good) ↦ ground arith
  ]

  -- A reload changes nothing, or it sends the roots of a new PEM.
  reload_cases :
      (w : Watcher pools) (file : Option Str)
      → (reload_config pools w file ≡ w)
        ⊎ ((r : RootCas Pool) × (reload_config pools w file ≡ send pools r w)
            × (r.pem ≢ w.root_cas_pem)
            × (roots_of pools r.pem ≡ some r))
  unfolding reload_config load_root_cas_file
  reload_cases w none = inl refl
  reload_cases w (some pem) = elim (Bool-cases (pem == w.root_cas_pem)) [
    | inl same ↦ inl (ground arith)
    | inr changed ↦ elim (Option-cases (roots_of pools pem)) [
      | inl bad ↦ inl (ground arith)
      | inr (r, good) ↦
          let own = roots_of-pem pem good in
          inr (
            r,
            ground arith,
            λ e. cc (changed, (list_beq_iff pem w.root_cas_pem).1 (sym own ∙ e)),
            subst (λ s. roots_of pools s ≡ some r) (sym own) good,
          )
    ]
  ]

  reload-Inv : (w : Watcher pools) (file : Option Str) → Inv w → Inv (reload_config pools w file)
  reload-Inv w file i = elim (reload_cases w file) [
    | inl same ↦ subst Inv (sym same) i
    | inr (r, sent, changed, good) ↦ subst Inv (sym sent) (next r i changed good)
  ]

  if-Inv : (b : Bool) {v w : Watcher pools} → Inv v → Inv w → Inv (if b then v else w)
  if-Inv true i j = i
  if-Inv false i j = j

  loop-Inv : (w : Watcher pools) (ss : List (Signal pools)) → Inv w → Inv (watch_loop pools w ss)
  unfolding watch_loop
  loop-Inv w [] i = i
  loop-Inv w (context_done ∷ ss) i = i
  loop-Inv w (watch_error ∷ ss) i = loop-Inv w ss i
  loop-Inv w (event d f b f' ∷ ss) i =
      let j = if-Inv d (reload-Inv w f i) i in
      loop-Inv
        (if b
          then reload_config pools (if d then reload_config pools w f else w) f'
          else (if d then reload_config pools w f else w))
        ss (if-Inv b (reload-Inv (if d then reload_config pools w f else w) f' j) j)

  -- The first roots are sent, and the loop goes on from there.
  watch_sound :
      (file : Option Str) (b : Bool) (ss : List (Signal pools)) {w : Watcher pools}
      → watch pools file b ss ≡ ok w
      → (r : RootCas Pool) × (w ≡ watch_loop pools (send pools r (idle pools)) ss)
        × Inv (send pools r (idle pools))
  unfolding watch load_root_cas_file
  watch_sound none b ss e = ground arith
  watch_sound (some pem) b ss e = elim (Option-cases (roots_of pools pem)) [
    | inl bad ↦ ground arith
    | inr (r, good) ↦
        let own = roots_of-pem pem good in
        elim (Bool-cases (pem == [])) [
          | inl empty ↦ ground arith
          | inr filled ↦ (
            r,
            ground arith,
            next r start (λ n. cc (filled, (list_beq_iff pem []).1 (sym own ∙ n)))
                (subst (λ s. roots_of pools s ≡ some r) (sym own) good),
          )
        ]
  ]

  abbrev pub EndsWith : RootCas Pool → List (RootCas Pool) → Type 0
  EndsWith r sent = (before : List (RootCas Pool)) × (sent ≡ before ++ r ∷ [])

  history_ends :
      {pem : Str} {sent : List (RootCas Pool)}
      → IsHistory pem sent
      → (sent ≡ []) ⊎ ((r : RootCas Pool) × (roots_of pools pem ≡ some r) × EndsWith r sent)
  history_ends start = inl refl
  history_ends (next {pem} {sent} r h changed good) = inr (r, good, (sent, refl))

  -- Something was sent.
  abbrev HasSent : Watcher pools → Type 0
  HasSent w = w.broadcast ≢ []

  not_nil_append {ℓ} : {A : Type ℓ} (xs : List A) (y : A) → xs ++ y ∷ [] ≢ []
  not_nil_append [] y e = cc
  not_nil_append (x ∷ xs) y e = cc

  reload-HasSent :
      (w : Watcher pools) (file : Option Str) → HasSent w → HasSent (reload_config pools w file)
  reload-HasSent w file h = elim (reload_cases w file) [
    | inl same ↦ subst HasSent (sym same) h
    | inr (r, sent, changed, good) ↦ subst HasSent (sym sent) (not_nil_append w.broadcast r)
  ]

  -- A reload of a file that decodes leaves its roots as the last that were sent.
  reload-latest :
      (w : Watcher pools) (pem : Str) {r : RootCas Pool}
      → Inv w
      → HasSent w
      → roots_of pools pem ≡ some r
      → EndsWith r (reload_config pools w (some pem)).broadcast
  unfolding reload_config load_root_cas_file
  reload-latest w pem {r} i h good = elim (Bool-cases (pem == w.root_cas_pem)) [
    | inr changed ↦ (w.broadcast, ground arith)
    | inl same ↦ elim (history_ends i) [
      | inl empty ↦ absurd (h empty)
      | inr (r', good', (before, e)) ↦
          let held : pem ≡ w.root_cas_pem = (list_beq_iff pem w.root_cas_pem).0 same in
          let one : r ≡ r' = ground (arith, subst (λ s. roots_of pools s ≡ some r) held good) in
          (before, ground arith)
    ]
  ]

  event-HasSent :
      (w : Watcher pools) (d : Bool) (g : Option Str) (b : Bool) (g' : Option Str)
      → HasSent w
      → HasSent (watch_loop pools w (event d g b g' ∷ []))
  unfolding watch_loop
  event-HasSent w true g true g' h =
      reload-HasSent (reload_config pools w g) g' (reload-HasSent w g h)
  event-HasSent w true g false g' h = reload-HasSent w g h
  event-HasSent w false g true g' h = reload-HasSent w g' h
  event-HasSent w false g false g' h = h

  -- The context goes on.
  abbrev pub IsRunning : Signal pools → Type 0
  IsRunning context_done = ⊥
  IsRunning watch_error = Unit
  IsRunning (event d f b f') = Unit

  loop-latest :
      (w : Watcher pools) (before : List (Signal pools)) (d : Bool) (f : Option Str) (pem : Str)
      {r : RootCas Pool}
      → Inv w
      → HasSent w
      → All IsRunning before
      → roots_of pools pem ≡ some r
      → EndsWith r (watch_loop pools w (before ++ event d f true (some pem) ∷ [])).broadcast
  unfolding watch_loop
  loop-latest w [] true f pem i h a good =
      reload-latest (reload_config pools w f) pem (reload-Inv w f i) (reload-HasSent w f h) good
  loop-latest w [] false f pem i h a good = reload-latest w pem i h good
  loop-latest w (context_done ∷ ss) d f pem i h (a, _) good = absurd a
  loop-latest w (watch_error ∷ ss) d f pem i h (_, a) good = loop-latest w ss d f pem i h a good
  loop-latest w (event d' g b g' ∷ ss) d f pem i h (_, a) good =
      loop-latest (watch_loop pools w (event d' g b g' ∷ [])) ss d f pem
        (loop-Inv w (event d' g b g' ∷ []) i) (event-HasSent w d' g b g' h) a good

-- Whatever happens after the first read, each bundle that was broadcast is the roots of its PEM, no
-- bundle has the PEM of the one before it, and the watcher holds the PEM of the last one.
pub watch-IsHistory :
    (pools : Pools) (file : Option Str) (watched : Bool) (ss : List (Signal pools))
    (w : Watcher pools)
    → watch pools file watched ss ≡ ok w
    → IsHistory pools w.root_cas_pem w.broadcast
watch-IsHistory pools file watched ss w e =
    let (r, same, i) = watch_sound pools file watched ss e in
    subst (Inv pools) (sym same) (loop-Inv pools (send pools r (idle pools)) ss i)

-- Once the file is written with a bundle that decodes, while the context goes on, the last bundle
-- that was broadcast is its roots, whatever happened before.
pub watch-latest :
    (pools : Pools) (file : Option Str) (watched : Bool) (before : List (Signal pools)) (d : Bool)
    (f : Option Str) (pem : Str) (r : RootCas pools.Pool) (w : Watcher pools)
    → watch pools file watched (before ++ event d f true (some pem) ∷ []) ≡ ok w
    → All (IsRunning pools) before
    → roots_of pools pem ≡ some r
    → EndsWith pools r w.broadcast
watch-latest pools file watched before d f pem r w e running good =
    let (first, same, i) =
      watch_sound pools file watched (before ++ event d f true (some pem) ∷ []) e in
    subst (λ (v : Watcher pools). EndsWith pools r v.broadcast) (sym same)
      (loop-latest pools (send pools first (idle pools)) before d f pem i
        (not_nil_append pools [] first) running good)
