-- ===== src/Tls/FromFile.antt =====
-- pkg/tls/tls.go, with a file for the roots: what the provider holds, and which subscribers it tells.
use mathlib.Core.List.{Memᴰ}
use mathlib.Core.List.Memᴰ
use istio_csr.Base.{
  ℕ, zero, suc, ◌<◌, ◌≤◌, ◌≡◌, ◌≢◌, refl, sym, ap, subst, ◌∙◌, inl, inr, false, some, List, [], ◌∷◌,
  ◌++◌, arith, is_empty, Result, ◌==◌, nat_eq, nat_beq_iff, Bool-cases,
}
use istio_csr.Certmanager.{Bundle}
use istio_csr.Rootca.{RootCas}
use istio_csr.Server.Certificate.{Signer}
use istio_csr.Tls.{Libraries, Provider, subscribe_root_cas_event}
use istio_csr.Tls.Fetch.{
  FetchError, indices, update_roots, fetch_certificate, Event, subscribed, file_changed, fetched,
  stopped, step, run,
}
use istio_csr.Tls.Attempts.{Attempts, failed, failed_after, succeeded, fetch_certificate-Attempts}

mem-indices : (i n : ℕ) → i < n → Memᴰ i (indices n)
mem-indices i zero h = absurd (omega (arith, h))
mem-indices i (suc n) h = elim (Bool-cases (i == n)) [
  | inl last ↦ Memᴰ.append_right (indices n) (Memᴰ.head ((nat_beq_iff i n).0 last))
  | inr other ↦ Memᴰ.append_left (n ∷ []) (mem-indices i n (ground (arith, h)))
]

module _ (lib : Libraries) where
  open lib use {pools}

  -- A file for the roots is given.
  abbrev pub HasFile : Provider lib → Type 0
  HasFile p = is_empty p.opts.root_cas_cert_file ≡ false

  -- The bundles that the file's watcher brings, in order.
  abbrev pub changes : {E : Type 0} → List (Event lib E) → List (RootCas pools.Pool)
  changes [] = []
  changes (subscribed ∷ es) = changes es
  changes (file_changed r ∷ es) = r ∷ changes es
  changes (fetched signer ∷ es) = changes es
  changes (stopped ∷ es) = changes es

  -- The last of some roots, or those that are held where there are none.
  abbrev latest : RootCas pools.Pool → List (RootCas pools.Pool) → RootCas pools.Pool
  latest r [] = r
  latest r (s ∷ ss) = latest s ss

  latest-append :
      (r s : RootCas pools.Pool) (before : List (RootCas pools.Pool))
      → latest r (before ++ s ∷ []) ≡ s
  latest-append r s [] = refl
  latest-append r s (b ∷ before) = latest-append b s before

  -- What a fetch keeps where a file is given.
  record Keeps (p after : Provider lib) : Type 0 where
    opts : after.opts ≡ p.opts
    roots : after.root_cas ≡ p.root_cas
    subscribers : after.subscriptions ≡ p.subscriptions
    messages : after.pending ≡ p.pending

  update_roots-file :
      (p : Provider lib) (bundle : Bundle) {p' : Provider lib}
      → HasFile p
      → update_roots lib p bundle ≡ some p'
      → p ≡ p'
  unfolding update_roots
  update_roots-file p bundle file e = ground arith

  Attempts-Keeps :
      {E : Type 0} (signer : Signer E) (p : Provider lib)
      {out : Provider lib × Result (FetchError E) lib.Time}
      → HasFile p
      → Attempts lib signer p out
      → Keeps p out.0
  Attempts-Keeps signer p file (failed e) = record {
    opts = refl;
    roots = refl;
    subscribers = refl;
    messages = refl;
  }
  Attempts-Keeps signer p file (failed_after bundle p' e updated) =
      subst (Keeps p) (update_roots-file p bundle file updated)
        (record { opts = refl; roots = refl; subscribers = refl; messages = refl })
  Attempts-Keeps signer p file (succeeded f) =
      let same = update_roots-file p f.bundle file f.updated in
      record {
        opts = ground (arith, same, f.after_eq);
        roots = ground (arith, same, f.after_eq);
        subscribers = ground (arith, same, f.after_eq);
        messages = ground (arith, same, f.after_eq);
      }

  step_opts :
      {E : Type 0} (p : Provider lib) (e : Event lib E) → HasFile p → (step lib p e).opts ≡ p.opts
  unfolding step subscribe_root_cas_event
  step_opts p subscribed file = refl
  step_opts p (file_changed r) file = ground arith
  step_opts p (fetched signer) file =
      (Attempts-Keeps signer p file (fetch_certificate-Attempts lib signer p)).opts
  step_opts p stopped file = refl

  step-HasFile :
      {E : Type 0} (p : Provider lib) (e : Event lib E) → HasFile p → HasFile (step lib p e)
  step-HasFile p e file = ground (arith, step_opts p e file)

  changed-roots :
      (E : Type 0) (p : Provider lib) (r : RootCas pools.Pool)
      → HasFile p
      → (step lib {E = E} p (file_changed r)).root_cas ≡ r
  unfolding step
  changed-roots E p r file = ground arith

  -- The roots are the last that the file's watcher brought.
  run-latest :
      {E : Type 0} (p : Provider lib) (es : List (Event lib E))
      → HasFile p
      → (run lib p es).root_cas ≡ latest p.root_cas (changes es)
  unfolding run step subscribe_root_cas_event
  run-latest {E} p [] file = refl
  run-latest {E} p (subscribed ∷ es) file = run-latest (step lib {E = E} p subscribed) es file
  run-latest {E} p (stopped ∷ es) file =
      run-latest (step lib {E = E} p stopped) es (step-HasFile {E = E} p stopped file)
  run-latest {E} p (file_changed r ∷ es) file =
      run-latest (step lib {E = E} p (file_changed r)) es
        (step-HasFile {E = E} p (file_changed r) file)
      ∙ ap (λ x. latest x (changes es)) (changed-roots E p r file)
  run-latest {E} p (fetched signer ∷ es) file =
      let kept = Attempts-Keeps signer p file (fetch_certificate-Attempts lib signer p) in
      let later =
        run-latest (fetch_certificate lib signer p).0 es (step-HasFile p (fetched signer) file) in
      later ∙ ap (λ r. latest r (changes es)) kept.roots

  -- A message to the subscriber was started.
  abbrev pub IsTold : ℕ → Provider lib → Type 0
  IsTold i p = Memᴰ i p.pending

  step-IsTold :
      {E : Type 0} (i : ℕ) (p : Provider lib) (e : Event lib E)
      → HasFile p
      → IsTold i p
      → IsTold i (step lib p e)
  unfolding step subscribe_root_cas_event
  step-IsTold i p subscribed file t = t
  step-IsTold i p (file_changed r) file t =
      ground (arith, Memᴰ.append_left (indices p.subscriptions) t)
  step-IsTold i p (fetched signer) file t =
      let kept = Attempts-Keeps signer p file (fetch_certificate-Attempts lib signer p) in
      subst (Memᴰ i) (sym kept.messages) t
  step-IsTold i p stopped file t = t

  step-subscriptions :
      {E : Type 0} (p : Provider lib) (e : Event lib E)
      → HasFile p
      → p.subscriptions ≤ (step lib p e).subscriptions
  unfolding step subscribe_root_cas_event
  step-subscriptions p subscribed file = omega arith
  step-subscriptions p (file_changed r) file = ground arith
  step-subscriptions p (fetched signer) file =
      let kept = Attempts-Keeps signer p file (fetch_certificate-Attempts lib signer p) in
      omega (arith, kept.subscribers)
  step-subscriptions p stopped file = omega arith

  changed-IsTold :
      (E : Type 0) (i : ℕ) (p : Provider lib) (r : RootCas pools.Pool)
      → HasFile p
      → i < p.subscriptions
      → IsTold i (step lib {E = E} p (file_changed r))
  unfolding step
  changed-IsTold E i p r file h =
      ground (arith, Memᴰ.append_right p.pending (mem-indices i p.subscriptions h))

  run-keeps_IsTold :
      {E : Type 0} (i : ℕ) (p : Provider lib) (es : List (Event lib E))
      → HasFile p
      → IsTold i p
      → IsTold i (run lib p es)
  unfolding run
  run-keeps_IsTold i p [] file t = t
  run-keeps_IsTold i p (e ∷ es) file t =
      run-keeps_IsTold i (step lib p e) es (step-HasFile p e file) (step-IsTold i p e file t)

  run-IsTold :
      {E : Type 0} (i : ℕ) (p : Provider lib) (es : List (Event lib E))
      → HasFile p
      → i < p.subscriptions
      → changes es ≢ []
      → IsTold i (run lib p es)
  unfolding run
  run-IsTold i p [] file h c = absurd (c refl)
  run-IsTold i p (subscribed ∷ es) file h c =
      run-IsTold i (step lib p subscribed) es (step-HasFile p subscribed file)
        (omega (arith, h, step-subscriptions p subscribed file)) c
  run-IsTold i p (file_changed r ∷ es) file h c =
      run-keeps_IsTold i (step lib p (file_changed r)) es (step-HasFile p (file_changed r) file)
        (changed-IsTold _ i p r file h)
  run-IsTold i p (fetched signer ∷ es) file h c =
      run-IsTold i (step lib p (fetched signer)) es (step-HasFile p (fetched signer) file)
        (omega (arith, h, step-subscriptions p (fetched signer) file)) c
  run-IsTold i p (stopped ∷ es) file h c =
      run-IsTold i (step lib p stopped) es (step-HasFile p stopped file)
        (omega (arith, h, step-subscriptions p stopped file)) c

-- With a file for the roots, whatever else the provider meets, its roots are the last that the
-- file's watcher brought, and a message was started to each subscriber of the beginning.
pub run-FromFile :
    (lib : Libraries) {E : Type 0} (p : Provider lib) (es : List (Event lib E))
    (before : List (RootCas lib.pools.Pool)) (r : RootCas lib.pools.Pool)
    → HasFile lib p
    → changes lib es ≡ before ++ r ∷ []
    → ((run lib p es).root_cas ≡ r) × ((i : ℕ) → i < p.subscriptions → IsTold lib i (run lib p es))
run-FromFile lib p es before r file e = (
  run-latest lib p es file ∙ ap (latest lib p.root_cas) e ∙ latest-append lib p.root_cas r before,
  λ i h. run-IsTold lib i p es file h (λ empty. not_nil before (sym e ∙ empty)),
)
  where
    not_nil : (xs : List (RootCas lib.pools.Pool)) → xs ++ r ∷ [] ≢ []
    not_nil [] h = cc
    not_nil (x ∷ xs) h = cc
