-- ===== src/Tls/Attempts.antt =====
-- Every outcome of a fetch of a serving certificate, and what a failed one keeps.
use istio_csr.Base.{
  ◌≡◌, refl, sym, subst, ◌⊎◌, inl, inr, some, arith, Result, ok, err, Option-cases, Result-cases,
}
use istio_csr.Base.Text.{Str}
use istio_csr.Certmanager.{Bundle}
use istio_csr.Server.Certificate.{Signer}
use istio_csr.Tls.{Libraries, Provider}
use istio_csr.Tls.Fetch.{
  FetchError, csr_failed, sign_failed, bad_ca, cert_options, config_of, serve, sign_call,
  update_roots, fetch_certificate, load_cas_root,
}
use istio_csr.Tls.Fetched.{IsFetched, IsFetched-sound}

-- Every outcome of a fetch: it fails and changes nothing, it fails with the bundle's roots in
-- place, or it succeeds.
pub data Attempts (lib : Libraries) {E : Type 0} (signer : Signer E) (p : Provider lib)
    : Provider lib × Result (FetchError E) lib.Time → Type 0 where
  failed : (e : FetchError E) → Attempts lib signer p (p, err e)
  failed_after :
      (bundle : Bundle) (p' : Provider lib) (e : FetchError E)
      → update_roots lib p bundle ≡ some p'
      → Attempts lib signer p (p', err e)
  succeeded :
      {after : Provider lib} {t : lib.Time}
      → IsFetched lib signer p after t
      → Attempts lib signer p (after, ok t)

serve_cases :
    (lib : Libraries) {E : Type 0} (p : Provider lib) (bundle : Bundle) (pk : Str)
    → ((e : FetchError E) × (serve lib p bundle pk ≡ (p, err e)))
      ⊎ ((after : Provider lib) × (t : lib.Time) × (serve lib {E = E} p bundle pk ≡ (after, ok t)))
unfolding serve
serve_cases lib {E} p bundle pk = elim (Result-cases (config_of lib {E = E} p bundle pk)) [
  | inr (e, bad) ↦ inl (e, ground arith)
  | inl ((c, t), good) ↦ inr (record p { tls_config = some c }, t, ground arith)
]

pub fetch_certificate-Attempts :
    (lib : Libraries) {E : Type 0} (signer : Signer E) (p : Provider lib)
    → Attempts lib signer p (fetch_certificate lib signer p)
unfolding fetch_certificate
fetch_certificate-Attempts lib {E} signer p =
    elim (Result-cases (cert_options lib {E = E} p.opts)) [
      | inr (e, bad) ↦ subst (Attempts lib signer p) (ground arith) (failed e)
      | inl (options, chosen) ↦ elim (Option-cases (lib.gen_csr options)) [
        | inl bad ↦ subst (Attempts lib signer p) (ground arith) (failed csr_failed)
        | inr ((csr, pk), generated) ↦ elim (Result-cases (signer (sign_call lib p.opts csr))) [
          | inr (e, bad) ↦ subst (Attempts lib signer p) (ground arith) (failed (sign_failed e))
          | inl (bundle, signed) ↦ elim (Option-cases (update_roots lib p bundle)) [
            | inl bad ↦ subst (Attempts lib signer p) (ground arith) (failed bad_ca)
            | inr (p', updated) ↦ elim (serve_cases lib {E = E} p' bundle pk) [
              | inl (e, bad) ↦
                  subst (Attempts lib signer p) (ground arith) (failed_after bundle p' e updated)
              | inr (after, t, good) ↦
                  let done : fetch_certificate lib signer p ≡ (after, ok t) = ground arith in
                  subst (Attempts lib signer p) (sym done)
                    (succeeded (IsFetched-sound lib signer p done))
            ]
          ]
        ]
      ]
    ]

update_roots-tls_config :
    (lib : Libraries) (p : Provider lib) (bundle : Bundle) {p' : Provider lib}
    → update_roots lib p bundle ≡ some p'
    → p'.tls_config ≡ p.tls_config
unfolding update_roots load_cas_root
update_roots-tls_config lib p bundle e = ground arith

Attempts-keep :
    (lib : Libraries) {E : Type 0} (signer : Signer E) (p : Provider lib)
    {out : Provider lib × Result (FetchError E) lib.Time} {x : FetchError E}
    → Attempts lib signer p out
    → out.1 ≡ err x
    → out.0.tls_config ≡ p.tls_config
Attempts-keep lib signer p (failed e) h = refl
Attempts-keep lib signer p (failed_after bundle p' e updated) h =
    update_roots-tls_config lib p bundle updated
Attempts-keep lib signer p (succeeded f) h = cc

-- A fetch that fails keeps the configuration that is served.
pub fetch_certificate-keeps :
    (lib : Libraries) {E : Type 0} (signer : Signer E) (p : Provider lib) (x : FetchError E)
    → (fetch_certificate lib signer p).1 ≡ err x
    → (fetch_certificate lib signer p).0.tls_config ≡ p.tls_config
fetch_certificate-keeps lib signer p x =
    Attempts-keep lib signer p (fetch_certificate-Attempts lib signer p)
