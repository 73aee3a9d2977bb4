-- ===== src/Tls/Issued/Trust.antt =====
-- pkg/tls/tls.go, fetchCertificate: the roots after an answer of the signer.
use istio_csr.Base.{
  ◌≡◌, ◌≢◌, subst, inl, inr, Option, some, [], ◌++◌, arith, is_empty, is_empty_sound,
  is_empty_complete, list_eq, nat_eq, list_beq_iff, Bool-cases,
}
use istio_csr.Rootca.{RootCas, roots_of}
use istio_csr.Certmanager.{Bundle}
use istio_csr.Tls.{Libraries, Provider}
use istio_csr.Tls.Fetch.{indices, update_roots, load_cas_root}
use istio_csr.Tls.Roots.{Loads, unchanged, undecodable, changed, load_cas_root-Loads}

module _ (lib : Libraries) where
  open lib use {pools}

  -- The roots after an answer of the signer: those of the file where one is given, else those of the
  -- bundle's CA, of which each subscriber is told unless they are held already.
  pub data Roots (p : Provider lib) (bundle : Bundle) : Provider lib → Type 0 where
    of_file : p.opts.root_cas_cert_file ≢ [] → Roots p bundle p
    held : p.opts.root_cas_cert_file ≡ [] → p.root_cas.pem ≡ bundle.ca → Roots p bundle p
    replaced :
        (r : RootCas pools.Pool)
        → p.opts.root_cas_cert_file ≡ []
        → p.root_cas.pem ≢ bundle.ca
        → roots_of pools bundle.ca ≡ some r
        → r.pem ≡ bundle.ca
        → Roots p bundle (record p { root_cas = r; pending = p.pending ++ indices p.subscriptions })

  Loads-Roots :
      {p p' : Provider lib} {bundle : Bundle} {o : Option (Provider lib)}
      → p.opts.root_cas_cert_file ≡ []
      → Loads lib p bundle.ca o
      → o ≡ some p'
      → Roots p bundle p'
  Loads-Roots {p} {bundle = bundle} own (unchanged same) e =
      subst (Roots p bundle) (ground arith) (held own same)
  Loads-Roots own (undecodable differs bad) e = cc
  Loads-Roots {p} {bundle = bundle} own (changed r differs good pem) e =
      subst (Roots p bundle) (ground arith) (replaced r own differs good pem)

  pub update_roots_sound :
      {p p' : Provider lib} {bundle : Bundle}
      → update_roots lib p bundle ≡ some p'
      → Roots p bundle p'
  unfolding update_roots
  update_roots_sound {p} {p'} {bundle} e = elim (Bool-cases (is_empty p.opts.root_cas_cert_file)) [
    | inl own ↦
        Loads-Roots (is_empty_sound p.opts.root_cas_cert_file own)
          (load_cas_root-Loads lib p bundle.ca) (ground arith)
    | inr file ↦
        subst (Roots p bundle) (ground arith) (of_file (λ none_given. ground (arith, file)))
  ]

  pub update_roots_complete :
      {p p' : Provider lib} {bundle : Bundle}
      → Roots p bundle p'
      → update_roots lib p bundle ≡ some p'
  unfolding update_roots load_cas_root
  update_roots_complete {p} (of_file given) =
      ground (arith, is_empty_complete p.opts.root_cas_cert_file given)
  update_roots_complete {p} {bundle = bundle} (held own same) =
      ground (arith, own, (list_beq_iff p.root_cas.pem bundle.ca).1 same)
  update_roots_complete {p} {bundle = bundle} (replaced r own differs good pem) =
      ground (arith, own, good, list_beq_iff p.root_cas.pem bundle.ca)
