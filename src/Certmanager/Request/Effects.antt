-- ===== src/Certmanager/Request/Effects.antt =====
-- What Sign does to the cluster, and with which issuer and annotations.
use mathlib.Core.List.{append-nil}
use istio_csr.Base.{
  ◌≡◌, refl, sym, ap, subst, ◌∙◌, true, false, Bool-cases, ◌⊎◌, inl, inr, Option, none, some, List,
  [], ◌∷◌, ◌++◌, arith, Result, ok, err, Result-cases, if◌then◌else◌, ◌==◌, list_eq, nat_eq,
}
use istio_csr.Base.Int64.{ℤ}
use istio_csr.Base.Text.{Str, bytes}
use istio_csr.Base.Dict.{lookup, lookup-copy, or_else}
use istio_csr.Certmanager.{IssuerReference, Manager, Bundle, KeyUsage}
use istio_csr.Certmanager.Request.{
  identity_annotation, NewRequest, CertificateRequest, Event, Api, SignError, Action, created,
  watched, got, deleted, wait_for_certificate_request, new_request, bundle_of, sign,
}
use istio_csr.Certmanager.Request.Granted.{IsSigned, IsPending, Brings, decide_request-receive_iff}

-- The calls that stand between the creation and the deletion: only reads.
pub data Reads (name : Str) : List Action → Type 0 where
  one : Reads name (watched name ∷ [])
  two : Reads name (watched name ∷ got name ∷ [])

wait-Reads :
    (api : Api) (cr : CertificateRequest) → Reads cr.name (wait_for_certificate_request api cr).1
unfolding wait_for_certificate_request
wait-Reads api cr = elim (Result-cases (api.watch cr.name)) [
  | inr (e, bad) ↦ subst (Reads cr.name) (ground arith) one
  | inl (ws, good) ↦ elim (Result-cases (api.get cr.name)) [
    | inr (e, bad) ↦ subst (Reads cr.name) (ground arith) two
    | inl (cr', read) ↦ subst (Reads cr.name) (ground arith) two
  ]
]

-- The request that was found signed: the one that was read, or a later one of the watch.
pub record Grants (api : Api) (name : Str) (final : CertificateRequest) : Type 0 where
  pub ws : List Event
  pub watching : api.watch name ≡ ok ws
  pub cr : CertificateRequest
  pub reading : api.get name ≡ ok cr
  pub found : (IsSigned api cr × (cr ≡ final)) ⊎ (IsPending api cr × Brings api final ws)

wait_sound :
    (api : Api) (cr : CertificateRequest) {final : CertificateRequest}
    → (wait_for_certificate_request api cr).0 ≡ ok final
    → Grants api cr.name final
unfolding wait_for_certificate_request
wait_sound api cr {final} e = elim (Result-cases (api.watch cr.name)) [
  | inr (x, bad) ↦ ground arith
  | inl (ws, good) ↦ elim (Result-cases (api.get cr.name)) [
    | inr (x, bad) ↦ ground arith
    | inl (cr', read) ↦ record {
      ws = ws;
      watching = good;
      cr = cr';
      reading = read;
      found = (decide_request-receive_iff api cr' final ws).0 (ground arith);
    }
  ]
]

module _ (api : Api) (m : Manager) (identities csr_pem : Str) (duration : ℤ)
    (usages : List KeyUsage) where
  -- The request asks for the certificate from the issuer. Under the key of the identities it has
  -- these, and under the key of an additional annotation of the options its value, which comes first.
  pub record IsRequest (r : IssuerReference) (request : NewRequest) : Type 0 where
    pub issuer : request.issuer_ref ≡ r
    pub csr : request.request ≡ csr_pem
    pub lasts : request.duration ≡ duration
    pub used : request.usages ≡ usages
    pub no_ca : request.is_ca ≡ false
    pub named : request.generate_name ≡ bytes "istio-csr-"
    pub annotated :
        (k : Str)
        → lookup k request.annotations
          ≡ or_else
              (lookup k m.opts.additional_annotations)
              (if bytes "istio.cert-manager.io/identities" == k then some identities else none)

  abbrev requested : IssuerReference → NewRequest
  requested r = new_request api m r identities csr_pem duration usages

  requested-IsRequest : (r : IssuerReference) → IsRequest r (requested r)
  unfolding new_request lookup
  requested-IsRequest r = record {
    issuer = refl;
    csr = refl;
    lasts = refl;
    used = refl;
    no_ca = refl;
    named = refl;
    annotated =
        λ k. lookup-copy k ((identity_annotation, identities) ∷ []) m.opts.additional_annotations;
  }

  -- The calls of one Sign: none without an active issuer; else one creation, and where that
  -- succeeds some reads of the created request and then its deletion, unless requests are
  -- preserved.
  pub data Calls : List Action → Type 0 where
    idle : m.active_issuer_ref ≡ none → Calls []
    rejected :
        {r : IssuerReference} {request : NewRequest} {e : Str}
        → m.active_issuer_ref ≡ some r
        → IsRequest r request
        → api.create request ≡ err e
        → Calls (created request ∷ [])
    preserved :
        {r : IssuerReference} {request : NewRequest} {cr : CertificateRequest} {reads : List Action}
        → m.active_issuer_ref ≡ some r
        → IsRequest r request
        → api.create request ≡ ok cr
        → Reads cr.name reads
        → m.opts.preserve_certificate_requests ≡ true
        → Calls (created request ∷ reads)
    removed :
        {r : IssuerReference} {request : NewRequest} {cr : CertificateRequest} {reads : List Action}
        → m.active_issuer_ref ≡ some r
        → IsRequest r request
        → api.create request ≡ ok cr
        → Reads cr.name reads
        → m.opts.preserve_certificate_requests ≡ false
        → Calls (created request ∷ (reads ++ deleted cr.name ∷ []))

  abbrev run : Result SignError Bundle × List Action
  run = sign api m identities csr_pem duration usages

  sign_cases : (o : Option IssuerReference) → m.active_issuer_ref ≡ o → Calls run.1
  unfolding sign
  sign_cases none e = subst Calls (ground arith) (idle e)
  sign_cases (some r) e = elim (Result-cases (api.create (requested r))) [
    | inr (x, bad) ↦ subst Calls (ground arith) (rejected e (requested-IsRequest r) bad)
    | inl (cr, good) ↦
        let reads = wait-Reads api cr in
        elim (Bool-cases m.opts.preserve_certificate_requests) [
          | inl keep ↦
              subst Calls
                (ap (λ calls. created (requested r) ∷ calls) (sym (append-nil _))
                  ∙ ground (arith, keep))
                (preserved e (requested-IsRequest r) good reads keep)
          | inr drop ↦
              subst Calls (ground (arith, drop)) (removed e (requested-IsRequest r) good reads drop)
        ]
  ]

  -- What stands behind a bundle.
  pub record IsIssued (b : Bundle) : Type 0 where
    pub issuer_ref : IssuerReference
    pub active : m.active_issuer_ref ≡ some issuer_ref
    pub request : NewRequest
    pub asks : IsRequest issuer_ref request
    pub cr : CertificateRequest
    pub creating : api.create request ≡ ok cr
    pub final : CertificateRequest
    pub granted : Grants api cr.name final
    pub certificate : b.certificate ≡ final.certificate
    pub ca : b.ca ≡ final.ca

  bundle_of_sound :
      (r : Result SignError CertificateRequest) {b : Bundle}
      → bundle_of api r ≡ ok b
      → (final : CertificateRequest) × (r ≡ ok final)
        × (b.certificate ≡ final.certificate)
        × (b.ca ≡ final.ca)
  bundle_of_sound (err x) e = cc
  bundle_of_sound (ok final) e = (final, refl, ground arith, ground arith)

  IsIssued-cases :
      {b : Bundle} (o : Option IssuerReference)
      → m.active_issuer_ref ≡ o
      → run.0 ≡ ok b
      → IsIssued b
  unfolding sign
  IsIssued-cases none a e = ground arith
  IsIssued-cases {b} (some r) a e = elim (Result-cases (api.create (requested r))) [
    | inr (x, bad) ↦ ground arith
    | inl (cr, good) ↦
        let (final, waited, same, same_ca) =
          bundle_of_sound (wait_for_certificate_request api cr).0 {b = b} (ground arith) in
        record {
          issuer_ref = r;
          active = a;
          request = requested r;
          asks = requested-IsRequest r;
          cr = cr;
          creating = good;
          final = final;
          granted = wait_sound api cr waited;
          certificate = same;
          ca = same_ca;
        }
  ]

-- The calls of one Sign, on every branch: none without an active issuer; else one creation, of a
-- request to that issuer with the CSR, the duration, the usages and the annotations, and where it
-- succeeds only reads of the created request and at the end its deletion, unless requests are
-- preserved.
pub sign-Calls :
    (api : Api) (m : Manager) (identities csr_pem : Str) (duration : ℤ) (usages : List KeyUsage)
    → Calls api m identities csr_pem duration usages
        (sign api m identities csr_pem duration usages).1
sign-Calls api m identities csr_pem duration usages =
    sign_cases api m identities csr_pem duration usages m.active_issuer_ref refl

-- A bundle comes from a request that was created to the active issuer, with the CSR, the duration,
-- the usages and the annotations, and was then found signed, neither denied nor failed.
pub sign-IsIssued :
    (api : Api) (m : Manager) (identities csr_pem : Str) (duration : ℤ) (usages : List KeyUsage)
    (b : Bundle)
    → (sign api m identities csr_pem duration usages).0 ≡ ok b
    → IsIssued api m identities csr_pem duration usages b
sign-IsIssued api m identities csr_pem duration usages b =
    IsIssued-cases api m identities csr_pem duration usages m.active_issuer_ref refl

-- The annotations of a created request: an additional annotation of the options has its value, also
-- where its key is that of the identities; every other key but that one is absent.
pub lookup-new_request :
    (api : Api) (m : Manager) (r : IssuerReference) (identities csr_pem : Str) (duration : ℤ)
    (usages : List KeyUsage) (k : Str)
    → lookup k (new_request api m r identities csr_pem duration usages).annotations
      ≡ or_else
          (lookup k m.opts.additional_annotations)
          (if identity_annotation == k then some identities else none)
unfolding new_request lookup
lookup-new_request api m r identities csr_pem duration usages k =
    lookup-copy k ((identity_annotation, identities) ∷ []) m.opts.additional_annotations
