-- ===== src/Certmanager/Request/Granted.antt =====
-- When waiting for a CertificateRequest succeeds, and with which request.
use istio_csr.Base.{
  ◌≡◌, ◌≢◌, refl, ap, ◌∙◌, ◌↔◌, ◌⊎◌, inl, inr, Bool, true, false, List, [], ◌∷◌, arith, Result, ok,
  is_empty, Bool-cases,
}
use istio_csr.Certmanager.Request.{
  CertificateRequest, Object, certificate_request, other_object, Event, Api, failed_condition,
  SignError, decide_request, receive,
}

module _ (api : Api) where
  -- Neither denied nor failed, and a certificate is there.
  pub record IsSigned (cr : CertificateRequest) : Type 0 where
    pub not_denied : api.certificate_request_is_denied cr ≡ false
    pub not_failed : api.certificate_request_has_condition cr failed_condition ≡ false
    pub certificate : cr.certificate ≢ []

  -- Neither denied nor failed, and no certificate yet.
  pub record IsPending (cr : CertificateRequest) : Type 0 where
    pub not_denied : api.certificate_request_is_denied cr ≡ false
    pub not_failed : api.certificate_request_has_condition cr failed_condition ≡ false
    pub no_certificate : cr.certificate ≡ []

  -- The watch brings the signed request `r`, after events that are no deletion and bring pending
  -- requests or other objects only.
  pub data Brings (r : CertificateRequest) : List Event → Type 0 where
    signed :
        {w : Event} {ws : List Event}
        → w.is_deleted ≡ false
        → w.object ≡ certificate_request r
        → IsSigned r
        → Brings r (w ∷ ws)
    pending :
        {w : Event} {ws : List Event} (cr : CertificateRequest)
        → w.is_deleted ≡ false
        → w.object ≡ certificate_request cr
        → IsPending cr
        → Brings r ws
        → Brings r (w ∷ ws)
    skipped :
        {w : Event} {ws : List Event}
        → w.is_deleted ≡ false
        → w.object ≡ other_object
        → Brings r ws
        → Brings r (w ∷ ws)

  decide_sound :
      (cr r : CertificateRequest) (next : Result SignError CertificateRequest)
      → decide_request api cr next ≡ ok r
      → (IsSigned cr × (cr ≡ r)) ⊎ (IsPending cr × (next ≡ ok r))
  unfolding decide_request
  decide_sound cr r next e = elim (Bool-cases (is_empty cr.certificate)) [
    | inl none_yet ↦ inr (
      record {
        not_denied = ground arith;
        not_failed = ground arith;
        no_certificate = ground arith;
      },
      ground arith,
    )
    | inr there ↦ inl (
      record { not_denied = ground arith; not_failed = ground arith; certificate = ground arith },
      ground arith,
    )
  ]

  decide_signed :
      (cr : CertificateRequest) (next : Result SignError CertificateRequest)
      → IsSigned cr
      → decide_request api cr next ≡ ok cr
  unfolding decide_request
  decide_signed cr next s = ground arith

  decide_pending :
      (cr : CertificateRequest) (next : Result SignError CertificateRequest)
      → IsPending cr
      → decide_request api cr next ≡ next
  unfolding decide_request
  decide_pending cr next p = ground arith

  receive_step :
      (d : Bool) (o : Object) (ws : List Event) (r : CertificateRequest)
      → (receive api ws ≡ ok r → Brings r ws)
      → receive api (record { is_deleted = d; object = o } ∷ ws) ≡ ok r
      → Brings r (record { is_deleted = d; object = o } ∷ ws)
  unfolding receive
  receive_step true o ws r ih e = cc
  receive_step false (certificate_request cr) ws r ih e =
      elim (decide_sound cr r (receive api ws) e) [
        | inl (s, same) ↦ rw same (signed refl refl (rw same at s))
        | inr (p, rest) ↦ pending cr refl refl p (ih rest)
      ]
  receive_step false other_object ws r ih e = skipped refl refl (ih e)

  receive_sound : (ws : List Event) (r : CertificateRequest) → receive api ws ≡ ok r → Brings r ws
  unfolding receive
  receive_sound [] r e = cc
  receive_sound (w ∷ ws) r e = receive_step w.is_deleted w.object ws r (receive_sound ws r) e

  receive_complete :
      {r : CertificateRequest} {ws : List Event} → Brings r ws → receive api ws ≡ ok r
  unfolding receive
  receive_complete {r} (signed {w} {ws} d o s) = ground (arith, decide_signed r (receive api ws) s)
  receive_complete (pending {w} {ws} cr d o p b) =
      ground (arith, decide_pending cr (receive api ws) p, receive_complete b)
  receive_complete (skipped d o b) = ground (arith, receive_complete b)

  -- Waiting from the request `cr` that was read succeeds with `r` exactly when `cr` is `r` and
  -- signed, or `cr` is pending and the watch brings `r`: the first request that is not pending is
  -- signed, and nothing was deleted before it.
  pub decide_request-receive_iff :
      (cr r : CertificateRequest) (ws : List Event)
      → (decide_request api cr (receive api ws) ≡ ok r)
        ↔ ((IsSigned cr × (cr ≡ r)) ⊎ (IsPending cr × Brings r ws))
  decide_request-receive_iff cr r ws = (to, from)
    where
      to :
          decide_request api cr (receive api ws) ≡ ok r
          → (IsSigned cr × (cr ≡ r)) ⊎ (IsPending cr × Brings r ws)
      to e = elim (decide_sound cr r (receive api ws) e) [
        | inl now ↦ inl now
        | inr (p, rest) ↦ inr (p, receive_sound ws r rest)
      ]

      from :
          (IsSigned cr × (cr ≡ r)) ⊎ (IsPending cr × Brings r ws)
          → decide_request api cr (receive api ws) ≡ ok r
      from (inl (s, same)) = decide_signed cr (receive api ws) s ∙ ap ok same
      from (inr (p, b)) = decide_pending cr (receive api ws) p ∙ receive_complete b
