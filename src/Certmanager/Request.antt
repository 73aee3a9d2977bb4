-- ===== src/Certmanager/Request.antt =====
-- pkg/certmanager/certmanager.go, Sign and waitForCertificateRequest: the life of one
-- CertificateRequest.
pub mod Granted
pub mod Effects
use istio_csr.Base.{
  ℕ, ◌≡◌, Bool, true, false, not, ◌&&◌, ◌||◌, Option, none, some, List, [], ◌∷◌, ◌++◌, Result, ok,
  err, is_empty, if◌then◌else◌,
}
use istio_csr.Base.Int64.{ℤ}
use istio_csr.Base.Text.{Str, bytes}
use istio_csr.Base.Dict.{Dict, copy}
use istio_csr.Certmanager.{IssuerReference, Manager, Bundle, KeyUsage}

abbrev pub identity_annotation : Str
identity_annotation = bytes "istio.cert-manager.io/identities"

-- The CertificateRequest that Sign creates.
pub record NewRequest : Type 0 where
  pub generate_name : Str
  pub annotations : Dict Str
  pub duration : ℤ
  pub is_ca : Bool
  pub request : Str
  pub usages : List KeyUsage
  pub issuer_ref : IssuerReference

pub record Condition : Type 0 where
  pub type : Str
  pub status : Str
  pub reason : Str

-- A CertificateRequest as the API server returns it: its name and its status.
pub record CertificateRequest : Type 0 where
  pub namespace : Str
  pub name : Str
  pub conditions : List Condition
  pub certificate : Str
  pub ca : Str

pub data Object : Type 0 where
  certificate_request : CertificateRequest → Object
  other_object : Object

-- An event of the watch: whether its type is `watch.Deleted`, and its object.
pub record Event : Type 0 where
  pub is_deleted : Bool
  pub object : Object

-- cert-manager's client and its two tests on conditions. The list of events of a watch ends where
-- its channel is closed.
pub record Api : Type 0 where
  pub create : NewRequest → Result Str CertificateRequest
  pub watch : Str → Result Str (List Event)
  pub get : Str → Result Str CertificateRequest
  pub certificate_request_is_denied : CertificateRequest → Bool
  pub certificate_request_has_condition : CertificateRequest → Condition → Bool

-- The condition Ready=False with reason Failed.
abbrev pub failed_condition : Condition
failed_condition = record { type = bytes "Ready"; status = bytes "False"; reason = bytes "Failed" }

pub data SignError : Type 0 where
  no_active_issuer_ref : SignError
  create_failed : Str → SignError
  watch_failed : Str → SignError
  get_failed : Str → SignError
  denied : List Condition → SignError
  failed : List Condition → SignError
  watcher_channel_closed : SignError
  unexpectedly_deleted : SignError

-- The calls of the API, in order.
pub data Action : Type 0 where
  created : NewRequest → Action
  watched got deleted : Str → Action

module _ (api : Api) where
  -- One turn of the outer loop: the terminal states of a request, or `next`.
  unfoldable pub decide_request :
      CertificateRequest → Result SignError CertificateRequest → Result SignError CertificateRequest
  decide_request cr next =
      if api.certificate_request_is_denied cr
      then err (denied cr.conditions)
      else if api.certificate_request_has_condition cr failed_condition
      then err (failed cr.conditions)
      else if not (is_empty cr.certificate)
      then ok cr
      else next

  -- The inner loop, and then the outer one again: an object of another type is skipped.
  unfoldable pub receive : List Event → Result SignError CertificateRequest
  receive [] = err watcher_channel_closed
  receive (w ∷ ws) =
      let next = receive ws in
      let taken : Result SignError CertificateRequest = elim w.object [
        | certificate_request cr ↦ decide_request cr next
        | other_object ↦ next
      ] in
      if w.is_deleted then err unexpectedly_deleted else taken

  -- waitForCertificateRequest: the watch is made before the request is read.
  unfoldable pub wait_for_certificate_request :
      CertificateRequest → Result SignError CertificateRequest × List Action
  wait_for_certificate_request cr = elim (api.watch cr.name) [
    | err e ↦ (err (watch_failed e), watched cr.name ∷ [])
    | ok ws ↦ elim (api.get cr.name) [
      | err e ↦ (err (get_failed e), watched cr.name ∷ got cr.name ∷ [])
      | ok cr' ↦ (decide_request cr' (receive ws), watched cr.name ∷ got cr.name ∷ [])
    ]
  ]

  -- The request that Sign builds; the additional annotations are copied over the identities.
  unfoldable pub new_request :
      Manager → IssuerReference → Str → Str → ℤ → List KeyUsage → NewRequest
  new_request m issuer_ref identities csr_pem duration usages = record {
    generate_name = bytes "istio-csr-";
    annotations = copy ((identity_annotation, identities) ∷ []) m.opts.additional_annotations;
    duration = duration;
    is_ca = false;
    request = csr_pem;
    usages = usages;
    issuer_ref = issuer_ref;
  }

  -- The deferred deletion, on every return after a request was created.
  abbrev pub cleanup : Manager → CertificateRequest → List Action
  cleanup m cr = if not m.opts.preserve_certificate_requests then deleted cr.name ∷ [] else []

  abbrev pub bundle_of : Result SignError CertificateRequest → Result SignError Bundle
  bundle_of (err e) = err e
  bundle_of (ok cr) = ok (record { certificate = cr.certificate; ca = cr.ca })

  unfoldable pub sign :
      Manager → Str → Str → ℤ → List KeyUsage → Result SignError Bundle × List Action
  sign m identities csr_pem duration usages = elim m.active_issuer_ref [
    | none ↦ (err no_active_issuer_ref, [])
    | some issuer_ref ↦
        let request = new_request m issuer_ref identities csr_pem duration usages in
        elim (api.create request) [
          | err e ↦ (err (create_failed e), created request ∷ [])
          | ok cr ↦
              let (result, actions) = wait_for_certificate_request cr in
              (bundle_of result, created request ∷ (actions ++ cleanup m cr))
        ]
  ]
