-- ===== src/Server/Certificate/Served.antt =====
-- When CreateCertificate signs, and what it answers.
use istio_csr.Base.{
  ◌≡◌, ◌≢◌, refl, ◌↔◌, inl, inr, Bool, true, false, Option, none, List, [], ◌∷◌, arith, Result, ok,
  err, Result-cases,
}
use istio_csr.Base.Int64.{ℤ}
use istio_csr.Rootca.{RootCas}
use istio_csr.Base.Text.{Str}
use istio_csr.Certmanager.{Bundle}
use istio_csr.Server.Auth.{Authenticator, Libraries, auth_request}
use istio_csr.Server.Auth.Authorized.{IsAuthorized, auth_request_iff}
use istio_csr.Server.NodeAuth.{ClusterNodeAuthorizer}
use istio_csr.Server.Certificate.{
  IstioCertificateRequest, Pki, ChainError, panic, SignCall, Signer, Status, unauthenticated,
  sign_call, response, parse_certificate_bundle, create_certificate,
}
use istio_csr.Server.Certificate.Chain.{IsChain, parse_certificate_bundle_iff}

module _ (lib : Libraries) {Pool : Type 0} (pki : Pki Pool)
    (node_authorizer : Option ClusterNodeAuthorizer) (maximum : ℤ) {Context E A : Type 0}
    (authenticators : List (Authenticator Context A)) (signer : Signer E) (ctx : Context)
    (root_cas : Option (RootCas Pool)) (ctx_err : Option Str) (icr : IstioCertificateRequest) where
  abbrev served : Result Status (List Str) × List SignCall
  served =
      create_certificate lib pki node_authorizer maximum authenticators signer ctx root_cas ctx_err
        icr

  abbrev Authorized : Str → Type 0
  Authorized identities = IsAuthorized lib node_authorizer authenticators ctx icr.request identities

  abbrev call : Str → SignCall
  call identities = sign_call lib pki node_authorizer maximum authenticators signer icr identities

  -- What the signer is asked: nothing for a request that is not authorized, which is answered so;
  -- else one certificate, for the identities that the request is authorized for.
  pub data Asks : Type 0 where
    nothing :
        ((identities : Str) → ¬ Authorized identities) → served ≡ (err unauthenticated, []) → Asks
    once : (identities : Str) → Authorized identities → served.1 ≡ call identities ∷ [] → Asks

  asks :
      (identities : Str) (b : Bool)
      → auth_request lib node_authorizer authenticators ctx icr.request ≡ (identities, b)
      → Asks
  unfolding create_certificate
  asks identities true e =
      once identities ((auth_request_iff _ _ _ _ _ identities).0 e) (ground arith)
  asks identities false e =
      nothing
        (λ i a. cc (e, (auth_request_iff lib node_authorizer authenticators ctx icr.request i).1 a))
        (ground arith)

  pub record IsServed (chain : List Str) : Type 0 where
    pub identities : Str
    pub granted : Authorized identities
    pub bundle : Bundle
    pub signed : signer (call identities) ≡ ok bundle
    pub issued : IsChain pki root_cas bundle chain

  response_sound :
      (r : Result ChainError (List Str)) {chain : List Str} → response r ≡ ok chain → r ≡ ok chain
  response_sound (ok c) e = ground arith
  response_sound (err panic) e = cc
  response_sound (err x) e = cc

  module _ (ended : root_cas ≡ none → ctx_err ≢ none) {chain : List Str} where
    IsServed-sound :
        (identities : Str) (b : Bool)
        → auth_request lib node_authorizer authenticators ctx icr.request ≡ (identities, b)
        → served.0 ≡ ok chain
        → IsServed chain
    unfolding create_certificate
    IsServed-sound identities false a e = ground arith
    IsServed-sound identities true a e = elim (Result-cases (signer (call identities))) [
      | inr (x, bad) ↦ ground arith
      | inl (bundle, signed) ↦ record {
        identities = identities;
        granted = (auth_request_iff _ _ _ _ _ identities).0 a;
        bundle = bundle;
        signed = signed;
        issued =
            (parse_certificate_bundle_iff pki root_cas ctx_err bundle chain ended).0 (
              response_sound (parse_certificate_bundle pki root_cas ctx_err bundle) (ground arith));
      }
    ]

    IsServed-complete : IsServed chain → served.0 ≡ ok chain
    unfolding create_certificate
    IsServed-complete s = ground (
      arith,
      (auth_request_iff lib node_authorizer authenticators ctx icr.request s.identities).1
          s.granted,
      s.signed,
      (parse_certificate_bundle_iff pki root_cas ctx_err s.bundle chain ended).1 s.issued,
    )

-- The signer is asked for one certificate where the request is authorized, with the identities that
-- it is authorized for, its CSR, the clamped duration and the two usages; otherwise it is not
-- asked, and the answer is Unauthenticated.
pub create_certificate-Asks :
    (lib : Libraries) {Pool : Type 0} (pki : Pki Pool)
    (node_authorizer : Option ClusterNodeAuthorizer) (maximum : ℤ) {Context E A : Type 0}
    (authenticators : List (Authenticator Context A)) (signer : Signer E) (ctx : Context)
    (root_cas : Option (RootCas Pool)) (ctx_err : Option Str) (icr : IstioCertificateRequest)
    → Asks lib pki node_authorizer maximum authenticators signer ctx root_cas ctx_err icr
create_certificate-Asks lib pki node_authorizer maximum authenticators signer ctx root_cas ctx_err
      icr =
    asks lib pki node_authorizer maximum authenticators signer ctx root_cas ctx_err icr _ _ refl

-- If the TLS provider gives no roots only when the context has an error, the answer is a chain
-- exactly when the request is authorized for some identities, the signer gives a bundle for them,
-- and the bundle makes that chain, verified against the roots of the mesh.
pub create_certificate_iff :
    (lib : Libraries) {Pool : Type 0} (pki : Pki Pool)
    (node_authorizer : Option ClusterNodeAuthorizer) (maximum : ℤ) {Context E A : Type 0}
    (authenticators : List (Authenticator Context A)) (signer : Signer E) (ctx : Context)
    (root_cas : Option (RootCas Pool)) (ctx_err : Option Str) (icr : IstioCertificateRequest)
    (chain : List Str)
    → (root_cas ≡ none → ctx_err ≢ none)
    → ((create_certificate lib pki node_authorizer maximum authenticators signer ctx root_cas
          ctx_err icr).0
        ≡ ok chain)
      ↔ IsServed lib pki node_authorizer maximum authenticators signer ctx root_cas ctx_err icr
          chain
create_certificate_iff lib pki node_authorizer maximum authenticators signer ctx root_cas ctx_err
      icr chain ended =
    (
      IsServed-sound lib pki node_authorizer maximum authenticators signer ctx root_cas ctx_err icr
          ended _ _ refl,
      IsServed-complete lib pki node_authorizer maximum authenticators signer ctx root_cas ctx_err
          icr ended,
    )
