-- ===== src/Server/Auth/Authorized.antt =====
-- What a positive answer of authRequest stands for.
use mathlib.Core.List.{Perm}
use istio_csr.Base.{
  All, ◌≡◌, ◌≢◌, ◌↔◌, inl, inr, true, Option, none, some, List, [], ◌∷◌, ◌==◌, ==_iff, list_eq,
  nat_eq, ok, list_beq_iff, Option-cases, Result-cases, refl, ap, ◌∙◌, Bool-cases, map, arith,
}
use istio_csr.Base.Text.{Str, join_with}
use istio_csr.Server.Csr.{CertificateRequest, string}
use istio_csr.Server.Extensions.{validate_csr_extensions}
use istio_csr.Server.Extensions.Permitted.{IsPermitted, validate_csr_extensions_iff}
use istio_csr.Server.Identities.{identities_match_iff}
use istio_csr.Server.NodeAuth.{ClusterNodeAuthorizer}
use istio_csr.Server.NodeAuth.Impersonation.{MayImpersonate, authenticate_impersonation_iff}
use istio_csr.Server.Auth.{
  Caller, SigningRequest, Authenticator, Libraries, authenticate, impersonated, may_impersonate,
  requested_identities, expected_identities, check_request, auth_request,
}
use istio_csr.Server.Auth.Callers.{FirstCaller, authenticate_sound, authenticate_complete}

-- The identities of an authorized request: those of the caller, joined by commas, or the one
-- that it may impersonate.
pub data Speaks (lib : Libraries) (node_authorizer : Option ClusterNodeAuthorizer) (caller : Caller)
    (icr : SigningRequest) (identities : Str) : Type 0 where
  as_itself :
      impersonated lib icr ≡ []
      → identities ≡ join_with (b',' ∷ []) caller.identities
      → Speaks lib node_authorizer caller icr identities
  as_other :
      (na : ClusterNodeAuthorizer)
      → node_authorizer ≡ some na
      → impersonated lib icr ≢ []
      → identities ≡ impersonated lib icr
      → MayImpersonate lib.parse_identity na caller.kubernetes_info (impersonated lib icr)
      → Speaks lib node_authorizer caller icr identities

-- The request is signed by its key, sets nothing but URIs and allowed extensions, and its URIs are
-- the given identities, in any order.
pub record IsAcceptable (lib : Libraries) (icr : SigningRequest) (identities : List Str)
    : Type 0 where
  pub csr : CertificateRequest
  pub parsed : lib.parse_pem_encoded_csr icr.csr ≡ some csr
  pub signed : lib.check_signature csr ≡ true
  pub no_dns_names : csr.dns_names ≡ []
  pub no_ip_addresses : csr.ip_addresses ≡ []
  pub no_common_name : csr.common_name ≡ []
  pub no_email_addresses : csr.email_addresses ≡ []
  pub no_extra_extensions : csr.extra_extensions ≡ []
  pub permitted : All IsPermitted csr.extensions
  pub names : Perm identities (map string csr.uris)

pub record IsAuthorized {Context E : Type 0} (lib : Libraries)
    (node_authorizer : Option ClusterNodeAuthorizer)
    (authenticators : List (Authenticator Context E)) (ctx : Context) (icr : SigningRequest)
    (identities : Str) : Type 0 where
  pub caller : Caller
  pub authenticated : FirstCaller ctx caller authenticators
  pub identified : caller.identities ≢ []
  pub speaks : Speaks lib node_authorizer caller icr identities
  pub acceptable : IsAcceptable lib icr (expected_identities caller (impersonated lib icr))

may_impersonate_sound :
    (lib : Libraries) (node_authorizer : Option ClusterNodeAuthorizer) (caller : Caller)
    (identity : Str)
    → may_impersonate lib node_authorizer caller identity ≡ true
    → (na : ClusterNodeAuthorizer) × (node_authorizer ≡ some na)
      × MayImpersonate lib.parse_identity na caller.kubernetes_info identity
unfolding may_impersonate
may_impersonate_sound lib none caller identity e = cc
may_impersonate_sound lib (some na) caller identity e = (
  na,
  refl,
  (authenticate_impersonation_iff lib.parse_identity na caller.kubernetes_info identity).0
      (ground arith),
)

may_impersonate_complete :
    (lib : Libraries) (na : ClusterNodeAuthorizer) (caller : Caller) (identity : Str)
    → MayImpersonate lib.parse_identity na caller.kubernetes_info identity
    → may_impersonate lib (some na) caller identity ≡ true
unfolding may_impersonate
may_impersonate_complete lib na caller identity m = ground (
  arith,
  (authenticate_impersonation_iff lib.parse_identity na caller.kubernetes_info identity).1 m,
)

module _ (lib : Libraries) (node_authorizer : Option ClusterNodeAuthorizer) where
  requested_identities_sound :
      (caller : Caller) (icr : SigningRequest) {identities : Str}
      → requested_identities lib node_authorizer caller (impersonated lib icr) ≡ ok identities
      → Speaks lib node_authorizer caller icr identities
  unfolding requested_identities
  requested_identities_sound caller icr {identities} e =
      elim (Bool-cases (impersonated lib icr == [])) [
        | inl itself ↦ as_itself ((==_iff _ _).0 itself) (ground arith)
        | inr other ↦
            let (na, given, m) =
              may_impersonate_sound lib node_authorizer caller (impersonated lib icr)
                (ground arith) in
            as_other na given (ground (arith, list_beq_iff (impersonated lib icr) []))
              (ground arith) m
      ]

  requested_identities_complete :
      (caller : Caller) (icr : SigningRequest) (identities : Str)
      → Speaks lib node_authorizer caller icr identities
      → requested_identities lib node_authorizer caller (impersonated lib icr) ≡ ok identities
  unfolding requested_identities
  requested_identities_complete caller icr identities (as_itself itself e) =
      ground (arith, list_beq_iff (impersonated lib icr) [])
  requested_identities_complete caller icr identities (as_other na given other e m) = rw given (
      ground (
        arith,
        list_beq_iff (impersonated lib icr) [],
        may_impersonate_complete lib na caller (impersonated lib icr) m,
      ))

  module _ {Context E : Type 0} (authenticators : List (Authenticator Context E)) (ctx : Context)
      (icr : SigningRequest) where
    check_request_sound :
        {identities : Str}
        → check_request lib node_authorizer authenticators ctx icr ≡ ok identities
        → IsAuthorized lib node_authorizer authenticators ctx icr identities
    unfolding check_request
    check_request_sound {identities} e = elim (Option-cases (authenticate authenticators ctx)) [
      | inl nobody ↦ ground arith
      | inr (caller, somebody) ↦
          elim (Result-cases
            (requested_identities lib node_authorizer caller (impersonated lib icr))) [
              | inr (x, refused) ↦ ground arith
              | inl (ids, given) ↦ elim (Option-cases (lib.parse_pem_encoded_csr icr.csr)) [
                | inl bad ↦ ground arith
                | inr (csr, parsed) ↦
                    let same : ids ≡ identities = ground arith in
                    let (no_extra, permitted) =
                      (validate_csr_extensions_iff lib.aggregation csr
                          (lib.parsed_bytes icr.csr parsed)).0
                        (ground arith) in
                    record {
                      caller = caller;
                      authenticated = authenticate_sound authenticators ctx somebody;
                      identified = ground arith;
                      speaks = requested_identities_sound caller icr (given ∙ ap ok same);
                      acceptable = record {
                        csr = csr;
                        parsed = parsed;
                        signed = ground arith;
                        no_dns_names = ground arith;
                        no_ip_addresses = ground arith;
                        no_common_name = ground arith;
                        no_email_addresses = ground arith;
                        no_extra_extensions = no_extra;
                        permitted = permitted;
                        names =
                            (identities_match_iff
                                (expected_identities caller (impersonated lib icr)) csr.uris).0
                              (ground arith);
                      };
                    }
              ]
            ]
    ]

    check_request_complete :
        (identities : Str)
        → IsAuthorized lib node_authorizer authenticators ctx icr identities
        → check_request lib node_authorizer authenticators ctx icr ≡ ok identities
    unfolding check_request
    check_request_complete identities a =
        let valid : validate_csr_extensions lib.aggregation a.acceptable.csr ≡ none =
          (validate_csr_extensions_iff lib.aggregation a.acceptable.csr
              (lib.parsed_bytes icr.csr a.acceptable.parsed)).1
            (a.acceptable.no_extra_extensions, a.acceptable.permitted) in
        ground (
          arith,
          authenticate_complete a.authenticated,
          requested_identities_complete a.caller icr identities a.speaks,
          valid,
          (identities_match_iff (expected_identities a.caller (impersonated lib icr))
                a.acceptable.csr.uris).1
              a.acceptable.names,
        )

-- A request is answered with identities and true exactly when it is authorized for them: the first
-- authenticator that knows the caller gives it some identity; the request asks for no other
-- identity, or for one that a configured node authorizer lets the caller have; its CSR parses, is
-- signed by its key, sets no name but URIs and no extension but permitted ones, and its URIs are
-- exactly the caller's identities, or the one asked for.
pub auth_request_iff :
    {Context E : Type 0} (lib : Libraries) (node_authorizer : Option ClusterNodeAuthorizer)
    (authenticators : List (Authenticator Context E)) (ctx : Context) (icr : SigningRequest)
    (identities : Str)
    → (auth_request lib node_authorizer authenticators ctx icr ≡ (identities, true))
      ↔ IsAuthorized lib node_authorizer authenticators ctx icr identities
unfolding auth_request
auth_request_iff lib node_authorizer authenticators ctx icr identities = (
  λ e. check_request_sound lib node_authorizer authenticators ctx icr (ground arith),
  λ a.
      ground
        (arith, check_request_complete lib node_authorizer authenticators ctx icr identities a),
)
