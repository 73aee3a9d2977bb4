-- ===== src/Certmanager/Examples.antt =====
-- Runs of the manager, and its theorems at concrete options, events and requests.
use mathlib.Core.List.{Memᴰ}
use istio_csr.Base.{
  ℕ, ◌≡◌, refl, inl, ◌⊎◌, true, false, none, some, List, [], ◌∷◌, ◌++◌, ok, list_beq, list_eq,
  nat_eq,
}
use istio_csr.Base.Int64.{pos}
use istio_csr.Base.Text.{Str, bytes}
use istio_csr.Base.Dict.{Dict, lookup}
use istio_csr.Certmanager.{
  IssuerReference, Options, Manager, has_runtime_configuration, handle_original_issuer_ref, new,
  started,
}
use istio_csr.Certmanager.Subscriptions.{is_member, notify_issuer_change, deliver, panicked}
use istio_csr.Certmanager.Subscriptions.Recipients.{started_by, notify_issuer_change-panics}
use istio_csr.Certmanager.Runtime.{
  config_map, modified, deleted, bookmark, Event, event, channel_closed, watch_made, watch_failed,
  watch_loop, restarting, start,
}
use istio_csr.Certmanager.Runtime.Active.{Configures, Inv, start-new-Inv}
use istio_csr.Certmanager.Runtime.Loop.{by_modified, IsQuiet, other_type, after_events}
use istio_csr.Certmanager.Runtime.Restarts.{start-Decides}
use istio_csr.Certmanager.Request.{
  identity_annotation, CertificateRequest, certificate_request, Api, decide_request, receive,
  wait_for_certificate_request, sign,
}
use istio_csr.Certmanager.Request.Granted.{IsSigned, IsPending, Brings, decide_request-receive_iff}
use istio_csr.Certmanager.Request.Effects.{Calls, IsIssued, sign-Calls, sign-IsIssued}

abbrev pub options : Options
options = record {
  preserve_certificate_requests = false;
  namespace = bytes "istio-system";
  default_issuer_enabled = false;
  issuer_ref = record { name = []; kind = []; group = [] };
  issuance_config_map_name = bytes "issuer";
  issuance_config_map_namespace = bytes "istio-system";
  additional_annotations = (identity_annotation, bytes "x") ∷ [];
}

abbrev manager : Manager
manager = started options none

new_run : new true true options ≡ ok manager
unfolding new handle_original_issuer_ref has_runtime_configuration bytes
new_run = refl

abbrev pub issuer : IssuerReference
issuer = record { name = bytes "ca"; kind = bytes "Issuer"; group = bytes "cert-manager.io" }

abbrev pub data_of_issuer : Dict Str
data_of_issuer =
    (bytes "issuer-name", bytes "ca")
    ∷ (bytes "issuer-kind", bytes "Issuer")
    ∷ (bytes "issuer-group", bytes "cert-manager.io")
    ∷ []

abbrev pub setting : Event
setting = record { type = modified; object = config_map data_of_issuer }

abbrev pub deleting : Event
deleting = record { type = deleted; object = config_map data_of_issuer }

abbrev marking : Event
marking = record { type = bookmark; object = config_map [] }

start-new-Inv_example :
    Inv (start manager (watch_failed ∷ watch_made (event setting ∷ channel_closed ∷ []) ∷ [])).0
start-new-Inv_example =
    start-new-Inv true true options manager
      (watch_failed ∷ watch_made (event setting ∷ channel_closed ∷ []) ∷ []) new_run

pub configures : Configures data_of_issuer issuer
unfolding lookup bytes list_beq
configures = record {
  name = refl;
  kind = refl;
  group = refl;
  complete = record { name = λ e. cc; kind = λ e. cc; group = λ e. cc };
}

marking_idle : IsQuiet (event marking ∷ channel_closed ∷ [])
marking_idle = (other_type (λ e. cc) (λ e. cc) (λ e. cc), tt)

earlier_run :
    (start manager (watch_failed ∷ watch_made (event deleting ∷ channel_closed ∷ []) ∷ [])).1
    ≡ restarting
unfolding start watch_loop
earlier_run = refl

-- The ConfigMap is set, the watch closes, and no later watch brings an event that decides.
start-Decides_example :
    (start manager (
      (watch_failed ∷ watch_made (event deleting ∷ channel_closed ∷ []) ∷ [])
      ++ watch_made
          (after_events (deleting ∷ []) (event setting ∷ event marking ∷ channel_closed ∷ []))
        ∷ watch_failed
        ∷ watch_made (event marking ∷ channel_closed ∷ [])
        ∷ [])).0.active_issuer_ref
    ≡ some issuer
start-Decides_example =
    start-Decides manager (watch_failed ∷ watch_made (event deleting ∷ channel_closed ∷ []) ∷ [])
      (deleting ∷ []) setting (event marking ∷ channel_closed ∷ [])
      (watch_failed ∷ watch_made (event marking ∷ channel_closed ∷ []) ∷ []) (some issuer)
      earlier_run (by_modified refl (data_of_issuer, refl, configures) refl) marking_idle
      (tt, (marking_idle, tt))

-- The first of two subscriptions is closed.
abbrev subscribed : List ℕ → Manager
subscribed closed = record manager {
  issuer_change_subscriptions = 0 ∷ 1 ∷ [];
  next_subscription = 2;
  closed = closed;
}

notify_issuer_change-panics_example :
    Memᴰ (record { index = 1; issuer_ref = none }) (started_by (subscribed (0 ∷ [])) none)
    × (deliver
          (notify_issuer_change (subscribed (0 ∷ [])) none)
          (record { index = 1; issuer_ref = none })
        ≡ panicked)
unfolding is_member
notify_issuer_change-panics_example =
    notify_issuer_change-panics (subscribed (0 ∷ [])) none (0 ∷ []) 1 refl (inl refl) refl

abbrev pub unsigned : CertificateRequest
unsigned = record {
  namespace = bytes "istio-system";
  name = bytes "istio-csr-1";
  conditions = [];
  certificate = [];
  ca = [];
}

abbrev pub signed : CertificateRequest
signed = record unsigned { certificate = bytes "pem" }

-- The request is read before it is signed, and the watch then brings the signed one.
abbrev pub api : Api
api = record {
  create = λ r. ok unsigned;
  watch = λ name. ok (record { is_deleted = false; object = certificate_request signed } ∷ []);
  get = λ name. ok unsigned;
  certificate_request_is_denied = λ cr. false;
  certificate_request_has_condition = λ cr c. false;
}

decide_run :
    decide_request api unsigned
      (receive api (record { is_deleted = false; object = certificate_request signed } ∷ []))
    ≡ ok signed
unfolding decide_request receive bytes
decide_run = refl

decide_request-receive_iff_example :
    (IsSigned api unsigned × (unsigned ≡ signed))
    ⊎ (IsPending api unsigned
        × Brings api signed
            (record { is_deleted = false; object = certificate_request signed } ∷ []))
decide_request-receive_iff_example = (decide_request-receive_iff api unsigned signed _).0 decide_run

abbrev pub active : Manager
active = started options (some issuer)

-- What a run of Sign unfolds.
unfoldable pub signing : Unit {0}
unfolding sign wait_for_certificate_request decide_request receive bytes
signing = tt

sign_run :
    (sign api active (bytes "spiffe://td/ns/foo/sa/bar") [] (pos 60) []).0
    ≡ ok (record { certificate = bytes "pem"; ca = [] })
unfolding signing
sign_run = refl

sign-IsIssued_example :
    IsIssued api active
      (bytes "spiffe://td/ns/foo/sa/bar")
      []
      (pos 60)
      []
      (record { certificate = bytes "pem"; ca = [] })
sign-IsIssued_example =
    sign-IsIssued api active (bytes "spiffe://td/ns/foo/sa/bar") [] (pos 60) [] _ sign_run

sign-Calls_example :
    Calls api active (bytes "a") [] (pos 60) [] (sign api active (bytes "a") [] (pos 60) []).1
sign-Calls_example = sign-Calls api active (bytes "a") [] (pos 60) []
