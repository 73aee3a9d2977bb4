-- ===== src/Server/Serving.antt =====
-- pkg/server/server.go: the options, New, Start with the goroutine that ends it, and Check.
pub mod Readiness
pub mod Examples
pub mod Callers
use istio_csr.Base.{
  ℕ, Bool, true, false, not, ◌&&◌, ◌||◌, Option, none, some, List, [], ◌∷◌, ◌++◌, if◌then◌else◌,
}
use istio_csr.Base.Int64.{ℤ}
use istio_csr.Base.Text.{Str}
use istio_csr.Server.Auth.{Authenticator}
use istio_csr.Server.NodeAuth.{PodClient, ClusterNodeAuthorizer}
use istio_csr.Server.NodeAuth.Trusted.{node_authorizer}

pub record AuthenticatorOptions : Type 0 where
  pub enable_client_cert : Bool

pub record Options : Type 0 where
  pub cluster_id : Str
  pub serving_address : Str
  pub maximum_client_certificate_duration : ℤ
  pub authenticators : AuthenticatorOptions
  pub ca_trusted_node_accounts : List Str

-- What New takes from istio: the client for a cluster, none for an error, and the authenticators,
-- that of Kubernetes' tokens for a trust domain, a client and a cluster.
pub record Istio (Context A : Type 0) : Type 0 where
  pub new_client : Str → Option PodClient
  pub client_cert_authenticator : Authenticator Context A
  pub new_kube_jwt_authenticator : Str → PodClient → Str → Authenticator Context A

pub record Server (Context A : Type 0) : Type 0 where
  pub opts : Options
  pub authenticators : List (Authenticator Context A)
  pub node_authorizer : Option ClusterNodeAuthorizer
  pub ready : Bool

module _ {Context A : Type 0} (istio : Istio Context A) where
  -- New, from the trust domain of the TLS provider; none where the client cannot be built.
  unfoldable pub new : Str → Options → Option (Server Context A)
  new trust_domain opts = elim (istio.new_client opts.cluster_id) [
    | none ↦ none
    | some client ↦
        let enabled : List (Authenticator Context A) =
          if opts.authenticators.enable_client_cert
          then istio.client_cert_authenticator ∷ []
          else [] in
        some (record {
          opts = opts;
          authenticators =
              enabled ++ istio.new_kube_jwt_authenticator trust_domain client opts.cluster_id ∷ [];
          node_authorizer = node_authorizer client opts.ca_trusted_node_accounts;
          ready = false;
        })
  ]

-- NeedLeaderElection.
abbrev pub need_leader_election : Bool
need_leader_election = false

pub data StartError : Type 0 where
  no_config not_registered not_listening : StartError
  serve_failed : Str → StartError

-- Where Start is: it waits for the TLS configuration, registers the metrics, listens, sets ready,
-- calls Serve, is in Serve, or has returned.
pub data Main : Type 0 where
  configuring registering listening marking entering serving : Main
  returned : Option StartError → Main

-- Where the goroutine is: not started, waiting for the end of the context, stopping the gRPC server
-- with ready cleared, or ended.
pub data Stopper : Type 0 where
  absent waiting stopping ended : Stopper

-- A run of Start: `ready` is the field that Check reads, `cancelled` says that the context ended.
pub record Running : Type 0 where
  pub ready : Bool
  pub cancelled : Bool
  pub main : Main
  pub stopper : Stopper

abbrev pub fresh : Running
fresh = record { ready = false; cancelled = false; main = configuring; stopper = absent }

-- What can happen next. The test of an outcome is true for no error; what Serve returns is gRPC's.
pub data Event : Type 0 where
  context_ended : Event
  configured registered listened : Bool → Event
  marked entered : Event
  serve_returned : Option Str → Event
  cleared stopped : Event

abbrev pub serve_result : Option Str → Option StartError
serve_result none = none
serve_result (some e) = some (serve_failed e)

-- A step of Start: its statement, with the outcome that the event carries.
unfoldable pub main_step : Running → Main → Event → Running
main_step s configuring (configured good) = record s {
  main = if good then registering else returned (some no_config);
}
main_step s registering (registered good) = record s {
  main = if good then listening else returned (some not_registered);
}
main_step s listening (listened good) =
    if good
    then record s { main = marking; stopper = waiting }
    else record s { main = returned (some not_listening) }
main_step s marking marked = record s { main = entering; ready = true }
main_step s entering entered = record s { main = serving }
main_step s serving (serve_returned e) = record s { main = returned (serve_result e) }
main_step s main event = s

-- A step of the goroutine: once the context has ended it clears ready under the lock, and then
-- stops the gRPC server.
unfoldable pub stopper_step : Running → Stopper → Event → Running
stopper_step s waiting cleared =
    if s.cancelled then record s { stopper = stopping; ready = false } else s
stopper_step s stopping stopped = record s { stopper = ended }
stopper_step s stopper event = s

-- One event; an event that is not possible changes nothing.
unfoldable pub step : Running → Event → Running
unfolding main_step stopper_step
step s context_ended = record s { cancelled = true }
step s cleared = stopper_step s s.stopper cleared
step s stopped = stopper_step s s.stopper stopped
step s event = main_step s s.main event

unfoldable pub run : Running → List Event → Running
run s [] = s
run s (e ∷ es) = run (step s e) es

-- Check; true for no error.
abbrev pub check : Running → Bool
check s = s.ready
