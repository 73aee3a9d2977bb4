-- ===== src/Server/Serving/Examples.antt =====
-- Runs of Start, and a server that takes client certificates.
use istio_csr.Base.{◌≡◌, refl, true, false, none, some, List, [], ◌∷◌, ok, Subsequence}
use istio_csr.Base.Int64.{pos}
use istio_csr.Base.Text.{Str, bytes}
use istio_csr.Server.NodeAuth.{PodClient}
use istio_csr.Server.NodeAuth.Trusted.{node_authorizer}
use istio_csr.Server.Cluster.{cluster, node_proxy, workload_pod}
use istio_csr.Server.Requests.{proxy_info}
use istio_csr.Server.Examples.{workload}
use istio_csr.Server.Auth.{Caller, authenticate}
use istio_csr.Server.Serving.{
  Options, Istio, Server, new, fresh, Event, context_ended, configured, registered, listened,
  marked, entered, cleared, stopped, step, run, check,
}
use istio_csr.Server.Serving.Readiness.{run-check, run-cleared, run-marked_late}
use istio_csr.Server.Serving.Callers.{Knows, new-authenticate_iff}

abbrev pub serving_run : List Event
serving_run = configured true ∷ registered true ∷ listened true ∷ marked ∷ entered ∷ []

ready_run : check (run fresh serving_run) ≡ true
unfolding run step
ready_run = refl

run-check_example :
    Subsequence (configured true ∷ registered true ∷ listened true ∷ marked ∷ []) serving_run
run-check_example = run-check serving_run ready_run

abbrev ending : List Event
ending = configured true ∷ registered true ∷ listened true ∷ marked ∷ context_ended ∷ []

run-cleared_example : check (run (step (run fresh ending) cleared) (entered ∷ stopped ∷ [])) ≡ false
unfolding run step
run-cleared_example = run-cleared (run fresh ending) (entered ∷ stopped ∷ []) refl refl refl

-- The context ends, and the goroutine clears ready, before Start sets it.
abbrev overtaken : List Event
overtaken =
    configured true ∷ registered true ∷ listened true ∷ context_ended ∷ cleared ∷ stopped ∷ []

run-marked_late_example : check (run (step (run fresh overtaken) marked) (entered ∷ [])) ≡ true
unfolding run step
run-marked_late_example = run-marked_late (run fresh overtaken) (entered ∷ []) refl refl

abbrev pub client : PodClient
client = cluster (node_proxy ∷ workload_pod ∷ [])

-- A workload of the mesh.
abbrev pub caller : Caller
caller = record { identities = workload ∷ []; kubernetes_info = proxy_info }

-- Every client certificate and every token is that of the workload.
abbrev pub istio : Istio (Unit {0}) Str
istio = record {
  new_client = λ cluster_id. some client;
  client_cert_authenticator = λ ctx. ok caller;
  new_kube_jwt_authenticator = λ trust_domain pods cluster_id ctx. ok caller;
}

abbrev options : Options
options = record {
  cluster_id = bytes "Kubernetes";
  serving_address = bytes "0.0.0.0:6443";
  maximum_client_certificate_duration = pos 3_600_000_000_000;
  authenticators = record { enable_client_cert = true };
  ca_trusted_node_accounts = [];
}

abbrev server : Server (Unit {0}) Str
server = record {
  opts = options;
  authenticators =
      istio.client_cert_authenticator
      ∷ istio.new_kube_jwt_authenticator (bytes "td") client (bytes "Kubernetes")
      ∷ [];
  node_authorizer = none;
  ready = false;
}

new_run : new istio (bytes "td") options ≡ some server
unfolding new node_authorizer bytes
new_run = refl

caller_run : authenticate server.authenticators tt ≡ some caller
unfolding authenticate
caller_run = refl

new-authenticate_iff_example : Knows istio (bytes "td") options client tt caller
new-authenticate_iff_example =
    (new-authenticate_iff istio (bytes "td") options client server tt caller refl new_run).0
      caller_run
