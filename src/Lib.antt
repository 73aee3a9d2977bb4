-- ===== src/Lib.antt =====
-- cert-manager/istio-csr: an agent that has cert-manager sign the certificates of an Istio mesh.
--
-- The parts, and the files that model them:
-- - pkg/server/auth.go, authRequest and identitiesMatch: Server/Auth.antt (check_request,
--   auth_request) and Server/Identities.antt. An early return is an error of a result type that carries
--   the identities known so far.
-- - pkg/server/node_auth.go, and the trusted accounts of New in pkg/server/server.go:
--   Server/NodeAuth.antt, Server/NodeAuth/Trusted.antt. The pods of the cluster are a list with the
--   client's Get and Lookup as functions that keep their laws.
-- - pkg/server/internal/extensions/extensions.go: Server/Extensions.antt, over Asn1.antt, which models
--   what it calls of Go's encoding/asn1.
-- - pkg/server/server.go, CreateCertificate and parseCertificateBundle: Server/Certificate.antt. The
--   calls of the signer are part of the result.
-- - pkg/certmanager/certmanager.go: Certmanager.antt (state, New), Certmanager/Request.antt (Sign and
--   waitForCertificateRequest, with the calls of the API as a list), Certmanager/Runtime.antt (the
--   runtime configuration watcher, over the events that it meets), Certmanager/Subscriptions.antt (the
--   subscriptions, with the goroutines that were started as values that are run later),
--   Certmanager/Waiting.antt (WaitForIssuerConfig, with the events that are handled meanwhile).
-- - pkg/controller/configmap.go: Controller.antt (Reconcile and the event handlers), and
--   Controller/Cluster.antt with an API server that answers every call.
-- - pkg/tls/rootca/rootca.go: Rootca.antt. pkg/tls/curves.go: Curves.antt. pkg/tls/tls.go: Tls.antt
--   (the provider, NewProvider, Config, RootCAs), Tls/Fetch.antt (fetchCertificate, loadCAsRoot, and
--   the events of the provider as a step function), Tls/Start.antt (Start and mustFetchCertificate,
--   over what their loops meet).
-- - pkg/istiodcert/options.go: Istiodcert/Validation.antt, its AddFlags in Options/FlagSets.antt.
--   pkg/istiodcert/worker.go: Istiodcert/Worker.antt.
-- - pkg/server/server.go, New, Start and Check: Server/Serving.antt. Start and the goroutine that ends
--   the server are one state, of which each event is a step of one of them.
-- - cmd/app/options/options.go: Options.antt (Complete), Options/Flags.antt (flags
--   and their variables, with pflag as a parameter), Options/FlagSets.antt (the flags),
--   Options/Prepared.antt (New, Prepare).
-- - cmd/app/app.go: App.antt (RunE of NewCommand, the readiness checks) and App/Answered.antt (the
--   server with the manager as its signer and the provider for its roots).
--
-- The server authorizes a request (Server.Auth, with Server.NodeAuth and Server.Extensions), asks
-- the signer of Certmanager, and verifies the bundle against the roots of Tls. Tls asks the same
-- signer for its own certificate, and takes the roots from its bundle or from the file that Rootca
-- watches. The controller of Controller writes those roots to each namespace. Certmanager tells
-- Istiodcert of a change of the issuer; Certmanager/Subscriptions/First.antt follows its
-- subscription through whatever else the manager meets, also while WaitForIssuerConfig has one of
-- its own (Certmanager/Subscriptions/Waits.antt). App completes the options, builds these
-- components and adds them to a manager of controller-runtime, which is a parameter.
--
-- Conventions. Numbers are native; Go's int64 is an integer with its wrap-around written out
-- (Base/Int64.antt). A string is the list of its bytes, in Curves.antt of its runes, which
-- NewProvider decodes from UTF-8 (Base/Utf8.antt). A map is an association list of which the first
-- entry of a key counts. A pointer that may be nil is an option. Go's channels, tickers and
-- contexts appear as lists of what a loop meets, in that order; a lock makes one step of what it
-- guards.
--
-- Fuel: only the loops of Asn1.antt and Server/Extensions.antt over general names and object
-- identifiers have fuel, the number of the bytes left. Each turn reads a byte at least
-- (Asn1/Shrink.antt), so it is enough (Server/Extensions/Loops.antt); the other theorems on extensions
-- do not mention it. The loops of goroutines run over the lists of what they meet.
--
-- Not modelled: logging and metrics; how controller-runtime queues and retries, and its leader
-- election; the intervals of the backoff of the TLS provider; the usage texts of the command; the
-- fakes, the end-to-end tests, the chart and the build files. cert-manager, istio, Kubernetes,
-- controller-runtime, pflag, gRPC, crypto/x509, crypto/tls, fsnotify and the tables of unicode are
-- parameters.
mod Base
pub mod Asn1
pub mod Certmanager
pub mod Controller
pub mod Rootca
pub mod Istiodcert
pub mod Tls
pub mod Curves
pub mod Server
pub mod Options
pub mod App
