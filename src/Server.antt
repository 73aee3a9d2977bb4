-- ===== src/Server.antt =====
-- pkg/server: the certificate service that workloads call.
pub mod Csr
pub mod Extensions
pub mod Identities
pub mod NodeAuth
pub mod Serving
pub mod Auth
pub mod Certificate
pub mod Examples
pub mod Cluster
pub mod Requests
pub mod Answers
