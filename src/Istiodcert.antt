-- ===== src/Istiodcert.antt =====
-- pkg/istiodcert: the provisioner of istiod's serving certificate, in step with the issuer that is
-- active.
pub mod Validation
pub mod Validity
pub mod Worker
pub mod Names
pub mod Issuer
pub mod Provisioned
pub mod Examples
