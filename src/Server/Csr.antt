-- ===== src/Server/Csr.antt =====
-- The parts of crypto/x509's CertificateRequest and of crypto/x509/pkix's Extension that
-- pkg/server reads. A URI is kept as what its `String` method gives, the only use of it.
use istio_csr.Base.{ℕ, List}
use istio_csr.Base.Text.{Str}
use istio_csr.Asn1.{Oid}

pub record Extension : Type 0 where
  pub id : Oid
  pub value : List ℕ

pub record Url : Type 0 where
  pub text : Str

-- `url.String()`.
abbrev pub string : Url → Str
string u = u.text

pub record CertificateRequest : Type 0 where
  pub common_name : Str
  pub dns_names : List Str
  pub email_addresses : List Str
  pub ip_addresses : List (List ℕ)
  pub uris : List Url
  pub extensions : List Extension
  pub extra_extensions : List Extension
