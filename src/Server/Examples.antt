-- ===== src/Server/Examples.antt =====
-- Runs of the certificate service, and its theorems at concrete requests.
use mathlib.Core.List.{Perm}
use istio_csr.Base.{
  ◌≡◌, ◌≢◌, length, refl, ◌↔◌, true, Option, none, some, List, [], ◌∷◌, map, arith, All, IsNil,
  list_beq,
}
use istio_csr.Base.Text.{Str, bytes, less}
use istio_csr.Base.Sort.{insert_by, sort_by, sort_strings}
use istio_csr.Asn1.{Oid, parser, oids}
use istio_csr.Server.Csr.{Extension, Url, string, CertificateRequest}
use istio_csr.Server.Extensions.{
  Failure, out_of_fuel, Aggregation, oid_extension_key_usage, oid_extension_extended_key_usage,
  and_not, clear, clear_all, validate_key_usage_extension, forbidden_usages,
  validate_extended_key_usage_extension, check_names, validate_subject_alt_name_extension,
  validate_extension, validate_csr_extensions,
}
use istio_csr.Server.Extensions.ExtKeyUsage.{Encodes}
use istio_csr.Server.Extensions.San.{san_of}
use istio_csr.Server.Extensions.Loops.{Stops, check_names-oids_terminate}
use istio_csr.Server.Extensions.Permitted.{IsPermitted, validate_csr_extensions_iff}
use istio_csr.Server.Identities.{all_match, identities_match, identities_match_iff}

-- An aggregate that keeps the first error.
unfoldable pub first_failure : List (Option Failure) → Option Failure
first_failure [] = none
first_failure (none ∷ es) = first_failure es
first_failure (some e ∷ es) = some e

pub first_failure-IsNil_iff :
    (es : List (Option Failure)) → (first_failure es ≡ none) ↔ All IsNil es
unfolding first_failure
first_failure-IsNil_iff [] = (λ _. tt, λ _. refl)
first_failure-IsNil_iff (none ∷ es) = ground (arith, first_failure-IsNil_iff es)
first_failure-IsNil_iff (some e ∷ es) = ground arith

abbrev pub first_of_all : Aggregation
first_of_all = record {
  new_aggregate = first_failure;
  new_aggregate_nil_iff = first_failure-IsNil_iff;
}

abbrev pub workload : Str
workload = bytes "spiffe://td/ns/foo/sa/bar"

abbrev pub uri_san : Extension
uri_san = san_of 134 workload

-- digitalSignature and keyEncipherment, and clientAuth.
abbrev pub key_usages : Extension
key_usages = record { id = oid_extension_key_usage; value = 3 ∷ 2 ∷ 5 ∷ 160 ∷ [] }

abbrev pub client_auth : Extension
client_auth = record {
  id = oid_extension_extended_key_usage;
  value = 48 ∷ 10 ∷ 6 ∷ 8 ∷ 43 ∷ 6 ∷ 1 ∷ 5 ∷ 5 ∷ 7 ∷ 3 ∷ 2 ∷ [];
}

abbrev pub sample_csr : CertificateRequest
sample_csr = record {
  common_name = [];
  dns_names = [];
  email_addresses = [];
  ip_addresses = [];
  uris = record { text = workload } ∷ [];
  extensions = uri_san ∷ key_usages ∷ client_auth ∷ [];
  extra_extensions = [];
}

-- What a run of the validation unfolds.
unfoldable pub validation : Unit {0}
unfolding bytes list_beq parser and_not clear clear_all validate_key_usage_extension
    forbidden_usages validate_extended_key_usage_extension check_names
    validate_subject_alt_name_extension validate_extension validate_csr_extensions first_failure
validation = tt

sample_valid : validate_csr_extensions first_of_all sample_csr ≡ none
unfolding validation
sample_valid = refl

validate_csr_extensions_iff_example :
    (sample_csr.extra_extensions ≡ []) × All IsPermitted sample_csr.extensions
unfolding bytes
validate_csr_extensions_iff_example =
    (validate_csr_extensions_iff first_of_all sample_csr (omega arith)).0 sample_valid

key_usages_valid : validate_key_usage_extension key_usages.value ≡ none
unfolding validation
key_usages_valid = refl

uri_san_valid : validate_subject_alt_name_extension uri_san ≡ none
unfolding validation
uri_san_valid = refl

client_auth_valid : validate_extended_key_usage_extension first_of_all client_auth ≡ none
unfolding validation
client_auth_valid = refl

abbrev two_urls : List Url
two_urls = record { text = bytes "b" } ∷ record { text = bytes "a" } ∷ []

two_urls_match : identities_match (bytes "a" ∷ bytes "b" ∷ []) two_urls ≡ true
unfolding identities_match all_match sort_strings sort_by insert_by less bytes list_beq
two_urls_match = refl

identities_match_iff_example : Perm (bytes "a" ∷ bytes "b" ∷ []) (map string two_urls)
identities_match_iff_example = (identities_match_iff _ two_urls).0 two_urls_match

check_names-oids_terminate_example :
    (check_names 100 uri_san.value ≡ check_names (length uri_san.value) uri_san.value)
    × (check_names 100 uri_san.value ≢ some out_of_fuel)
    × (oids 100 uri_san.value ≡ oids (length uri_san.value) uri_san.value)
    × ((os : List Oid) → oids 100 uri_san.value ≡ some os → Encodes os uri_san.value)
    × (oids 100 uri_san.value ≡ none → Stops uri_san.value)
unfolding bytes
check_names-oids_terminate_example = check_names-oids_terminate 100 uri_san.value (omega arith)
