-- ===== src/Server/Extensions.antt =====
-- pkg/server/internal/extensions/extensions.go: which X.509 extensions a signing request may carry.
pub mod Loops
pub mod KeyUsage
pub mod San
pub mod ExtKeyUsage
pub mod Permitted
use Prim.Native.Nat.{bit_and}
use istio_csr.Base.{
  ℕ, zero, suc, ◌-◌, ◌≡◌, ◌↔◌, Bool, true, false, not, ◌&&◌, ◌||◌, Option, none, some, List, [],
  ◌∷◌, map, ◌++◌, All, IsNil, nat_beq, length, is_empty, if◌then◌else◌, ◌==◌, list_eq, nat_eq,
}
use istio_csr.Asn1.{Oid, RawValue, unmarshal_raw, unmarshal_oids, is_sequence}
use istio_csr.Server.Csr.{Extension, CertificateRequest}

abbrev pub asn1_tag_uri : ℕ
asn1_tag_uri = 6

abbrev pub oid_extension_key_usage : Oid
oid_extension_key_usage = 2 ∷ 5 ∷ 29 ∷ 15 ∷ []

abbrev pub oid_extension_extended_key_usage : Oid
oid_extension_extended_key_usage = 2 ∷ 5 ∷ 29 ∷ 37 ∷ []

abbrev pub oid_extension_subject_alt_name : Oid
oid_extension_subject_alt_name = 2 ∷ 5 ∷ 29 ∷ 17 ∷ []

abbrev pub oid_ext_key_usage_server_auth : Oid
oid_ext_key_usage_server_auth = 1 ∷ 3 ∷ 6 ∷ 1 ∷ 5 ∷ 5 ∷ 7 ∷ 3 ∷ 1 ∷ []

abbrev pub oid_ext_key_usage_client_auth : Oid
oid_ext_key_usage_client_auth = 1 ∷ 3 ∷ 6 ∷ 1 ∷ 5 ∷ 5 ∷ 7 ∷ 3 ∷ 2 ∷ []

-- digitalSignature and keyEncipherment, each as the DER of its BIT STRING.
abbrev pub allowed_key_usages : List (List ℕ)
allowed_key_usages = (3 ∷ 2 ∷ 7 ∷ 128 ∷ []) ∷ (3 ∷ 2 ∷ 5 ∷ 32 ∷ []) ∷ []

-- The errors, one constructor for each `fmt.Errorf`. `out_of_fuel` is of the model alone.
pub data Failure : Type 0 where
  forbidden_extensions : List Extension → Failure
  forbidden_extension : Oid → Failure
  forbidden_key_usage : List ℕ → Failure
  non_extended_key_usage : Oid → Failure
  bad_extended_key_usages : Failure
  forbidden_extended_key_usage : Oid → Failure
  not_a_san : Oid → Failure
  bad_san : Failure
  san_incorrectly_encoded : List ℕ → Failure
  bad_general_name : Failure
  non_uri_san : List ℕ → Failure
  out_of_fuel : Failure
  aggregate : Failure

-- k8s.io/apimachinery's `NewAggregate`: nil when every error given to it is nil, and only then.
pub record Aggregation : Type 0 where
  pub new_aggregate : List (Option Failure) → Option Failure
  pub new_aggregate_nil_iff :
      (es : List (Option Failure)) → (new_aggregate es ≡ none) ↔ All IsNil es

-- `x &^ m` on bytes.
unfoldable pub and_not : ℕ → ℕ → ℕ
and_not x m = x - bit_and x m

-- `for i, b := range usage { extValue[i] &^= b }`; both have four bytes.
unfoldable pub clear : List ℕ → List ℕ → List ℕ
clear (x ∷ xs) (b ∷ usage) = and_not x b ∷ clear xs usage
clear xs _ = xs

unfoldable pub clear_all : List (List ℕ) → List ℕ → List ℕ
clear_all [] ext_value = ext_value
clear_all (usage ∷ usages) ext_value = clear_all usages (clear ext_value usage)

unfoldable pub validate_key_usage_extension : List ℕ → Option Failure
validate_key_usage_extension value =
    if not (length value == 4)
    then some (forbidden_key_usage value)
    else if not (clear_all allowed_key_usages value == (0 ∷ 0 ∷ 0 ∷ 0 ∷ []))
    then some (forbidden_key_usage value)
    else none

-- The errors of the loop over the parsed usages.
unfoldable pub forbidden_usages : List Oid → List (Option Failure)
forbidden_usages [] = []
forbidden_usages (usage ∷ usages) =
    let rest = forbidden_usages usages in
    if not (usage == oid_ext_key_usage_client_auth) && not (usage == oid_ext_key_usage_server_auth)
    then some (forbidden_extended_key_usage usage) ∷ rest
    else rest

unfoldable pub validate_extended_key_usage_extension : Aggregation → Extension → Option Failure
validate_extended_key_usage_extension agg extension =
    if not (extension.id == oid_extension_extended_key_usage)
    then some (non_extended_key_usage extension.id)
    else elim (unmarshal_oids extension.value) [
      | none ↦ some bad_extended_key_usages
      | some usages ↦ agg.new_aggregate (forbidden_usages usages)
    ]

-- The loop over the general names, by fuel.
unfoldable pub check_names : ℕ → List ℕ → Option Failure
check_names fuel [] = none
check_names zero (b ∷ bytes) = some out_of_fuel
check_names (suc fuel) (b ∷ bytes) = elim (unmarshal_raw (b ∷ bytes)) [
  | none ↦ some bad_general_name
  | some (raw_value, rest) ↦
      let next = check_names fuel rest in
      if not (nat_beq raw_value.tag asn1_tag_uri)
      then some (non_uri_san raw_value.content)
      else next
]

unfoldable pub validate_subject_alt_name_extension : Extension → Option Failure
validate_subject_alt_name_extension ext =
    if not (ext.id == oid_extension_subject_alt_name)
    then some (not_a_san ext.id)
    else elim (unmarshal_raw ext.value) [
      | none ↦ some bad_san
      | some (sequence, rest) ↦
          if not (is_empty rest) || not (is_sequence sequence)
          then some (san_incorrectly_encoded ext.value)
          else check_names (length sequence.content) sequence.content
    ]

-- One turn of the loop over the extensions.
unfoldable pub validate_extension : Aggregation → Extension → Option Failure
validate_extension agg extension =
    if extension.id == oid_extension_subject_alt_name
    then validate_subject_alt_name_extension extension
    else if extension.id == oid_extension_key_usage
    then validate_key_usage_extension extension.value
    else if extension.id == oid_extension_extended_key_usage
    then validate_extended_key_usage_extension agg extension
    else some (forbidden_extension extension.id)

unfoldable pub validate_csr_extensions : Aggregation → CertificateRequest → Option Failure
validate_csr_extensions agg csr =
    let el = map (validate_extension agg) csr.extensions in
    agg.new_aggregate (
      if is_empty csr.extra_extensions then el else some (forbidden_extensions csr.extensions) ∷ el)
