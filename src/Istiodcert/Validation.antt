-- ===== src/Istiodcert/Validation.antt =====
-- pkg/istiodcert/options.go: the options of istiod's certificate, and their validation.
use istio_csr.Base.{
  Bool, not, ◌&&◌, Option, none, some, List, [], ◌∷◌, join, ◌==◌, list_eq, nat_eq, if◌then◌else◌,
}
use istio_csr.Base.Int64.{is_int, ℤ, pos, ltb_ℤ}
use istio_csr.Base.Text.{Str, bytes}
use istio_csr.Base.Dict.{Dict}

-- cert-manager's PrivateKeyAlgorithm; `unset` is the empty string.
pub data KeyAlgorithm : Type 0 where
  unset rsa ecdsa : KeyAlgorithm

pub record Options : Type 0 where
  pub enabled : Bool
  pub certificate_name : Str
  pub certificate_namespace : Str
  pub duration : ℤ
  pub renew_before : ℤ
  pub key_algorithm : Str
  pub key_size : ℤ
  pub cm_key_algorithm : KeyAlgorithm
  pub additional_dns_names : List Str
  pub additional_annotations : Dict Str
  pub istio_revisions : List Str
  pub max_concurrent_reconciles : ℤ

-- Go's strings.ToUpper, and the test of apimachinery's IsDNS1123Subdomain.
pub record Libraries : Type 0 where
  pub to_upper : Str → Str
  pub is_dns1123_subdomain : Str → Bool

pub data OptionError : Type 0 where
  no_reconciles renews_too_late rsa_key_too_small bad_ecdsa_size : OptionError
  invalid_key_algorithm bad_dns_name : Str → OptionError

abbrev pub min_rsa_key_size : ℤ
min_rsa_key_size = pos 2048

abbrev pub when : Bool → OptionError → Option OptionError
when b e = if b then some e else none

-- The switch on the algorithm: the options with the key's defaults, and the error.
unfoldable pub check_key : Options → Options × Option OptionError
check_key o =
    if o.key_algorithm == bytes "RSA"
    then (let size = if is_int o.key_size 0 then min_rsa_key_size else o.key_size in
        (
          record o { cm_key_algorithm = rsa; key_size = size },
          when (ltb_ℤ size min_rsa_key_size) rsa_key_too_small,
        ))
    else if o.key_algorithm == bytes "ECDSA"
    then (let size = if is_int o.key_size 0 then pos 256 else o.key_size in
        (
          record o { cm_key_algorithm = ecdsa; key_size = size },
          when (not (is_int size 256) && not (is_int size 384)) bad_ecdsa_size,
        ))
    else (o, some (invalid_key_algorithm o.key_algorithm))

module _ (lib : Libraries) where
  unfoldable pub check_names : List Str → List (Option OptionError)
  check_names [] = []
  check_names (name ∷ names) =
      when (not (lib.is_dns1123_subdomain name)) (bad_dns_name name) ∷ check_names names

  -- Validate: the options afterwards, and the joined errors.
  unfoldable pub validate : Options → Options × Option (List OptionError)
  validate o =
      let (o', key_error) = check_key (record o { key_algorithm = lib.to_upper o.key_algorithm }) in
      let errs =
        when (ltb_ℤ o.max_concurrent_reconciles (pos 1)) no_reconciles
        ∷ when (not (ltb_ℤ o.renew_before o.duration)) renews_too_late
        ∷ key_error
        ∷ check_names o.additional_dns_names in
      if not o.enabled then (o, none) else (o', join errs)
