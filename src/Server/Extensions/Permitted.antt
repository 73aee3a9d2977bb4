-- ===== src/Server/Extensions/Permitted.antt =====
-- Which signing requests pass ValidateCSRExtentions.
use istio_csr.Base.{
  ◌==◌, ◌≡◌, ◌↔◌, inl, inr, none, some, List, [], map, ◌∷◌, arith, Bool-cases, ==_iff, list_eq,
  nat_eq, list_beq_iff, All, IsNil,
}
use istio_csr.Server.Csr.{Extension, CertificateRequest}
use istio_csr.Server.Extensions.{
  Aggregation, oid_extension_key_usage, oid_extension_extended_key_usage,
  oid_extension_subject_alt_name, validate_extension, validate_csr_extensions, forbidden_extensions,
}
use istio_csr.Server.Extensions.KeyUsage.{
  IsAllowedKeyUsage, IsByte, validate_key_usage_extension_iff,
}
use istio_csr.Server.Extensions.San.{IsUriSan, validate_subject_alt_name_extension_iff}
use istio_csr.Server.Extensions.ExtKeyUsage.{
  IsAllowedExtKeyUsage, validate_extended_key_usage_extension_iff,
}

-- What an extension may be: URI names, allowed key usages or allowed extended key usages.
pub data IsPermitted (ext : Extension) : Type 0 where
  san : ext.id ≡ oid_extension_subject_alt_name → IsUriSan ext.value → IsPermitted ext
  key_usage : ext.id ≡ oid_extension_key_usage → IsAllowedKeyUsage ext.value → IsPermitted ext
  ext_key_usage :
      ext.id ≡ oid_extension_extended_key_usage → IsAllowedExtKeyUsage ext.value → IsPermitted ext

abbrev pub HasBytes : Extension → Type 0
HasBytes ext = All IsByte ext.value

module _ (agg : Aggregation) where
  validate_extension_sound :
      (ext : Extension) → HasBytes ext → validate_extension agg ext ≡ none → IsPermitted ext
  unfolding validate_extension
  validate_extension_sound ext h e = elim (Bool-cases (ext.id == oid_extension_subject_alt_name)) [
    | inl is_san ↦
        san ((==_iff _ _).0 is_san)
          ((validate_subject_alt_name_extension_iff ext).0 (ground arith)).1
    | inr not_san ↦ elim (Bool-cases (ext.id == oid_extension_key_usage)) [
      | inl is_ku ↦
          key_usage ((==_iff _ _).0 is_ku)
            ((validate_key_usage_extension_iff ext.value h).0 (ground arith))
      | inr not_ku ↦ elim (Bool-cases (ext.id == oid_extension_extended_key_usage)) [
        | inl is_eku ↦
            ext_key_usage ((==_iff _ _).0 is_eku)
              ((validate_extended_key_usage_extension_iff agg ext).0 (ground arith)).1
        | inr not_eku ↦ ground arith
      ]
    ]
  ]

  validate_extension_complete :
      (ext : Extension) → HasBytes ext → IsPermitted ext → validate_extension agg ext ≡ none
  unfolding validate_extension
  validate_extension_complete ext h (san e v) = ground (
    arith,
    list_beq_iff ext.id oid_extension_subject_alt_name,
    (validate_subject_alt_name_extension_iff ext).1 (e, v),
  )
  validate_extension_complete ext h (key_usage e v) = ground (
    arith,
    list_beq_iff ext.id oid_extension_subject_alt_name,
    list_beq_iff ext.id oid_extension_key_usage,
    (validate_key_usage_extension_iff ext.value h).1 v,
  )
  validate_extension_complete ext h (ext_key_usage e v) = ground (
    arith,
    list_beq_iff ext.id oid_extension_subject_alt_name,
    list_beq_iff ext.id oid_extension_key_usage,
    list_beq_iff ext.id oid_extension_extended_key_usage,
    (validate_extended_key_usage_extension_iff agg ext).1 (e, v),
  )

  map-validate_extension_iff :
      (exts : List Extension)
      → All HasBytes exts
      → All IsNil (map (validate_extension agg) exts) ↔ All IsPermitted exts
  map-validate_extension_iff [] h = (λ _. tt, λ _. tt)
  map-validate_extension_iff (ext ∷ exts) h =
      let (to, from) = map-validate_extension_iff exts h.1 in
      (
        λ p. (validate_extension_sound ext h.0 p.0, to p.1),
        λ p. (validate_extension_complete ext h.0 p.0, from p.1),
      )

  -- On byte values, a request passes exactly when it has no extra extensions and each of its
  -- extensions holds only URI names, or only allowed key usages, or only allowed extended key
  -- usages.
  pub validate_csr_extensions_iff :
      (csr : CertificateRequest)
      → All HasBytes csr.extensions
      → (validate_csr_extensions agg csr ≡ none)
        ↔ ((csr.extra_extensions ≡ []) × All IsPermitted csr.extensions)
  unfolding validate_csr_extensions
  validate_csr_extensions_iff csr h = ground (
    arith,
    map-validate_extension_iff csr.extensions h,
    agg.new_aggregate_nil_iff (map (validate_extension agg) csr.extensions),
    agg.new_aggregate_nil_iff
        (some (forbidden_extensions csr.extensions) ∷ map (validate_extension agg) csr.extensions),
  )
