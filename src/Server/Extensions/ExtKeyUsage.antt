-- ===== src/Server/Extensions/ExtKeyUsage.antt =====
-- The extended key usages that validateExtendedKeyUsageExtension accepts.
use istio_csr.Base.{
  ℕ, zero, suc, ◌≤◌, ◌≡◌, refl, ◌↔◌, ◌⊎◌, inl, inr, true, none, some, List, [], ◌∷◌, arith, length,
  Option-cases, list_eq, nat_eq, list_beq_iff, All, IsNil,
}
use istio_csr.Asn1
use istio_csr.Asn1.{
  Oid, RawValue, unmarshal_raw, unmarshal_oid, unmarshal_oids, oids, class_universal, tag_sequence,
  ◌>>=◌,
}
use istio_csr.Asn1.Shrink.{unmarshal_oid_shrinks}
use istio_csr.Server.Csr.{Extension}
use istio_csr.Server.Extensions.{
  Aggregation, oid_extension_extended_key_usage, oid_ext_key_usage_client_auth,
  oid_ext_key_usage_server_auth, forbidden_usages, validate_extended_key_usage_extension,
}

-- `bs` is the DER of the object identifiers `os`, one after another.
pub data Encodes : List Oid → List ℕ → Type 0 where
  done : Encodes [] []
  more :
      {bs rest : List ℕ} {o : Oid} {os : List Oid}
      → unmarshal_oid bs ≡ some (o, rest)
      → Encodes os rest
      → Encodes (o ∷ os) bs

pub oids_sound : (fuel : ℕ) (bs : List ℕ) {os : List Oid} → oids fuel bs ≡ some os → Encodes os bs
unfolding oids
oids_sound zero [] {os = []} e = done
oids_sound zero [] {os = o ∷ os} e = cc
oids_sound zero (b ∷ bs) e = cc
oids_sound (suc fuel) [] {os = []} e = done
oids_sound (suc fuel) [] {os = o ∷ os} e = cc
oids_sound (suc fuel) (b ∷ bs) {os = []} e = ground arith
oids_sound (suc fuel) (b ∷ bs) {os = o ∷ os} e = elim (Option-cases (unmarshal_oid (b ∷ bs))) [
  | inl bad ↦ ground arith
  | inr ((o', rest), good) ↦ elim (Option-cases (oids fuel rest)) [
    | inl bad ↦ ground arith
    | inr (os', tail) ↦ more {rest = rest} (ground arith) (oids_sound fuel rest (ground arith))
  ]
]

oids_complete :
    (fuel : ℕ) (bs : List ℕ) {os : List Oid}
    → Encodes os bs
    → length bs ≤ fuel
    → oids fuel bs ≡ some os
unfolding oids
oids_complete zero [] done h = refl
oids_complete (suc fuel) [] done h = refl
oids_complete fuel [] (more e r) h = absurd (omega (arith, unmarshal_oid_shrinks [] e))
oids_complete zero (b ∷ bs) (more e r) h = absurd (omega arith)
oids_complete (suc fuel) (b ∷ bs) (more {rest} e r) h =
    ground (arith, oids_complete fuel rest r, unmarshal_oid_shrinks (b ∷ bs) e)

-- One SEQUENCE of object identifiers, each clientAuth or serverAuth. What follows the sequence
-- is free.
pub record IsAllowedExtKeyUsage (value : List ℕ) : Type 0 where
  pub sequence : RawValue
  pub rest : List ℕ
  pub parsed : unmarshal_raw value ≡ some (sequence, rest)
  pub compound : Asn1.is_sequence sequence ≡ true
  pub usages : List Oid
  pub encoded : Encodes usages sequence.content
  pub allowed :
      All (λ u. (u ≡ oid_ext_key_usage_client_auth) ⊎ (u ≡ oid_ext_key_usage_server_auth)) usages

forbidden_usages_iff :
    (us : List Oid)
    → All IsNil (forbidden_usages us)
      ↔ All (λ u. (u ≡ oid_ext_key_usage_client_auth) ⊎ (u ≡ oid_ext_key_usage_server_auth)) us
unfolding forbidden_usages
forbidden_usages_iff [] = ground arith
forbidden_usages_iff (u ∷ us) = ground (
  arith,
  forbidden_usages_iff us,
  list_beq_iff u oid_ext_key_usage_client_auth,
  list_beq_iff u oid_ext_key_usage_server_auth,
)

unmarshal_oids_sound :
    (value : List ℕ) {us : List Oid}
    → unmarshal_oids value ≡ some us
    → (v : RawValue) × (rest : List ℕ) × (unmarshal_raw value ≡ some (v, rest))
      × (Asn1.is_sequence v ≡ true)
      × Encodes us v.content
unfolding unmarshal_oids
unmarshal_oids_sound value e = elim (Option-cases (unmarshal_raw value)) [
  | inl bad ↦ ground arith
  | inr ((v, rest), good) ↦
      (v, rest, good, ground arith, oids_sound (length v.content) v.content (ground arith))
]

module _ (agg : Aggregation) where
  validate_eku_sound :
      (ext : Extension)
      → validate_extended_key_usage_extension agg ext ≡ none
      → (ext.id ≡ oid_extension_extended_key_usage) × IsAllowedExtKeyUsage ext.value
  unfolding validate_extended_key_usage_extension
  validate_eku_sound ext e = elim (Option-cases (unmarshal_oids ext.value)) [
    | inl bad ↦ ground arith
    | inr (us, good) ↦
        let (v, rest, parsed, seq, enc) = unmarshal_oids_sound ext.value good in
        (
          ground (arith, list_beq_iff ext.id oid_extension_extended_key_usage),
          record {
            sequence = v;
            rest = rest;
            parsed = parsed;
            compound = seq;
            usages = us;
            encoded = enc;
            allowed = (forbidden_usages_iff us).0 ((agg.new_aggregate_nil_iff _).0 (ground arith));
          },
        )
  ]

  -- An extended key usage extension is accepted exactly when its value begins with one DER
  -- sequence of object identifiers that are all clientAuth or serverAuth.
  pub validate_extended_key_usage_extension_iff :
      (ext : Extension)
      → (validate_extended_key_usage_extension agg ext ≡ none)
        ↔ ((ext.id ≡ oid_extension_extended_key_usage) × IsAllowedExtKeyUsage ext.value)
  unfolding validate_extended_key_usage_extension unmarshal_oids
  validate_extended_key_usage_extension_iff ext = (
    validate_eku_sound ext,
    λ (same, a). ground (
      arith,
      list_beq_iff ext.id oid_extension_extended_key_usage,
      oids_complete (length a.sequence.content) a.sequence.content a.encoded,
      (agg.new_aggregate_nil_iff (forbidden_usages a.usages)).1
          ((forbidden_usages_iff a.usages).1 a.allowed),
    ),
  )
