-- ===== src/Server/Extensions/San.antt =====
-- The subject alternative names that validateSubjectAltNameExtension accepts.
use istio_csr.Base.{
  ℕ, zero, suc, ◌+◌, ◌*◌, ◌%◌, ◌≤◌, ◌<◌, ◌≡◌, refl, ◌↔◌, inl, inr, true, none, some, List, [], ◌∷◌,
  arith, length, Option-cases, list_eq, nat_eq, list_beq_iff,
}
use istio_csr.Asn1.{RawValue, unmarshal_raw, class_universal, tag_sequence}
use istio_csr.Asn1.Short.{element, unmarshal_raw_last}
use istio_csr.Asn1.Shrink.{unmarshal_raw_shrinks}
use istio_csr.Server.Csr.{Extension}
use istio_csr.Server.Extensions.{
  oid_extension_subject_alt_name, asn1_tag_uri, check_names, validate_subject_alt_name_extension,
}

-- Bytes that are DER elements one after another, each with the tag number of a URI.
pub data AllUris : List ℕ → Type 0 where
  done : AllUris []
  more :
      {bs rest : List ℕ} (v : RawValue)
      → unmarshal_raw bs ≡ some (v, rest)
      → v.tag ≡ asn1_tag_uri
      → AllUris rest
      → AllUris bs

check_names_sound : (fuel : ℕ) (bs : List ℕ) → check_names fuel bs ≡ none → AllUris bs
unfolding check_names
check_names_sound zero [] e = done
check_names_sound zero (b ∷ bs) e = cc
check_names_sound (suc fuel) [] e = done
check_names_sound (suc fuel) (b ∷ bs) e = elim (Option-cases (unmarshal_raw (b ∷ bs))) [
  | inl bad ↦ cc (rw (bad, check_names) at e)
  | inr ((v, rest), good) ↦ more v good (ground arith) (check_names_sound fuel rest (ground arith))
]

check_names_complete :
    (fuel : ℕ) {bs : List ℕ} → AllUris bs → length bs ≤ fuel → check_names fuel bs ≡ none
unfolding check_names
check_names_complete zero {bs = []} u h = refl
check_names_complete zero {bs = b ∷ bs} u h = absurd (omega arith)
check_names_complete (suc fuel) {bs = []} u h = refl
check_names_complete (suc fuel) {bs = b ∷ bs} (more {rest} v good t u) h =
    ground (arith, check_names_complete fuel {bs = rest} u, unmarshal_raw_shrinks (b ∷ bs) good)

-- The value of a subject alternative name extension: one SEQUENCE and nothing after it, whose
-- elements all have the tag number of a URI.
pub record IsUriSan (value : List ℕ) : Type 0 where
  pub sequence : RawValue
  pub parsed : unmarshal_raw value ≡ some (sequence, [])
  pub compound : sequence.is_compound ≡ true
  pub tag : sequence.tag ≡ tag_sequence
  pub class : sequence.class ≡ class_universal
  pub uris : AllUris sequence.content

validate_san_sound :
    (ext : Extension)
    → validate_subject_alt_name_extension ext ≡ none
    → (ext.id ≡ oid_extension_subject_alt_name) × IsUriSan ext.value
unfolding validate_subject_alt_name_extension
validate_san_sound ext e = elim (Option-cases (unmarshal_raw ext.value)) [
  | inl bad ↦ ground arith
  | inr ((v, []), good) ↦ (
    ground (arith, list_beq_iff ext.id oid_extension_subject_alt_name),
    record {
      sequence = v;
      parsed = good;
      compound = ground arith;
      tag = ground arith;
      class = ground arith;
      uris = check_names_sound (length v.content) v.content (ground arith);
    },
  )
  | inr ((v, b ∷ rest), good) ↦ ground arith
]

-- A subject alternative name extension is accepted exactly when its value is one DER sequence,
-- with nothing after it, of elements that all have the tag number of a URI: the loop ends on
-- every input.
pub validate_subject_alt_name_extension_iff :
    (ext : Extension)
    → (validate_subject_alt_name_extension ext ≡ none)
      ↔ ((ext.id ≡ oid_extension_subject_alt_name) × IsUriSan ext.value)
unfolding validate_subject_alt_name_extension
validate_subject_alt_name_extension_iff ext = (
  validate_san_sound ext,
  λ (same, san). ground (
    arith,
    list_beq_iff ext.id oid_extension_subject_alt_name,
    check_names_complete (length san.sequence.content) san.uris,
  ),
)

abbrev pub san_of : ℕ → List ℕ → Extension
san_of b body = record {
  id = oid_extension_subject_alt_name;
  value = 48 ∷ (length body + 2) ∷ b ∷ length body ∷ body;
}

one_name : (b : ℕ) (body : List ℕ) → b % 32 ≡ 6 → length body < 126 → IsUriSan (san_of b body).value
one_name b body hb hl =
    let two_more : length body + 2 ≡ suc (suc (length body)) = omega arith in
    record {
      sequence = element 48 (b ∷ length body ∷ body);
      parsed =
          rw two_more (unmarshal_raw_last 48 (b ∷ length body ∷ body) (omega arith) (omega arith));
      compound = refl;
      tag = refl;
      class = refl;
      uris = more (element b body) (unmarshal_raw_last b body (omega arith) (omega arith)) hb done;
    }

-- The class of a name is not read: for every class `c` and either form, an element with tag number
-- 6 (universal 6 is an OBJECT IDENTIFIER) passes for a URI, whatever its content.
pub san_class_unread :
    (c k : ℕ) (body : List ℕ)
    → c < 4
    → k < 2
    → length body < 126
    → validate_subject_alt_name_extension (san_of (c * 64 + k * 32 + 6) body) ≡ none
san_class_unread c k body hc hk hb =
    (validate_subject_alt_name_extension_iff _).1
      (refl, one_name (c * 64 + k * 32 + 6) body (omega arith) hb)
