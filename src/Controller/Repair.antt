-- ===== src/Controller/Repair.antt =====
-- What the repair of a ConfigMap gives, and when it is needed.
use istio_csr.Base.{
  ◌≡◌, refl, ◌↔◌, inl, inr, Bool, true, false, none, some, [], ◌∷◌, arith, ◌==◌, list_eq, nat_eq,
  list_beq_iff, Bool-cases, Option-cases, if◌then◌else◌,
}
use istio_csr.Base.Text.{Str, bytes}
use istio_csr.Base.Dict.{Dict, lookup, lookup-insert}
use istio_csr.Controller.{
  ConfigMap, config_map_label_key, root_cert_key, made, has_unexpected_key, ensure, repair,
}

-- The ConfigMap's data is the roots and nothing else, and it has the label.
pub record IsCurrent (root_cas_pem : Str) (config_map : ConfigMap) : Type 0 where
  pub contents :
      (k : Str)
      → lookup k (made config_map.contents)
        ≡ (if root_cert_key == k then some root_cas_pem else none)
  pub label : lookup config_map_label_key (made config_map.labels) ≡ some (bytes "true")

expected_keys :
    (m : Dict Str)
    → has_unexpected_key m ≡ false
    → (k : Str) → (root_cert_key == k) ≡ false
    → lookup k m ≡ none
unfolding has_unexpected_key lookup
expected_keys [] h k other = refl
expected_keys ((j, v) ∷ m) h k other = ground (
  arith,
  list_beq_iff j root_cert_key,
  list_beq_iff j k,
  list_beq_iff root_cert_key k,
  expected_keys m (ground arith) k other,
)

no_unexpected_key :
    (m : Dict Str)
    → ((k : Str) → (root_cert_key == k) ≡ false → lookup k m ≡ none)
    → has_unexpected_key m ≡ false
unfolding has_unexpected_key lookup
no_unexpected_key [] h = refl
no_unexpected_key ((j, v) ∷ m) h = elim (Bool-cases (root_cert_key == j)) [
  | inr other ↦ ground (arith, h j other, list_beq_iff j j)
  | inl same ↦ ground (
    arith,
    list_beq_iff j root_cert_key,
    list_beq_iff root_cert_key j,
    no_unexpected_key m (λ k other. ground (
      arith,
      h k other,
      list_beq_iff j k,
      list_beq_iff root_cert_key j,
      list_beq_iff root_cert_key k,
    )),
  )
]

module _ (k expected : Str) (m : Dict Str) (b : Bool) where
  lookup-ensure :
      (j : Str)
      → lookup j (ensure k expected (m, b)).0 ≡ (if k == j then some expected else lookup j m)
  unfolding ensure
  lookup-ensure j = elim (Option-cases (lookup k m)) [
    | inl missing ↦ ground (arith, lookup-insert k j expected m)
    | inr (v, there) ↦
        ground (arith, lookup-insert k j expected m, list_beq_iff k j, list_beq_iff v expected)
  ]

  ensure-unneeded_iff :
      ((ensure k expected (m, b)).1 ≡ false) ↔ ((b ≡ false) × (lookup k m ≡ some expected))
  unfolding ensure
  ensure-unneeded_iff = elim (Option-cases (lookup k m)) [
    | inl missing ↦ ground arith
    | inr (v, there) ↦ ground (arith, list_beq_iff v expected)
  ]

-- The data and the flag after the unexpected keys are gone.
abbrev cleaned : Dict Str → Dict Str × Bool
cleaned m = if has_unexpected_key m then ([], true) else (m, false)

lookup-cleaned :
    (m : Dict Str) (k : Str) → (root_cert_key == k) ≡ false → lookup k (cleaned m).0 ≡ none
unfolding lookup
lookup-cleaned m k other = elim (Bool-cases (has_unexpected_key m)) [
  | inl bad ↦ ground arith
  | inr good ↦ ground (arith, expected_keys m good k other)
]

-- The repair of a ConfigMap, whatever it held, has the roots as its only data, and the label.
pub repair-IsCurrent : (pem : Str) (cm : ConfigMap) → IsCurrent pem (repair pem cm).0
unfolding repair
repair-IsCurrent pem cm = record {
  contents = λ k. ground (
    arith,
    lookup-ensure root_cert_key pem (cleaned (made cm.contents)).0 (cleaned (made cm.contents)).1 k,
    lookup-cleaned (made cm.contents) k,
  );
  label = ground (
    arith,
    lookup-ensure config_map_label_key (bytes "true") (made cm.labels)
        (ensure root_cert_key pem (cleaned (made cm.contents))).1 config_map_label_key,
    list_beq_iff config_map_label_key config_map_label_key,
  );
}

-- The repair leaves the ConfigMap's name and all its other labels as they are.
pub repair-keeps :
    (pem : Str) (cm : ConfigMap)
    → ((repair pem cm).0.namespace ≡ cm.namespace)
      × ((repair pem cm).0.name ≡ cm.name)
      × ((k : Str)
          → (config_map_label_key == k) ≡ false
          → lookup k (made (repair pem cm).0.labels) ≡ lookup k (made cm.labels))
unfolding repair
repair-keeps pem cm = (
  refl,
  refl,
  λ k other. ground (
    arith,
    lookup-ensure config_map_label_key (bytes "true") (made cm.labels)
        (ensure root_cert_key pem (cleaned (made cm.contents))).1 k,
  ),
)

-- An update is needed exactly when the ConfigMap is not current.
pub repair-unneeded_iff :
    (pem : Str) (cm : ConfigMap) → ((repair pem cm).1 ≡ false) ↔ IsCurrent pem cm
unfolding repair
repair-unneeded_iff pem cm =
    let (label_to, label_from) =
      ensure-unneeded_iff config_map_label_key (bytes "true") (made cm.labels)
        (ensure root_cert_key pem (cleaned (made cm.contents))).1 in
    let (data_to, data_from) =
      ensure-unneeded_iff root_cert_key pem (cleaned (made cm.contents)).0
        (cleaned (made cm.contents)).1 in
    (
      λ e.
          let (d, label) = label_to e in
          let (clean, there) = data_to d in
          let good : has_unexpected_key (made cm.contents) ≡ false = ground arith in
          record {
            contents = λ k. ground (
              arith,
              there,
              list_beq_iff root_cert_key k,
              expected_keys (made cm.contents) good k,
            );
            label = label;
          },
      λ c.
          let good : has_unexpected_key (made cm.contents) ≡ false =
            no_unexpected_key (made cm.contents) (λ k other. ground (arith, c.contents k)) in
          let there : lookup root_cert_key (made cm.contents) ≡ some pem =
            ground (arith, c.contents root_cert_key, list_beq_iff root_cert_key root_cert_key) in
          label_from (data_from (ground arith, ground arith), c.label),
    )
