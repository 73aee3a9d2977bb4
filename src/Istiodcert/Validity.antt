-- ===== src/Istiodcert/Validity.antt =====
-- When the options of istiod's certificate are valid.
use istio_csr.Base.{
  ◌≡◌, ◌≢◌, sym, subst, ◌↔◌, ◌⊎◌, inl, inr, true, false, not, ◌&&◌, none, List, [], ◌∷◌, arith, All,
  present, ◌==◌, list_eq, nat_eq, list_beq_iff, Bool-cases, if◌then◌else◌,
}
use istio_csr.Base.Int64.{is_int, is_int_iff, ℤ, pos, negsuc, ◌≤ℤ◌, ◌<ℤ◌, ltb_ℤ}
use istio_csr.Base.Text.{Str, bytes}
use istio_csr.Istiodcert.Validation.{
  rsa, ecdsa, Options, Libraries, rsa_key_too_small, bad_ecdsa_size, min_rsa_key_size, when,
  check_key, check_names, validate,
}

module _ (lib : Libraries) where
  -- The key that the options ask for can be made: RSA with 2048 bits at least, or ECDSA on P-256 or
  -- P-384; 0 stands for the default.
  pub data HasKey (o : Options) : Type 0 where
    rsa_key :
        lib.to_upper o.key_algorithm ≡ bytes "RSA"
        → (o.key_size ≡ pos 0) ⊎ (min_rsa_key_size ≤ℤ o.key_size)
        → HasKey o
    ecdsa_key :
        lib.to_upper o.key_algorithm ≡ bytes "ECDSA"
        → (o.key_size ≡ pos 0) ⊎ ((o.key_size ≡ pos 256) ⊎ (o.key_size ≡ pos 384))
        → HasKey o

  pub record IsValid (o : Options) : Type 0 where
    pub reconciles : pos 1 ≤ℤ o.max_concurrent_reconciles
    pub renews : o.renew_before <ℤ o.duration
    pub key : HasKey o
    pub names : All (λ n. lib.is_dns1123_subdomain n ≡ true) o.additional_dns_names

  abbrev upper : Options → Options
  upper o = record o { key_algorithm = lib.to_upper o.key_algorithm }

  rsa_not_ecdsa : bytes "RSA" ≢ bytes "ECDSA"
  unfolding bytes
  rsa_not_ecdsa e = cc

  check_key_sound : (o : Options) → (check_key (upper o)).1 ≡ none → HasKey o
  unfolding check_key
  check_key_sound o e = elim (Bool-cases (lib.to_upper o.key_algorithm == bytes "RSA")) [
    | inl is_rsa ↦
        rsa_key ((list_beq_iff (lib.to_upper o.key_algorithm) (bytes "RSA")).0 is_rsa)
          (rsa_size o.key_size (ground arith))
    | inr not_rsa ↦ elim (Bool-cases (lib.to_upper o.key_algorithm == bytes "ECDSA")) [
      | inl is_ecdsa ↦
          ecdsa_key ((list_beq_iff (lib.to_upper o.key_algorithm) (bytes "ECDSA")).0 is_ecdsa)
            (ecdsa_size o.key_size (ground arith))
      | inr not_ecdsa ↦ ground arith
    ]
  ]
    where
      rsa_size :
          (n : ℤ)
          → when
              (ltb_ℤ (if is_int n 0 then min_rsa_key_size else n) min_rsa_key_size)
              rsa_key_too_small
            ≡ none
          → (n ≡ pos 0) ⊎ (min_rsa_key_size ≤ℤ n)
      rsa_size (pos n) h = ground arith
      rsa_size (negsuc n) h = ground arith

      ecdsa_size :
          (n : ℤ)
          → when
              (not (is_int (if is_int n 0 then pos 256 else n) 256)
                && not (is_int (if is_int n 0 then pos 256 else n) 384))
              bad_ecdsa_size
            ≡ none
          → (n ≡ pos 0) ⊎ ((n ≡ pos 256) ⊎ (n ≡ pos 384))
      ecdsa_size (pos n) h = ground arith
      ecdsa_size (negsuc n) h = ground arith

  check_key_complete : (o : Options) → HasKey o → (check_key (upper o)).1 ≡ none
  unfolding check_key
  check_key_complete o (rsa_key e size) = ground (
    arith,
    (list_beq_iff (lib.to_upper o.key_algorithm) (bytes "RSA")).1 e,
    is_int_iff o.key_size 0,
  )
  check_key_complete o (ecdsa_key e size) = ground (
    arith,
    (list_beq_iff (lib.to_upper o.key_algorithm) (bytes "ECDSA")).1 e,
    list_beq_iff (lib.to_upper o.key_algorithm) (bytes "RSA"),
    rsa_not_ecdsa,
    is_int_iff o.key_size 0,
    is_int_iff o.key_size 256,
    is_int_iff o.key_size 384,
  )

  check_names_iff :
      (names : List Str)
      → (present (check_names lib names) ≡ []) ↔ All (λ n. lib.is_dns1123_subdomain n ≡ true) names
  unfolding check_names
  check_names_iff [] = ground arith
  check_names_iff (n ∷ names) = ground (arith, check_names_iff names)

  validate_sound : (o : Options) → o.enabled ≡ true → (validate lib o).1 ≡ none → IsValid o
  unfolding validate
  validate_sound o on e = record {
    reconciles = ground arith;
    renews = ground arith;
    key = check_key_sound o (ground arith);
    names = (check_names_iff o.additional_dns_names).0 (ground arith);
  }

  validate_complete : (o : Options) → IsValid o → (validate lib o).1 ≡ none
  unfolding validate
  validate_complete o v = ground (
    arith,
    v.reconciles,
    v.renews,
    check_key_complete o v.key,
    (check_names_iff o.additional_dns_names).1 v.names,
  )

  -- The key that a Certificate is made with.
  pub data HasUsableKey (o : Options) : Type 0 where
    usable_rsa : o.cm_key_algorithm ≡ rsa → min_rsa_key_size ≤ℤ o.key_size → HasUsableKey o
    usable_ecdsa :
        o.cm_key_algorithm ≡ ecdsa
        → (o.key_size ≡ pos 256) ⊎ (o.key_size ≡ pos 384)
        → HasUsableKey o

  key_usable : (o : Options) → HasKey o → HasUsableKey (check_key (upper o)).0
  unfolding check_key
  key_usable o (rsa_key e size) =
      let is_rsa = (list_beq_iff (lib.to_upper o.key_algorithm) (bytes "RSA")).1 e in
      usable_rsa (ground (arith, is_rsa)) (ground (arith, is_rsa, is_int_iff o.key_size 0))
  key_usable o (ecdsa_key e size) =
      let is_ecdsa = (list_beq_iff (lib.to_upper o.key_algorithm) (bytes "ECDSA")).1 e in
      let not_rsa = list_beq_iff (lib.to_upper o.key_algorithm) (bytes "RSA") in
      usable_ecdsa (ground (arith, is_ecdsa, not_rsa, rsa_not_ecdsa))
        (ground (arith, is_ecdsa, not_rsa, rsa_not_ecdsa, is_int_iff o.key_size 0))

-- Validate finds no error exactly where the certificate is off, or there is a worker at least, the
-- renewal comes before the end of the duration, the key is RSA with 2048 bits at least or ECDSA on
-- P-256 or P-384, a size of 0 standing for the default, and each additional name is a DNS name.
pub validate_iff :
    (lib : Libraries) (o : Options)
    → ((validate lib o).1 ≡ none) ↔ ((o.enabled ≡ false) ⊎ IsValid lib o)
unfolding validate
validate_iff lib o = elim (Bool-cases o.enabled) [
  | inr off ↦ (λ e. inl off, λ h. ground (arith, off))
  | inl on ↦ (
    λ e. inr (validate_sound lib o on e),
    λ h. elim h [ inl off ↦ absurd (cc (on, off)) | inr v ↦ validate_complete lib o v ],
  )
]

-- Where an enabled certificate validates, the options afterwards name an algorithm, and with it an
-- RSA size of 2048 bits at least, or one of the two ECDSA sizes.
pub validate-HasUsableKey :
    (lib : Libraries) (o : Options)
    → o.enabled ≡ true
    → (validate lib o).1 ≡ none
    → HasUsableKey lib (validate lib o).0
unfolding validate
validate-HasUsableKey lib o on e =
    let checked : (validate lib o).0 ≡ (check_key (upper lib o)).0 = ground (arith, on) in
    subst (HasUsableKey lib) (sym checked) (key_usable lib o (validate_sound lib o on e).key)
