-- ===== src/Curves/Denoted.antt =====
-- Which curves a list of names stands for.
use istio_csr.Base.{
  ℕ, ◌≤◌, ◌≡◌, ◌≢◌, refl, sym, subst, ◌⊎◌, ◌↔◌, inl, inr, true, false, List, [], ◌∷◌, arith, All,
  ok, ◌==◌, list_eq, nat_eq, list_beq, list_beq_iff, Bool-cases, Result-cases,
}
use istio_csr.Base.Text.{Str, bytes}
use istio_csr.Curves.{
  Runes, x25519, curve_p256, curve_p384, curve_p521, trim_space, all_digits, is_all_decimal, one_of,
  parse_curve_id, parse_curve_preferences,
}
use istio_csr.Curves.Decimal.{IsDigit, decimal, parse_uint_sound, parse_uint_complete}

-- The aliases of the named curves.
pub data Alias : ℕ → List ℕ → Type 0 where
  x25519_name : Alias x25519 (bytes "X25519")
  curve_p256_name : Alias curve_p256 (bytes "CurveP256")
  p_256_name : Alias curve_p256 (bytes "P-256")
  p256_name : Alias curve_p256 (bytes "P256")
  curve_p384_name : Alias curve_p384 (bytes "CurveP384")
  p_384_name : Alias curve_p384 (bytes "P-384")
  p384_name : Alias curve_p384 (bytes "P384")
  curve_p521_name : Alias curve_p521 (bytes "CurveP521")
  p_521_name : Alias curve_p521 (bytes "P-521")
  p521_name : Alias curve_p521 (bytes "P521")

-- A name without spaces stands for a curve: by one of the names, or by its number in decimal, which
-- fits 16 bits.
pub data Denotes (id : ℕ) (name : List ℕ) : Type 0 where
  by_name : Alias id name → Denotes id name
  by_number : name ≢ [] → All IsDigit name → id ≡ decimal name → id ≤ 65535 → Denotes id name

module _ (runes : Runes) where
  digits_all : (s : List ℕ) → All IsDigit s → all_digits runes s ≡ true
  unfolding all_digits
  digits_all [] a = refl
  digits_all (c ∷ s) (d, a) = ground (arith, runes.ascii_digit c (omega (arith, d)), digits_all s a)

  aliased :
      {i id : ℕ} {n name : List ℕ}
      → Alias i n
      → (name == n) ≡ true
      → parse_curve_id runes name ≡ ok id
      → parse_curve_id runes name ≡ ok i
      → Denotes id name
  aliased {i} {id} {n} {name} a e h g = by_name (
      subst (λ k. Alias k name) (ground arith)
        (subst (Alias i) (sym ((list_beq_iff name n).0 e)) a))

  group_cases :
      (name : List ℕ) (a b c : Str)
      → one_of runes name (a ∷ b ∷ c ∷ []) ≡ true
      → ((name == a) ≡ true) ⊎ (((name == b) ≡ true) ⊎ ((name == c) ≡ true))
  group_cases name a b c e = ground arith

  named_sound :
      (name : List ℕ) {id : ℕ}
      → is_all_decimal runes name ≡ false
      → parse_curve_id runes name ≡ ok id
      → Denotes id name
  unfolding parse_curve_id
  named_sound name {id} e h = elim (Bool-cases (name == bytes "X25519")) [
    | inl x ↦ aliased x25519_name x h (ground arith)
    | inr x ↦
        elim (Bool-cases
          (one_of runes name (bytes "CurveP256" ∷ bytes "P-256" ∷ bytes "P256" ∷ []))) [
            | inl g ↦ elim (group_cases name (bytes "CurveP256") (bytes "P-256") (bytes "P256") g) [
              | inl y ↦ aliased curve_p256_name y h (ground arith)
              | inr (inl y) ↦ aliased p_256_name y h (ground arith)
              | inr (inr y) ↦ aliased p256_name y h (ground arith)
            ]
            | inr g ↦
                elim (Bool-cases
                  (one_of runes name (bytes "CurveP384" ∷ bytes "P-384" ∷ bytes "P384" ∷ []))) [
                    | inl g' ↦
                        elim (group_cases name (bytes "CurveP384") (bytes "P-384") (bytes "P384")
                          g') [
                            | inl y ↦ aliased curve_p384_name y h (ground arith)
                            | inr (inl y) ↦ aliased p_384_name y h (ground arith)
                            | inr (inr y) ↦ aliased p384_name y h (ground arith)
                          ]
                    | inr g' ↦
                        elim (Bool-cases (
                          one_of runes name
                            (bytes "CurveP521" ∷ bytes "P-521" ∷ bytes "P521" ∷ []))) [
                              | inl g'' ↦
                                  elim (group_cases name (bytes "CurveP521") (bytes "P-521")
                                    (bytes "P521") g'') [
                                      | inl y ↦ aliased curve_p521_name y h (ground arith)
                                      | inr (inl y) ↦ aliased p_521_name y h (ground arith)
                                      | inr (inr y) ↦ aliased p521_name y h (ground arith)
                                    ]
                              | inr g'' ↦ ground arith
                            ]
                  ]
          ]
  ]

  parse_curve_id_sound :
      (name : List ℕ) {id : ℕ} → parse_curve_id runes name ≡ ok id → Denotes id name
  unfolding parse_curve_id
  parse_curve_id_sound name {id} h = elim (Bool-cases (is_all_decimal runes name)) [
    | inr other ↦ named_sound name other h
    | inl number ↦
        let (digits, value, bound) =
          parse_uint_sound 0 name {u = id} (omega arith) (ground arith) in
        by_number (λ e. ground arith) digits (omega (arith, value)) bound
  ]

  number_complete :
      (name : List ℕ)
      → name ≢ []
      → All IsDigit name
      → decimal name ≤ 65535
      → parse_curve_id runes name ≡ ok (decimal name)
  unfolding parse_curve_id
  number_complete name filled digits bound =
      ground
        (arith, digits_all name digits, parse_uint_complete 0 name digits (omega (arith, bound)))

  -- No alias begins with a digit.
  Alias-complete : {id : ℕ} {name : List ℕ} → Alias id name → parse_curve_id runes name ≡ ok id
  unfolding parse_curve_id all_digits bytes list_beq
  Alias-complete x25519_name = rw (runes.ascii_digit b'X' (omega arith)) refl
  Alias-complete curve_p256_name = rw (runes.ascii_digit b'C' (omega arith)) refl
  Alias-complete p_256_name = rw (runes.ascii_digit b'P' (omega arith)) refl
  Alias-complete p256_name = rw (runes.ascii_digit b'P' (omega arith)) refl
  Alias-complete curve_p384_name = rw (runes.ascii_digit b'C' (omega arith)) refl
  Alias-complete p_384_name = rw (runes.ascii_digit b'P' (omega arith)) refl
  Alias-complete p384_name = rw (runes.ascii_digit b'P' (omega arith)) refl
  Alias-complete curve_p521_name = rw (runes.ascii_digit b'C' (omega arith)) refl
  Alias-complete p_521_name = rw (runes.ascii_digit b'P' (omega arith)) refl
  Alias-complete p521_name = rw (runes.ascii_digit b'P' (omega arith)) refl

  parse_curve_id_complete :
      {id : ℕ} {name : List ℕ} → Denotes id name → parse_curve_id runes name ≡ ok id
  parse_curve_id_complete (by_name a) = Alias-complete a
  parse_curve_id_complete {id} {name} (by_number filled digits e bound) =
      ground (arith, number_complete name filled digits (omega (arith, e, bound)), e)

  -- Each name without the spaces around it stands for the curve at its place.
  pub data Denote : List (List ℕ) → List ℕ → Type 0 where
    none_left : Denote [] []
    one_more :
        {raw : List ℕ} {names : List (List ℕ)} {id : ℕ} {ids : List ℕ}
        → trim_space runes raw ≢ []
        → Denotes id (trim_space runes raw)
        → Denote names ids
        → Denote (raw ∷ names) (id ∷ ids)

  preferences_sound :
      (names : List (List ℕ)) (ids : List ℕ)
      → parse_curve_preferences runes names ≡ ok ids
      → Denote names ids
  unfolding parse_curve_preferences
  preferences_sound [] [] e = none_left
  preferences_sound [] (i ∷ ids) e = cc
  preferences_sound (raw ∷ names) ids e =
      elim (Result-cases (parse_curve_id runes (trim_space runes raw))) [
        | inr (x, bad) ↦ ground arith
        | inl (i, good) ↦ elim (Result-cases (parse_curve_preferences runes names)) [
          | inr (x, bad) ↦ ground arith
          | inl (is, rest) ↦ subst (Denote (raw ∷ names)) (ground arith) (
              one_more (ground arith) (parse_curve_id_sound (trim_space runes raw) good)
                (preferences_sound names is rest))
        ]
      ]

  preferences_complete :
      {names : List (List ℕ)} {ids : List ℕ}
      → Denote names ids
      → parse_curve_preferences runes names ≡ ok ids
  unfolding parse_curve_preferences
  preferences_complete none_left = refl
  preferences_complete (one_more filled d ds) =
      ground (arith, parse_curve_id_complete d, preferences_complete ds)

-- The curve preferences are accepted exactly when each entry, without the spaces around it, is one
-- of the ten names or a decimal number that fits 16 bits, and they are then those curves in the
-- order given.
pub parse_curve_preferences_iff :
    (runes : Runes) (names : List (List ℕ)) (ids : List ℕ)
    → (parse_curve_preferences runes names ≡ ok ids) ↔ Denote runes names ids
parse_curve_preferences_iff runes names ids =
    (preferences_sound runes names ids, preferences_complete runes)
