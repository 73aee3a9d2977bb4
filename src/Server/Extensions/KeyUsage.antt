-- ===== src/Server/Extensions/KeyUsage.antt =====
-- The key usages that validateKeyUsageExtension accepts.
use istio_csr.Base.{
  ℕ, zero, suc, ◌<◌, ◌≡◌, refl, ◌↔◌, ◌⊎◌, Bool, true, false, ◌&&◌, none, List, [], ◌∷◌, arith, All,
  nat_beq, list_beq, ltb, ◌||◌,
}
use istio_csr.Server.Extensions.{and_not, clear, clear_all, validate_key_usage_extension}

-- A test of every number below a bound, by evaluation.
module _ (test : ℕ → Bool) where
  passes_below : ℕ → Bool
  passes_below zero = true
  passes_below (suc bound) = passes_below bound && test bound

  passes_below-at : {x : ℕ} (bound : ℕ) → x < bound → passes_below bound ≡ true → test x ≡ true
  unfolding passes_below
  passes_below-at zero below h = absurd (omega (arith, below))
  passes_below-at {x} (suc bound) below h = ground (arith, passes_below-at {x = x} bound)

abbrev iff_bool : Bool → Bool → Bool
iff_bool true b = b
iff_bool false true = false
iff_bool false false = true

abbrev cleared : ℕ → ℕ → ℕ → Bool
cleared m n x = nat_beq (and_not (and_not x m) n) 0

is_plain_tag : passes_below (λ x. iff_bool (cleared 3 3 x) (ltb x 4)) 256 ≡ true
unfolding passes_below and_not
is_plain_tag = refl

is_plain_length :
    passes_below (λ x. iff_bool (cleared 2 2 x) (nat_beq x 0 || nat_beq x 2)) 256 ≡ true
unfolding passes_below and_not
is_plain_length = refl

is_plain_unused : passes_below (λ x. iff_bool (cleared 7 5 x) (ltb x 8)) 256 ≡ true
unfolding passes_below and_not
is_plain_unused = refl

is_plain_bits :
    passes_below
      (λ x.
        iff_bool (cleared 128 32 x) (nat_beq x 0 || nat_beq x 32 || nat_beq x 128 || nat_beq x 160))
      256
    ≡ true
unfolding passes_below and_not
is_plain_bits = refl

iff_bool_lem : (a b : Bool) → iff_bool a b ≡ true → (a ≡ true) ↔ (b ≡ true)
iff_bool_lem a b h = ground arith

-- Four bytes, each within the union of the two allowed encodings: of the usage bits, only
-- digitalSignature (128) and keyEncipherment (32).
abbrev pub IsAllowedKeyUsage : List ℕ → Type 0
IsAllowedKeyUsage (a ∷ b ∷ c ∷ d ∷ []) =
    (a < 4) × ((b ≡ 0) ⊎ (b ≡ 2)) × (c < 8) × ((d ≡ 0) ⊎ (d ≡ 32) ⊎ (d ≡ 128) ⊎ (d ≡ 160))
IsAllowedKeyUsage _ = ⊥

abbrev pub IsByte : ℕ → Type 0
IsByte x = x < 256

four_bytes :
    (a b c d : ℕ)
    → All IsByte (a ∷ b ∷ c ∷ d ∷ [])
    → ((cleared 3 3 a ≡ true)
        × (cleared 2 2 b ≡ true)
        × (cleared 7 5 c ≡ true)
        × (cleared 128 32 d ≡ true))
      ↔ IsAllowedKeyUsage (a ∷ b ∷ c ∷ d ∷ [])
four_bytes a b c d h = ground (
  arith,
  iff_bool_lem (cleared 3 3 a) (ltb a 4) (passes_below-at _ 256 h.0 is_plain_tag),
  iff_bool_lem (cleared 2 2 b) (nat_beq b 0 || nat_beq b 2)
      (passes_below-at _ 256 h.1.0 is_plain_length),
  iff_bool_lem (cleared 7 5 c) (ltb c 8) (passes_below-at _ 256 h.1.1.0 is_plain_unused),
  iff_bool_lem (cleared 128 32 d) (nat_beq d 0 || nat_beq d 32 || nat_beq d 128 || nat_beq d 160)
      (passes_below-at _ 256 h.1.1.1.0 is_plain_bits),
)

validate_iff_cleared :
    (a b c d : ℕ)
    → (validate_key_usage_extension (a ∷ b ∷ c ∷ d ∷ []) ≡ none) ↔ (
        (cleared 3 3 a ≡ true)
        × (cleared 2 2 b ≡ true)
        × (cleared 7 5 c ≡ true)
        × (cleared 128 32 d ≡ true))
unfolding validate_key_usage_extension clear_all clear list_beq
validate_iff_cleared a b c d = ground arith

-- On bytes, a key usage extension is accepted exactly when it has four bytes within the allowed
-- encodings, so no usage beyond digitalSignature and keyEncipherment gets through.
pub validate_key_usage_extension_iff :
    (value : List ℕ)
    → All IsByte value
    → (validate_key_usage_extension value ≡ none) ↔ IsAllowedKeyUsage value
unfolding validate_key_usage_extension
validate_key_usage_extension_iff [] h = ground arith
validate_key_usage_extension_iff (a ∷ []) h = ground arith
validate_key_usage_extension_iff (a ∷ b ∷ []) h = ground arith
validate_key_usage_extension_iff (a ∷ b ∷ c ∷ []) h = ground arith
validate_key_usage_extension_iff (a ∷ b ∷ c ∷ d ∷ []) h =
    let (to, from) = validate_iff_cleared a b c d in
    let (to', from') = four_bytes a b c d h in (λ e. to' (to e), λ i. from (from' i))
validate_key_usage_extension_iff (a ∷ b ∷ c ∷ d ∷ e ∷ value) h = ground arith
