-- ===== src/Curves.antt =====
-- pkg/tls/curves.go: the curve preferences. A name is here a list of runes.
pub mod Decimal
pub mod Denoted
pub mod Examples
use istio_csr.Base.{
  ℕ, zero, suc, ◌+◌, ◌-◌, ◌*◌, ◌≤◌, ◌<◌, ◌≡◌, refl, Bool, true, false, not, ◌&&◌, ◌||◌, Option,
  none, some, List, [], ◌∷◌, Result, ok, err, ◌>>=◌, ◌>>◌, ◌==◌, list_eq, nat_eq, is_empty, leb,
  ltb, if◌then◌else◌, or_fail, guard,
}
use istio_csr.Base.Text.{Str, bytes}

-- What the code takes from Go's unicode package and from crypto/tls.
pub record Runes : Type 0 where
  pub is_digit : ℕ → Bool
  pub is_space : ℕ → Bool
  -- unicode.IsDigit on ASCII: the digits 0 to 9
  pub ascii_digit : (r : ℕ) → r < 128 → is_digit r ≡ (leb b'0' r && leb r b'9')

pub data CurveError : Type 0 where
  empty_entry : CurveError
  invalid_curve_id unknown_curve : Str → CurveError

-- tls.X25519, CurveP256, CurveP384 and CurveP521.
abbrev pub x25519 : ℕ
x25519 = 29

abbrev pub curve_p256 : ℕ
curve_p256 = 23

abbrev pub curve_p384 : ℕ
curve_p384 = 24

abbrev pub curve_p521 : ℕ
curve_p521 = 25

abbrev pub is_ascii_digit : ℕ → Bool
is_ascii_digit r = leb b'0' r && leb r b'9'

-- `strconv.ParseUint(s, 10, 16)` from the number read so far.
unfoldable pub parse_uint : ℕ → List ℕ → Option ℕ
parse_uint n [] = some n
parse_uint n (c ∷ s) =
    let rest = parse_uint (n * 10 + (c - b'0')) s in
    if not (is_ascii_digit c) then none else if ltb 65535 (n * 10 + (c - b'0')) then none else rest

module _ (runes : Runes) where
  open runes use {is_digit, is_space}

  unfoldable pub trim_left : List ℕ → List ℕ
  trim_left [] = []
  trim_left (r ∷ s) = if is_space r then trim_left s else r ∷ s

  unfoldable pub trim_right : List ℕ → List ℕ
  trim_right [] = []
  trim_right (r ∷ s) = elim (trim_right s) [
    | [] ↦ if is_space r then [] else r ∷ []
    | r' ∷ s' ↦ r ∷ r' ∷ s'
  ]

  -- strings.TrimSpace.
  abbrev pub trim_space : List ℕ → List ℕ
  trim_space s = trim_right (trim_left s)

  -- The loop of isAllDecimal.
  unfoldable pub all_digits : List ℕ → Bool
  all_digits [] = true
  all_digits (r ∷ s) = if not (is_digit r) then false else all_digits s

  abbrev pub is_all_decimal : List ℕ → Bool
  is_all_decimal s = if is_empty s then false else all_digits s

  abbrev pub one_of : List ℕ → List Str → Bool
  one_of name [] = false
  one_of name (s ∷ ss) = name == s || one_of name ss

  unfoldable pub parse_curve_id : List ℕ → Result CurveError ℕ
  parse_curve_id name =
      if is_all_decimal name
      then or_fail (parse_uint 0 name) (invalid_curve_id name)
      else if name == bytes "X25519"
      then ok x25519
      else if one_of name (bytes "CurveP256" ∷ bytes "P-256" ∷ bytes "P256" ∷ [])
      then ok curve_p256
      else if one_of name (bytes "CurveP384" ∷ bytes "P-384" ∷ bytes "P384" ∷ [])
      then ok curve_p384
      else if one_of name (bytes "CurveP521" ∷ bytes "P-521" ∷ bytes "P521" ∷ [])
      then ok curve_p521
      else err (unknown_curve name)

  -- An empty list is nil, which leaves Go's defaults.
  unfoldable pub parse_curve_preferences : List (List ℕ) → Result CurveError (List ℕ)
  parse_curve_preferences [] = ok []
  parse_curve_preferences (raw ∷ names) = do
    guard (not (is_empty (trim_space raw))) empty_entry
    id ← parse_curve_id (trim_space raw)
    rest ← parse_curve_preferences names
    ok (id ∷ rest)
