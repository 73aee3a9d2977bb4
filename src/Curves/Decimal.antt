-- ===== src/Curves/Decimal.antt =====
-- What strconv.ParseUint reads, against the place values of decimal digits.
use istio_csr.Base.{
  ℕ, zero, suc, ◌+◌, ◌-◌, ◌*◌, ◌≤◌, ◌≡◌, inl, inr, some, List, [], ◌∷◌, arith, All, list_eq, nat_eq,
  ltb, length, Bool-cases,
}
use istio_csr.Curves.{parse_uint}

abbrev pub IsDigit : ℕ → Type 0
IsDigit r = (b'0' ≤ r) × (r ≤ b'9')

-- 10 to the k.
abbrev pub ten_to : ℕ → ℕ
ten_to zero = 1
ten_to (suc k) = 10 * ten_to k

-- The number that decimal digits stand for, by their places.
abbrev pub decimal : List ℕ → ℕ
decimal [] = 0
decimal (c ∷ s) = (c - b'0') * ten_to (length s) + decimal s

ten_to_pos : (k : ℕ) → 1 ≤ ten_to k
ten_to_pos zero = omega arith
ten_to_pos (suc k) = omega (arith, ten_to_pos k)

scaled-le : (n k : ℕ) → n ≤ n * ten_to k
scaled-le n zero = omega arith
scaled-le n (suc k) = omega (arith, scaled-le n k)

place : (n d k : ℕ) → (n * 10 + d) * ten_to k ≡ n * ten_to (suc k) + d * ten_to k
place n d k = omega arith

pub parse_uint_sound :
    (n : ℕ) (s : List ℕ) {u : ℕ}
    → n ≤ 65535
    → parse_uint n s ≡ some u
    → All IsDigit s × (u ≡ n * ten_to (length s) + decimal s) × (u ≤ 65535)
unfolding parse_uint
parse_uint_sound n [] h e = ground arith
parse_uint_sound n (c ∷ s) {u} h e = elim (Bool-cases (ltb 65535 (n * 10 + (c - b'0')))) [
  | inl over ↦ ground arith
  | inr fits ↦
      let (digits, value, bound) =
        parse_uint_sound (n * 10 + (c - b'0')) s {u = u} (ground arith) (ground arith) in
      ((ground arith, digits), ground (arith, value, place n (c - b'0') (length s)), bound)
]

pub parse_uint_complete :
    (n : ℕ) (s : List ℕ)
    → All IsDigit s
    → n * ten_to (length s) + decimal s ≤ 65535
    → parse_uint n s ≡ some (n * ten_to (length s) + decimal s)
unfolding parse_uint
parse_uint_complete n [] a h = ground arith
parse_uint_complete n (c ∷ s) (d, a) h =
    let at_place = place n (c - b'0') (length s) in
    let rest = parse_uint_complete (n * 10 + (c - b'0')) s a (omega (arith, at_place, h)) in
    let fits : n * 10 + (c - b'0') ≤ 65535 =
      omega (arith, at_place, h, scaled-le (n * 10 + (c - b'0')) (length s)) in
    ground (arith, rest, at_place)
