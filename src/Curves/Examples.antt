-- ===== src/Curves/Examples.antt =====
-- A run of the parser of curve preferences.
use istio_csr.Base.{ℕ, ◌≡◌, refl, List, [], ◌∷◌, ok, list_beq, list_eq, nat_eq, nat_beq}
use istio_csr.Base.Text.{bytes}
use istio_csr.Base.Utf8.{byte_at, rune_at, runes_after, decode_runes}
use istio_csr.Curves.{
  Runes, is_ascii_digit, parse_uint, trim_left, trim_right, all_digits, parse_curve_id,
  parse_curve_preferences,
}
use istio_csr.Curves.Denoted.{Denote, parse_curve_preferences_iff}

abbrev pub ascii : Runes
ascii = record {
  is_digit = is_ascii_digit;
  is_space = λ r. nat_beq r b' ';
  ascii_digit = λ r h. refl;
}

abbrev names : List (List ℕ)
names = bytes " X25519" ∷ bytes "P-384" ∷ bytes "4588 " ∷ []

-- What a run of the parser unfolds.
unfoldable pub parsing : Unit {0}
unfolding parse_curve_preferences parse_curve_id parse_uint trim_left trim_right all_digits bytes
    list_beq runes_after rune_at byte_at
parsing = tt

-- An em space, "X", and a byte that begins no rune.
decoded : decode_runes (0xE2 ∷ 0x80 ∷ 0x83 ∷ 0x58 ∷ 0xFF ∷ []) ≡ 0x2003 ∷ 0x58 ∷ 0xFFFD ∷ []
unfolding runes_after
decoded = refl

names_run : parse_curve_preferences ascii names ≡ ok (29 ∷ 24 ∷ 4588 ∷ [])
unfolding parsing
names_run = refl

parse_curve_preferences_iff_example : Denote ascii names (29 ∷ 24 ∷ 4588 ∷ [])
parse_curve_preferences_iff_example =
    (parse_curve_preferences_iff ascii names (29 ∷ 24 ∷ 4588 ∷ [])).0 names_run
