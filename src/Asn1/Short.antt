-- ===== src/Asn1/Short.antt =====
-- An element written in the short form, a first byte, a length below 128 and the content, is read
-- back as it was written.
use mathlib.Core.List.{append-nil}
use istio_csr.Base.{
  subst, ℕ, ◌/◌, ◌%◌, ◌<◌, ◌≡◌, ◌≢◌, some, List, [], ◌∷◌, ◌++◌, arith, nat_beq, length,
  length-append, take-append, drop-append,
}
use istio_csr.Asn1.{RawValue, parse_length, parse_tag, parse_header, content, unmarshal_raw}

abbrev pub element : ℕ → List ℕ → RawValue
element b body = record {
  class = b / 64;
  tag = b % 32;
  is_compound = nat_beq (b / 32 % 2) 1;
  content = body;
}

pub unmarshal_raw_short :
    (b : ℕ) (body rest : List ℕ)
    → b % 32 ≢ 31
    → length body < 128
    → unmarshal_raw (b ∷ length body ∷ (body ++ rest)) ≡ some (element b body, rest)
unfolding unmarshal_raw parse_header parse_tag parse_length content
unmarshal_raw_short b body rest ht hl =
    ground (arith, take-append body rest, drop-append body rest, length-append body rest)

pub unmarshal_raw_last :
    (b : ℕ) (body : List ℕ)
    → b % 32 ≢ 31
    → length body < 128
    → unmarshal_raw (b ∷ length body ∷ body) ≡ some (element b body, [])
unmarshal_raw_last b body ht hl =
    subst (λ bs. unmarshal_raw (b ∷ length body ∷ bs) ≡ some (element b body, [])) (append-nil body)
      (unmarshal_raw_short b body [] ht hl)
