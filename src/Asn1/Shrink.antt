-- ===== src/Asn1/Shrink.antt =====
-- Every element that is parsed takes at least one byte, so a loop over elements ends.
use istio_csr.Base.{
  ℕ, zero, suc, ◌+◌, ◌*◌, ◌%◌, ◌≤◌, ◌<◌, ◌≡◌, inl, inr, some, List, [], ◌∷◌, length, arith,
  length-drop-le, Option-cases,
}
use istio_csr.Asn1.{
  Oid, RawValue, Header, base128, long_length, parse_length, parse_tag, parse_header, content,
  unmarshal_raw, unmarshal_oid,
}

base128_shrinks :
    (s acc : ℕ) (bs : List ℕ) {v : ℕ} {rest : List ℕ}
    → base128 s acc bs ≡ some (v, rest)
    → length rest < length bs
unfolding base128
base128_shrinks s acc [] e = cc
base128_shrinks s acc (b ∷ bs) {v} {rest} e = ground (
  arith,
  λ (h : base128 (suc s) (acc * 128 + b % 128) bs ≡ some (v, rest)).
      base128_shrinks (suc s) (acc * 128 + b % 128) bs h,
)

long_length_shrinks :
    (n acc : ℕ) (bs : List ℕ) {v : ℕ} {rest : List ℕ}
    → long_length n acc bs ≡ some (v, rest)
    → length rest ≤ length bs
unfolding long_length
long_length_shrinks zero acc bs e = ground arith
long_length_shrinks (suc n) acc [] e = cc
long_length_shrinks (suc n) acc (b ∷ bs) {v} {rest} e =
    ground (arith, long_length_shrinks n (acc * 256 + b) bs {v = v} {rest = rest})

parse_length_shrinks :
    (bs : List ℕ) {v : ℕ} {rest : List ℕ}
    → parse_length bs ≡ some (v, rest)
    → length rest < length bs
unfolding parse_length
parse_length_shrinks [] e = cc
parse_length_shrinks (b ∷ bs) {v} {rest} e =
    ground (arith, long_length_shrinks (b % 128) 0 bs {v = v} {rest = rest})

parse_tag_shrinks :
    (low : ℕ) (bs : List ℕ) {t : ℕ} {rest : List ℕ}
    → parse_tag low bs ≡ some (t, rest)
    → length rest ≤ length bs
unfolding parse_tag
parse_tag_shrinks low bs {t} {rest} e =
    ground (arith, λ (h : base128 0 0 bs ≡ some (t, rest)). base128_shrinks 0 0 bs h)

parse_header_shrinks :
    (bs : List ℕ) {h : Header} {rest : List ℕ}
    → parse_header bs ≡ some (h, rest)
    → length rest < length bs
unfolding parse_header
parse_header_shrinks [] e = cc
parse_header_shrinks (b ∷ bs) e = elim (Option-cases (parse_tag (b % 32) bs)) [
  | inl none_tag ↦ ground arith
  | inr ((t, bs'), tagged) ↦ elim (Option-cases (parse_length bs')) [
    | inl none_len ↦ ground arith
    | inr ((n, bs''), sized) ↦
        ground (arith, parse_tag_shrinks (b % 32) bs tagged, parse_length_shrinks bs' sized)
  ]
]

pub unmarshal_raw_shrinks :
    (bs : List ℕ) {v : RawValue} {rest : List ℕ}
    → unmarshal_raw bs ≡ some (v, rest)
    → length rest < length bs
unfolding unmarshal_raw content
unmarshal_raw_shrinks bs e = elim (Option-cases (parse_header bs)) [
  | inl bad ↦ ground arith
  | inr ((h, bs'), good) ↦ ground (arith, parse_header_shrinks bs good, length-drop-le h.len bs')
]

pub unmarshal_oid_shrinks :
    (bs : List ℕ) {o : Oid} {rest : List ℕ}
    → unmarshal_oid bs ≡ some (o, rest)
    → length rest < length bs
unfolding unmarshal_oid
unmarshal_oid_shrinks bs e = elim (Option-cases (unmarshal_raw bs)) [
  | inl bad ↦ ground arith
  | inr ((v, bs'), good) ↦ ground (arith, unmarshal_raw_shrinks bs good)
]
