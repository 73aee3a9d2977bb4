-- ===== src/Asn1.antt =====
-- Go's encoding/asn1, as far as pkg/server/internal/extensions reaches it: the header of a DER
-- element, `asn1.Unmarshal` into a `RawValue`, and into a `[]asn1.ObjectIdentifier`.
-- A parse error is `none`: the callers only test for it.
pub mod Shrink
pub mod Short
use istio_csr.Base.{
  ℕ, zero, suc, ◌+◌, ◌-◌, ◌*◌, ◌/◌, ◌%◌, ◌^◌, ◌≤◌, ◌<◌, Bool, true, false, ◌&&◌, ◌||◌, Option, none,
  some, List, [], ◌∷◌, ltb, leb, length, if◌then◌else◌, nat_beq, take, drop, not, is_empty,
}

abbrev pub Oid : Type 0
Oid = List ℕ

pub record RawValue : Type 0 where
  pub class : ℕ
  pub tag : ℕ
  pub is_compound : Bool
  pub content : List ℕ

pub record Header : Type 0 where
  pub class : ℕ
  pub tag : ℕ
  pub is_compound : Bool
  pub len : ℕ

abbrev pub class_universal : ℕ
class_universal = 0

abbrev pub tag_oid : ℕ
tag_oid = 6

abbrev pub tag_sequence : ℕ
tag_sequence = 16

infixl 5 ◌>>=◌
abbrev pub ◌>>=◌ {ℓ κ} : {A : Type ℓ} {B : Type κ} → Option A → (A → Option B) → Option B
none >>= k = none
some a >>= k = k a

-- `parseBase128Int`: at most five bytes, the first not 0x80, a value below 2^31.
unfoldable pub base128 : ℕ → ℕ → List ℕ → Option (ℕ × List ℕ)
base128 shifted acc [] = none
base128 shifted acc (b ∷ rest) =
    let acc' = acc * 128 + b % 128 in
    let more = base128 (suc shifted) acc' rest in
    if nat_beq shifted 5
    then none
    else if nat_beq shifted 0 && nat_beq b 128
    then none
    else if ltb b 128
    then (if leb acc' (2 ^ 31 - 1) then some (acc', rest) else none)
    else more

-- The `numBytes` bytes of a long-form length.
unfoldable pub long_length : ℕ → ℕ → List ℕ → Option (ℕ × List ℕ)
long_length zero acc bs = if ltb acc 128 then none else some (acc, bs)
long_length (suc n) acc [] = none
long_length (suc n) acc (b ∷ bs) =
    let acc' = acc * 256 + b in
    let more = long_length n acc' bs in
    if leb (2 ^ 23) acc then none else if nat_beq acc' 0 then none else more

unfoldable pub parse_length : List ℕ → Option (ℕ × List ℕ)
unfolding long_length
parse_length [] = none
parse_length (b ∷ bs) =
    if ltb b 128
    then some (b, bs)
    else if nat_beq (b % 128) 0
    then none
    else long_length (b % 128) 0 bs

-- A tag number that does not fit the first byte: in base 128, minimally encoded.
unfoldable pub parse_tag : ℕ → List ℕ → Option (ℕ × List ℕ)
unfolding base128
parse_tag low bs =
    if nat_beq low 31
    then base128 0 0 bs >>= (λ (t, bs'). if ltb t 31 then none else some (t, bs'))
    else some (low, bs)

-- `parseTagAndLength`.
unfoldable pub parse_header : List ℕ → Option (Header × List ℕ)
parse_header [] = none
parse_header (b ∷ bs) = do
  (t, bs') ← parse_tag (b % 32) bs
  (n, bs'') ← parse_length bs'
  some (record { class = b / 64; tag = t; is_compound = nat_beq (b / 32 % 2) 1; len = n }, bs'')

-- The content that a header announces, and what follows it.
unfoldable pub content : Header → List ℕ → Option (List ℕ × List ℕ)
content h bs = if ltb (length bs) h.len then none else some (take h.len bs, drop h.len bs)

-- `asn1.Unmarshal(bs, &rawValue)`: the element and the bytes that follow it.
unfoldable pub unmarshal_raw : List ℕ → Option (RawValue × List ℕ)
unmarshal_raw bs = do
  (h, bs') ← parse_header bs
  (inner, rest) ← content h bs'
  some (record { class = h.class; tag = h.tag; is_compound = h.is_compound; content = inner }, rest)

-- The arcs of an OBJECT IDENTIFIER, from the middle of one: each as `base128` reads it.
unfoldable pub arcs : ℕ → ℕ → List ℕ → Option (List ℕ)
arcs shifted acc [] = none
arcs shifted acc (b ∷ rest) =
    let acc' = acc * 128 + b % 128 in
    let more = arcs (suc shifted) acc' rest in
    let next = arcs 0 0 rest in
    if nat_beq shifted 5
    then none
    else if nat_beq shifted 0 && nat_beq b 128
    then none
    else if ltb b 128
    then (if leb acc' (2 ^ 31 - 1)
        then (if is_empty rest then some (acc' ∷ []) else next >>= (λ vs. some (acc' ∷ vs)))
        else none)
    else more

-- `parseObjectIdentifier`: the first number holds the first two arcs.
unfoldable pub parse_oid : List ℕ → Option Oid
unfolding arcs
parse_oid bs = arcs 0 0 bs >>= λ vs. elim vs [
  | [] ↦ none
  | v ∷ vs ↦ some (if ltb v 80 then v / 40 ∷ v % 40 ∷ vs else 2 ∷ (v - 80) ∷ vs)
]

-- One element of a SEQUENCE OF OBJECT IDENTIFIER, which is universal and primitive.
unfoldable pub unmarshal_oid : List ℕ → Option (Oid × List ℕ)
unmarshal_oid bs = unmarshal_raw bs >>= λ (v, rest).
    if nat_beq v.class class_universal && nat_beq v.tag tag_oid && not v.is_compound
    then parse_oid v.content >>= (λ o. some (o, rest))
    else none

-- `parseSequenceOf`, by fuel: each element takes at least two bytes.
unfoldable pub oids : ℕ → List ℕ → Option (List Oid)
oids fuel [] = some []
oids zero (b ∷ bs) = none
oids (suc fuel) (b ∷ bs) = elim (unmarshal_oid (b ∷ bs)) [
  | none ↦ none
  | some (o, rest) ↦ oids fuel rest >>= (λ os. some (o ∷ os))
]

abbrev pub is_sequence : RawValue → Bool
is_sequence v = v.is_compound && nat_beq v.tag tag_sequence && nat_beq v.class class_universal

-- `asn1.Unmarshal(bs, &oids)` for a `[]asn1.ObjectIdentifier`. The callers drop what follows.
unfoldable pub unmarshal_oids : List ℕ → Option (List Oid)
unmarshal_oids bs = unmarshal_raw bs >>= λ (v, rest).
    if is_sequence v then oids (length v.content) v.content else none

-- What a test unfolds to run the parser.
unfoldable pub parser : Unit {0}
unfolding base128 parse_tag long_length parse_length parse_header content unmarshal_raw arcs
    parse_oid unmarshal_oid oids unmarshal_oids
parser = tt
