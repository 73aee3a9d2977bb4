-- ===== src/Server/Extensions/Loops.antt =====
-- The loops over the bytes of an extension, and the number of their turns.
use istio_csr.Base.{
  ℕ, zero, suc, ◌≤◌, ◌≡◌, ◌≢◌, refl, inl, inr, none, some, List, [], ◌∷◌, arith, length,
  Option-cases,
}
use istio_csr.Asn1.{Oid, unmarshal_raw, unmarshal_oid, oids}
use istio_csr.Asn1.Shrink.{unmarshal_raw_shrinks, unmarshal_oid_shrinks}
use istio_csr.Server.Extensions.ExtKeyUsage.{Encodes, oids_sound}
use istio_csr.Server.Extensions.{out_of_fuel, check_names}

check_names_same :
    (f g : ℕ) (bs : List ℕ) → length bs ≤ f → length bs ≤ g → check_names f bs ≡ check_names g bs
unfolding check_names
check_names_same f g [] hf hg = refl
check_names_same zero g (b ∷ bs) hf hg = absurd (omega arith)
check_names_same (suc f) zero (b ∷ bs) hf hg = absurd (omega arith)
check_names_same (suc f) (suc g) (b ∷ bs) hf hg = elim (Option-cases (unmarshal_raw (b ∷ bs))) [
  | inl bad ↦ ground arith
  | inr ((v, rest), good) ↦
      ground (arith, unmarshal_raw_shrinks (b ∷ bs) good, check_names_same f g rest)
]

check_names_ends : (f : ℕ) (bs : List ℕ) → length bs ≤ f → check_names f bs ≢ some out_of_fuel
unfolding check_names
check_names_ends f [] h = λ e. cc
check_names_ends zero (b ∷ bs) h = absurd (omega arith)
check_names_ends (suc f) (b ∷ bs) h = elim (Option-cases (unmarshal_raw (b ∷ bs))) [
  | inl bad ↦ ground arith
  | inr ((v, rest), good) ↦
      ground (arith, unmarshal_raw_shrinks (b ∷ bs) good, check_names_ends f rest)
]

oids_same : (f g : ℕ) (bs : List ℕ) → length bs ≤ f → length bs ≤ g → oids f bs ≡ oids g bs
unfolding oids
oids_same f g [] hf hg = refl
oids_same zero g (b ∷ bs) hf hg = absurd (omega arith)
oids_same (suc f) zero (b ∷ bs) hf hg = absurd (omega arith)
oids_same (suc f) (suc g) (b ∷ bs) hf hg = elim (Option-cases (unmarshal_oid (b ∷ bs))) [
  | inl bad ↦ ground arith
  | inr ((o, rest), good) ↦ ground (arith, unmarshal_oid_shrinks (b ∷ bs) good, oids_same f g rest)
]

-- The parse of object identifiers stops: after some of them there are bytes that begin with none.
pub data Stops : List ℕ → Type 0 where
  here : {b : ℕ} {bs : List ℕ} → unmarshal_oid (b ∷ bs) ≡ none → Stops (b ∷ bs)
  later : {bs rest : List ℕ} {o : Oid} → unmarshal_oid bs ≡ some (o, rest) → Stops rest → Stops bs

oids_ends : (f : ℕ) (bs : List ℕ) → length bs ≤ f → oids f bs ≡ none → Stops bs
unfolding oids
oids_ends f [] h e = cc
oids_ends zero (b ∷ bs) h e = absurd (omega arith)
oids_ends (suc f) (b ∷ bs) h e = elim (Option-cases (unmarshal_oid (b ∷ bs))) [
  | inl bad ↦ here bad
  | inr ((o, rest), good) ↦ later good (
      oids_ends f rest (omega (arith, h, unmarshal_oid_shrinks (b ∷ bs) good))
        (elim (Option-cases (oids f rest)) [
          | inl stuck ↦ stuck
          | inr (os, parsed) ↦ absurd (ground (arith, good, parsed))
        ]))
]

-- The loop over the general names and that over the object identifiers end, after at most as many
-- turns as there are bytes: with any larger number of turns allowed the result is the same, and it is
-- never that the turns ran out. Of the general names that has a failure of its own; of the object
-- identifiers, a result gives the identifiers that the bytes encode, and none means that some bytes
-- begin with no identifier.
pub check_names-oids_terminate :
    (fuel : ℕ) (bs : List ℕ)
    → length bs ≤ fuel
    → (check_names fuel bs ≡ check_names (length bs) bs)
      × (check_names fuel bs ≢ some out_of_fuel)
      × (oids fuel bs ≡ oids (length bs) bs)
      × ((os : List Oid) → oids fuel bs ≡ some os → Encodes os bs)
      × (oids fuel bs ≡ none → Stops bs)
check_names-oids_terminate fuel bs h = (
  check_names_same fuel (length bs) bs h (omega arith),
  check_names_ends fuel bs h,
  oids_same fuel (length bs) bs h (omega arith),
  λ os. oids_sound fuel bs,
  oids_ends fuel bs h,
)
