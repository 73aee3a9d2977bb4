-- ===== src/Base/Errors.antt =====
-- Errors as values: Go's pair of a result and an error, and `errors.Join`.
use mathlib.Core.Path.{◌≡◌, refl}
use mathlib.Core.Logic.{◌⊎◌, inl, inr}
use mathlib.Core.Bool.{Bool, true, false}
use mathlib.Core.Option.{Option, none, some}
use mathlib.Core.List.{List, [], ◌∷◌}

pub data Result {ℓ κ} (E : Type κ) (A : Type ℓ) : Type (ℓ ⊔ κ) where
  ok : A → Result E A
  err : E → Result E A

infixl 5 ◌>>=◌ ◌>>◌
abbrev pub ◌>>=◌ {ℓ κ μ} :
    {E : Type κ} {A : Type ℓ} {B : Type μ} → Result E A → (A → Result E B) → Result E B
err x >>= k = err x
ok x >>= k = k x

abbrev pub ◌>>◌ {ℓ κ} : {E : Type κ} {B : Type ℓ} → Result E (Unit {0}) → Result E B → Result E B
first >> next = first >>= λ done. next

-- An early return with `e` unless the test holds.
abbrev pub guard {κ} : {E : Type κ} → Bool → E → Result E (Unit {0})
guard false early = err early
guard true early = ok tt

abbrev pub or_fail {ℓ κ} : {E : Type κ} {A : Type ℓ} → Option A → E → Result E A
or_fail none e = err e
or_fail (some a) e = ok a

-- The errors of a list, without the nil ones.
abbrev pub present {ℓ} : {E : Type ℓ} → List (Option E) → List E
present [] = []
present (none ∷ es) = present es
present (some e ∷ es) = e ∷ present es

abbrev pub IsNil {ℓ} : {E : Type ℓ} → Option E → Type ℓ
IsNil o = o ≡ none

-- `errors.Join`: nil if every error is nil, else the others together.
abbrev pub join {ℓ} : {E : Type ℓ} → List (Option E) → Option (List E)
join es = elim (present es) [ [] ↦ none | x ∷ xs ↦ some (x ∷ xs) ]

pub Result-cases {ℓ κ} :
    {E : Type κ} {A : Type ℓ} (r : Result E A) → ((a : A) × (r ≡ ok a)) ⊎ ((e : E) × (r ≡ err e))
Result-cases (ok a) = inl (a, refl)
Result-cases (err e) = inr (e, refl)
