-- ===== src/Base/Sort.antt =====
-- `sort.Strings` and `sort.SliceStable` with a string key, as stable insertion.
use mathlib.Core.Path.{◌≡◌, refl, ap, ◌∙◌}
use mathlib.Core.Logic.{◌↔◌, inl, inr, ∥∥₁_elim}
use mathlib.Core.List.{List, [], ◌∷◌, map, Perm, Permᴰ}
use mathlib.Core.HLevel.{hedberg}
use mathlib.Core.List.Perm
use native.Mathlib.Omega.{arith}
use native.Mathlib.Decide.{ℕ_discrete}
use Prim.Native.Nat.{suc}
use native.Mathlib.Nat.{ℕ_set}
use istio_csr.Base.Lists.{length}
use istio_csr.Base.Tests.{if◌then◌else◌, Bool-cases}
use istio_csr.Base.Text.{Str, less, less_irrefl, less_trans, less_trichotomy}

module _ {ℓ} {A : Type ℓ} (key : A → Str) where
  unfoldable pub insert_by : A → List A → List A
  insert_by x [] = x ∷ []
  insert_by x (y ∷ ys) = if less (key y) (key x) then y ∷ insert_by x ys else x ∷ y ∷ ys

  -- `sort.SliceStable` with `key(i) < key(j)`.
  unfoldable pub sort_by : List A → List A
  unfolding insert_by
  sort_by [] = []
  sort_by (x ∷ xs) = insert_by x (sort_by xs)

-- `sort.Strings`.
unfoldable pub sort_strings : List Str → List Str
unfolding sort_by
sort_strings xs = sort_by (λ x. x) xs

insert_by-perm {ℓ} :
    {A : Type ℓ} (key : A → Str) (x : A) (ys : List A) → Perm (insert_by key x ys) (x ∷ ys)
unfolding insert_by
insert_by-perm key x [] = Perm.refl _
insert_by-perm key x (y ∷ ys) = elim (Bool-cases (less (key y) (key x))) [
  | inl later ↦ rw later (Perm.trans (Perm.cons y (insert_by-perm key x ys)) (Perm.swap x y ys))
  | inr here ↦ rw here (Perm.refl _)
]

pub sort_by-perm {ℓ} : {A : Type ℓ} (key : A → Str) (xs : List A) → Perm (sort_by key xs) xs
unfolding sort_by
sort_by-perm key [] = Perm.refl _
sort_by-perm key (x ∷ xs) =
    Perm.trans (insert_by-perm key x (sort_by key xs)) (Perm.cons x (sort_by-perm key xs))

map-insert_by {ℓ} :
    {A : Type ℓ} (key : A → Str) (x : A) (ys : List A)
    → map key (insert_by key x ys) ≡ insert_by (λ s. s) (key x) (map key ys)
unfolding insert_by
map-insert_by key x [] = refl
map-insert_by key x (y ∷ ys) = ground (arith, map-insert_by key x ys)

-- Sorting by a key and taking the keys is sorting the keys.
pub map-sort_by {ℓ} :
    {A : Type ℓ} (key : A → Str) (xs : List A)
    → map key (sort_by key xs) ≡ sort_strings (map key xs)
unfolding sort_strings
map-sort_by key [] = refl
map-sort_by key (x ∷ xs) =
    map-insert_by key x (sort_by key xs) ∙ ap (insert_by (λ s. s) (key x)) (map-sort_by key xs)

insert_comm :
    (x y : Str) (l : List Str)
    → insert_by (λ s. s) x (insert_by (λ s. s) y l) ≡ insert_by (λ s. s) y (insert_by (λ s. s) x l)
unfolding insert_by
insert_comm x y [] = ground (arith, less_trichotomy x y, less_trans x y x, less_irrefl x)
insert_comm x y (z ∷ l) = ground (
  arith,
  insert_comm x y l,
  less_trichotomy x y,
  less_trichotomy x z,
  less_trichotomy y z,
  less_irrefl x,
  less_irrefl y,
  less_irrefl z,
  less_trans x y x,
  less_trans z y x,
  less_trans z x y,
  less_trans x y z,
  less_trans y x z,
)

sort-permᴰ : {xs ys : List Str} → Permᴰ xs ys → sort_strings xs ≡ sort_strings ys
unfolding sort_strings
sort-permᴰ Permᴰ.nil = refl
sort-permᴰ (Permᴰ.cons e p) = cc (sort-permᴰ p)
sort-permᴰ (Permᴰ.swap {a} {b} {l} e f) = rw (← e, ← f) (insert_comm a b (sort_by (λ s. s) l))
sort-permᴰ (Permᴰ.trans p q) = sort-permᴰ p ∙ sort-permᴰ q

strings_set : IsSet (List Str)
strings_set = hedberg (hlevel ℕ_discrete)

pub sort_strings-perm : {xs ys : List Str} → Perm xs ys → sort_strings xs ≡ sort_strings ys
sort_strings-perm p = ∥∥₁_elim p (strings_set _ _) sort-permᴰ

-- Two lists have the same sorted form exactly when one is a reordering of the other.
pub sort_strings_eq_iff : (xs ys : List Str) → (sort_strings xs ≡ sort_strings ys) ↔ Perm xs ys
unfolding sort_strings
sort_strings_eq_iff xs ys = (
  λ e. Perm.trans (Perm.symm (sort_by-perm (λ s. s) xs)) (rw e (sort_by-perm (λ s. s) ys)),
  sort_strings-perm,
)

length-permᴰ {ℓ} : {A : Type ℓ} {xs ys : List A} → Permᴰ xs ys → length xs ≡ length ys
length-permᴰ Permᴰ.nil = refl
length-permᴰ (Permᴰ.cons e p) = ap suc (length-permᴰ p)
length-permᴰ (Permᴰ.swap e f) = refl
length-permᴰ (Permᴰ.trans p q) = length-permᴰ p ∙ length-permᴰ q

pub length-perm {ℓ} : {A : Type ℓ} {xs ys : List A} → Perm xs ys → length xs ≡ length ys
length-perm p = ∥∥₁_elim p (ℕ_set _ _) length-permᴰ

pub length-sort_strings : (xs : List Str) → length (sort_strings xs) ≡ length xs
unfolding sort_strings
length-sort_strings xs = length-perm (sort_by-perm (λ s. s) xs)

pub length-sort_by {ℓ} :
    {A : Type ℓ} (key : A → Str) (xs : List A) → length (sort_by key xs) ≡ length xs
length-sort_by key xs = length-perm (sort_by-perm key xs)
