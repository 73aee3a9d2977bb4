-- ===== src/Base/Text.antt =====
-- Go's strings: sequences of bytes, with the order that `<` has on them.
use Prim.Native.Char.{code}
use Prim.Native.String.{String}
use Prim.Native.Nat.{ℕ}
use mathlib.Core.Path.{◌≡◌, refl}
use mathlib.Core.Logic.{◌⊎◌, inl, inr}
use mathlib.Core.Bool.{Bool, true, false}
use mathlib.Core.List.{List, [], ◌∷◌, ◌++◌}
use native.Mathlib.Omega.{arith}
use istio_csr.Base.Tests.{ltb, if◌then◌else◌}

abbrev pub Str : Type 0
Str = List ℕ

-- The bytes of an ASCII literal.
unfoldable pub bytes : String → Str
bytes String.[] = []
bytes (String.◌∷◌ c s) = code c ∷ bytes s

-- `a < b` on strings: lexicographic, by bytes.
unfoldable pub less : Str → Str → Bool
less [] [] = false
less [] (y ∷ ys) = true
less (x ∷ xs) [] = false
less (x ∷ xs) (y ∷ ys) = if ltb x y then true else if ltb y x then false else less xs ys

pub less_irrefl : (a : Str) → less a a ≡ false
unfolding less
less_irrefl [] = refl
less_irrefl (x ∷ xs) = ground (arith, less_irrefl xs)

pub less_trans : (a b c : Str) → less a b ≡ true → less b c ≡ true → less a c ≡ true
unfolding less
less_trans [] [] c p q = cc
less_trans [] (y ∷ ys) [] p q = cc
less_trans [] (y ∷ ys) (z ∷ zs) p q = refl
less_trans (x ∷ xs) [] c p q = cc
less_trans (x ∷ xs) (y ∷ ys) [] p q = cc
less_trans (x ∷ xs) (y ∷ ys) (z ∷ zs) p q = ground (arith, less_trans xs ys zs)

pub less_trichotomy : (a b : Str) → (less a b ≡ true) ⊎ (a ≡ b) ⊎ (less b a ≡ true)
unfolding less
less_trichotomy [] [] = inr (inl refl)
less_trichotomy [] (y ∷ ys) = inl refl
less_trichotomy (x ∷ xs) [] = inr (inr refl)
less_trichotomy (x ∷ xs) (y ∷ ys) = ground (arith, less_trichotomy xs ys)

-- `strings.Join(parts, sep)`.
unfoldable pub join_with : Str → List Str → Str
join_with sep [] = []
join_with sep (p ∷ []) = p
join_with sep (p ∷ q ∷ ps) = p ++ (sep ++ join_with sep (q ∷ ps))
