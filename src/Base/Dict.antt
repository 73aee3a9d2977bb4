-- ===== src/Base/Dict.antt =====
-- Go's maps with string keys, as association lists: the first entry of a key counts.
use mathlib.Core.Bool.{not}
use mathlib.Core.Path.{◌≡◌, refl}
use mathlib.Core.Option.{Option, none, some}
use mathlib.Core.List.{List, [], ◌∷◌}
use native.Mathlib.Omega.{arith}
use istio_csr.Base.Equality.{◌==◌, list_eq, nat_eq, list_beq_iff}
use istio_csr.Base.Tests.{if◌then◌else◌}
use istio_csr.Base.Text.{Str}

abbrev pub Dict {ℓ} : Type ℓ → Type ℓ
Dict V = List (Str × V)

-- The value of `x` where there is one, else `y`.
abbrev pub or_else {ℓ} : {A : Type ℓ} → Option A → Option A → Option A
or_else none y = y
or_else (some x) y = some x

module _ {ℓ} {V : Type ℓ} where
  unfoldable pub lookup : Str → Dict V → Option V
  lookup key [] = none
  lookup key ((name, value) ∷ entries) = if name == key then some value else lookup key entries

  unfoldable pub insert : Str → V → Dict V → Dict V
  insert key new [] = (key, new) ∷ []
  insert key new ((name, value) ∷ entries) =
      let kept = insert key new entries in
      if not (name == key) then (name, value) ∷ kept else (key, new) ∷ entries

  -- `maps.Copy(dst, src)`.
  unfoldable pub copy : Dict V → Dict V → Dict V
  unfolding insert
  copy dst [] = dst
  copy dst ((k, v) ∷ src) = insert k v (copy dst src)

  -- An inserted entry is found under its key, and every other key is as before.
  pub lookup-insert :
      (key other : Str) (new : V) (entries : Dict V)
      → lookup other (insert key new entries)
        ≡ (if key == other then some new else lookup other entries)
  unfolding lookup insert
  lookup-insert key other new [] = refl
  lookup-insert key other new ((name, value) ∷ entries) =
      let rest = lookup-insert key other new entries in
      ground (arith, list_beq_iff name key, list_beq_iff name other, list_beq_iff key other, rest)

module _ {ℓ} {V : Type ℓ} where
  -- After a copy a key has its value in the source, or else the one that it had.
  pub lookup-copy :
      (j : Str) (dst src : Dict V) → lookup j (copy dst src) ≡ or_else (lookup j src) (lookup j dst)
  unfolding lookup copy
  lookup-copy j dst [] = refl
  lookup-copy j dst ((k, v) ∷ src) =
      ground (arith, lookup-insert k j v (copy dst src), lookup-copy j dst src)
