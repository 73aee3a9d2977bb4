-- ===== src/Server/Identities.antt =====
-- pkg/server/auth.go, identitiesMatch: the caller's identities against the URIs of its request.
use mathlib.Core.List.{Perm}
use istio_csr.Base.{
  ◌≡◌, ◌↔◌, Bool, true, false, not, List, [], ◌∷◌, map, arith, length, length-map, if◌then◌else◌,
  ◌==◌, list_eq, nat_eq, list_beq_iff, Bool-cases, nat_beq_iff, inl, inr, sym, ◌∙◌,
}
use istio_csr.Base.Text.{Str}
use istio_csr.Base.Sort.{
  sort_by, sort_strings, map-sort_by, sort_strings_eq_iff, length-perm, length-sort_strings,
  length-sort_by,
}
use istio_csr.Server.Csr.{Url, string}

-- The loop `for i, v := range aa { if bb[i].String() != v { return false } }`; the lists are of
-- one length.
unfoldable pub all_match : List Str → List Url → Bool
all_match [] bb = true
all_match (v ∷ aa) [] = false
all_match (v ∷ aa) (u ∷ bb) =
    let rest = all_match aa bb in if not (string u == v) then false else rest

unfoldable pub identities_match : List Str → List Url → Bool
identities_match a b =
    if not (length a == length b) then false else all_match (sort_strings a) (sort_by string b)

all_match_iff :
    (aa : List Str) (bb : List Url)
    → length aa ≡ length bb
    → (all_match aa bb ≡ true) ↔ (aa ≡ map string bb)
unfolding all_match
all_match_iff [] [] h = ground arith
all_match_iff [] (u ∷ bb) h = absurd (omega arith)
all_match_iff (v ∷ aa) [] h = absurd (omega arith)
all_match_iff (v ∷ aa) (u ∷ bb) h = ground (arith, all_match_iff aa bb, list_beq_iff (string u) v)

sorted_match_iff :
    (a : List Str) (b : List Url)
    → length a ≡ length b
    → (all_match (sort_strings a) (sort_by string b) ≡ true) ↔ Perm a (map string b)
sorted_match_iff a b h =
    let sizes : length (sort_strings a) ≡ length (sort_by string b) =
      length-sort_strings a ∙ h ∙ sym (length-sort_by string b) in
    let (to, from) = all_match_iff (sort_strings a) (sort_by string b) sizes in
    let (to', from') = sort_strings_eq_iff a (map string b) in
    (λ m. to' (to m ∙ map-sort_by string b), λ p. from (from' p ∙ sym (map-sort_by string b)))

-- The identities match exactly when the request's URIs are the caller's identities, each as often,
-- in any order.
pub identities_match_iff :
    (a : List Str) (b : List Url) → (identities_match a b ≡ true) ↔ Perm a (map string b)
unfolding identities_match
identities_match_iff a b = elim (Bool-cases (length a == length b)) [
  | inl same ↦ rw same (sorted_match_iff a b ((nat_beq_iff _ _).0 same))
  | inr other ↦ rw other (
    λ e. cc,
    λ p. cc (other, (nat_beq_iff (length a) (length b)).1 (length-perm p ∙ length-map string b)),
  )
]
