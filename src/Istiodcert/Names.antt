-- ===== src/Istiodcert/Names.antt =====
-- The DNS names of istiod's certificate, and its common name.
use mathlib.Core.List.{Memᴰ}
use istio_csr.Base.{
  ℕ, ◌≡◌, ◌≢◌, refl, sym, ◌∙◌, ap, ◌↔◌, ◌⊎◌, inl, inr, true, Option, some, get_elem?, List, [], ◌∷◌,
  map, arith, ◌==◌, list_eq, nat_eq, list_beq_iff, is_empty, Bool-cases, if◌then◌else◌,
}
use istio_csr.Base.Text.{Str, bytes}
use istio_csr.Istiodcert.Worker.{
  default_revision, default_san, revision_san, names_of, make_dns_names_from_revisions,
}

-- The name of one revision.
abbrev pub name_of : Str → Str → Str
name_of namespace revision =
    if revision == default_revision then default_san namespace else revision_san namespace revision

names_of_eq : (namespace : Str) (rs : List Str) → names_of namespace rs ≡ map (name_of namespace) rs
unfolding names_of
names_of_eq namespace [] = refl
names_of_eq namespace (r ∷ rs) = ground (arith, names_of_eq namespace rs)

-- "istiod." and "istiod-" differ in their last byte.
revision_not_default :
    (namespace revision : Str) → default_san namespace ≢ revision_san namespace revision
unfolding bytes
revision_not_default namespace revision e =
    let seventh : ◌≡◌ {A = Option ℕ} (some b'.') (some b'-') = ap (λ (s : Str). get_elem? s 6) e in
    ground arith

default_in_sound :
    (namespace : Str) (rs : List Str)
    → Memᴰ (default_san namespace) (names_of namespace rs)
    → Memᴰ default_revision rs
unfolding names_of
default_in_sound namespace [] m = elim m [ ]
default_in_sound namespace (r ∷ rs) m = elim (Bool-cases (r == default_revision)) [
  | inl is_default ↦ Memᴰ.head (sym ((list_beq_iff r default_revision).0 is_default))
  | inr other ↦ Memᴰ.tail (default_in_sound namespace rs (rest (rw (other, names_of) at m)))
]
  where
    rest :
        Memᴰ (default_san namespace) (revision_san namespace r ∷ names_of namespace rs)
        → Memᴰ (default_san namespace) (names_of namespace rs)
    rest (Memᴰ.head e) = absurd (revision_not_default namespace r e)
    rest (Memᴰ.tail t) = t

default_in_complete :
    (namespace : Str) {rs : List Str}
    → Memᴰ default_revision rs
    → Memᴰ (default_san namespace) (names_of namespace rs)
unfolding names_of
default_in_complete namespace (Memᴰ.head {x} {xs} e) =
    let is_default : (x == default_revision) ≡ true = (list_beq_iff x default_revision).1 (sym e) in
    rw (is_default, names_of) (Memᴰ.head refl)
default_in_complete namespace (Memᴰ.tail {x} {xs} m) =
    let t = default_in_complete namespace m in
    elim (Bool-cases (x == default_revision)) [
      | inl is_default ↦ rw (is_default, names_of) (Memᴰ.tail t)
      | inr other ↦ rw (other, names_of) (Memᴰ.tail t)
    ]

-- The common name is the default revision's, and the DNS names are those of the revisions in order,
-- the default revision's alone where there is none.
pub make_dns_names_from_revisions_lem :
    (namespace : Str) (revisions : List Str)
    → make_dns_names_from_revisions namespace revisions ≡ (
      default_san namespace,
      (if is_empty revisions
          then default_san namespace ∷ []
          else map (name_of namespace) revisions),
    )
unfolding make_dns_names_from_revisions
make_dns_names_from_revisions_lem namespace [] =
    ap (λ ns. (default_san namespace, ns)) (names_of_eq namespace (default_revision ∷ []) ∙ single)
  where
    single : map (name_of namespace) (default_revision ∷ []) ≡ default_san namespace ∷ []
    single = ground (arith, list_beq_iff default_revision default_revision)
make_dns_names_from_revisions_lem namespace (r ∷ rs) =
    ap (λ ns. (default_san namespace, ns)) (names_of_eq namespace (r ∷ rs))

-- The common name is one of the DNS names exactly where there is no revision, or "default" is one.
pub common_name-mem_iff :
    (namespace : Str) (revisions : List Str)
    → Memᴰ
        (make_dns_names_from_revisions namespace revisions).0
        (make_dns_names_from_revisions namespace revisions).1
      ↔ ((revisions ≡ []) ⊎ Memᴰ default_revision revisions)
unfolding make_dns_names_from_revisions
common_name-mem_iff namespace [] =
    (λ m. inl refl, λ h. default_in_complete namespace (Memᴰ.head refl))
common_name-mem_iff namespace (r ∷ rs) = (
  λ m. inr (default_in_sound namespace (r ∷ rs) m),
  λ h. elim h [ inl nothing ↦ cc | inr m ↦ default_in_complete namespace m ],
)
