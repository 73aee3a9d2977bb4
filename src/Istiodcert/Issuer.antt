-- ===== src/Istiodcert/Issuer.antt =====
-- Which issuer the provisioner uses after the changes that it is told of, and when it reconciles.
use istio_csr.Base.{
  suc, ◌≡◌, refl, ◌∙◌, ap, Option, none, some, List, [], ◌∷◌, ◌++◌, arith, inl, inr, subst,
  Option-cases,
}
use istio_csr.Base.Dict.{or_else}
use istio_csr.Certmanager.{IssuerReference}
use istio_csr.Istiodcert.Worker.{Provisioner, handle_new_issuer, handle_all, start}

handle_issuer :
    (p : Provisioner) (r : Option IssuerReference)
    → (handle_new_issuer p r).issuer_ref ≡ or_else r p.initial_issuer_ref
unfolding handle_new_issuer
handle_issuer p (some r) = refl
handle_issuer p none = ground arith

handle_initial :
    (p : Provisioner) (r : Option IssuerReference)
    → (handle_new_issuer p r).initial_issuer_ref ≡ p.initial_issuer_ref
unfolding handle_new_issuer
handle_initial p (some r) = refl
handle_initial p none = ground arith

handle_all_last :
    (p : Provisioner) (rs : List (Option IssuerReference)) (r : Option IssuerReference)
    → (handle_all p (rs ++ r ∷ [])).issuer_ref ≡ or_else r p.initial_issuer_ref
unfolding handle_all
handle_all_last p [] r = handle_issuer p r
handle_all_last p (q ∷ rs) r =
    handle_all_last (handle_new_issuer p q) rs r ∙ ap (or_else r) (handle_initial p q)

handle_kept :
    (p : Provisioner) (r : Option IssuerReference)
    → ((handle_new_issuer p r).opts ≡ p.opts)
      × ((handle_new_issuer p r).trust_domain ≡ p.trust_domain)
unfolding handle_new_issuer
handle_kept p (some r) = (refl, refl)
handle_kept p none = (ground arith, ground arith)

handle_all_kept :
    (p : Provisioner) (rs : List (Option IssuerReference))
    → ((handle_all p rs).opts ≡ p.opts) × ((handle_all p rs).trust_domain ≡ p.trust_domain)
unfolding handle_all
handle_all_kept p [] = (refl, refl)
handle_all_kept p (r ∷ rs) =
    let (opts, trust_domain) = handle_all_kept (handle_new_issuer p r) rs in
    let (opts', trust_domain') = handle_kept p r in (opts ∙ opts', trust_domain ∙ trust_domain')

-- Whatever the provisioner is told, its options and its trust domain stay.
pub start-kept :
    (p : Provisioner) (rs : List (Option IssuerReference))
    → ((start p rs).opts ≡ p.opts) × ((start p rs).trust_domain ≡ p.trust_domain)
unfolding start handle_all
start-kept p rs = elim (Option-cases p.initial_issuer_ref) [
  | inl nothing ↦
      subst IsKept {x = handle_all p rs} {y = start p rs} (ground (arith, nothing))
        (handle_all_kept p rs)
  | inr (r, there) ↦
      subst IsKept {x = handle_all p (p.initial_issuer_ref ∷ rs)} {y = start p rs}
        (ground (arith, there)) (handle_all_kept p (p.initial_issuer_ref ∷ rs))
]
  where
    IsKept : Provisioner → Type 0
    IsKept q = (q.opts ≡ p.opts) × (q.trust_domain ≡ p.trust_domain)

-- After some changes of the issuer the last one counts: it is used, or, where it says that there is
-- no issuer, the one of the start.
pub start-issuer_ref :
    (p : Provisioner) (rs : List (Option IssuerReference)) (r : Option IssuerReference)
    → (start p (rs ++ r ∷ [])).issuer_ref ≡ or_else r p.initial_issuer_ref
unfolding start
start-issuer_ref p rs r = ground (
  arith,
  handle_all_last p rs r,
  handle_all_last (handle_new_issuer p p.initial_issuer_ref) rs r,
  handle_initial p p.initial_issuer_ref,
)

handle_all-append :
    (p : Provisioner) (rs : List (Option IssuerReference)) (r : Option IssuerReference)
    → handle_all p (rs ++ r ∷ []) ≡ handle_new_issuer (handle_all p rs) r
unfolding handle_all
handle_all-append p [] r = refl
handle_all-append p (q ∷ rs) r = handle_all-append (handle_new_issuer p q) rs r

start-append :
    (p : Provisioner) (rs : List (Option IssuerReference)) (r : Option IssuerReference)
    → start p (rs ++ r ∷ []) ≡ handle_new_issuer (start p rs) r
unfolding start
start-append p rs r = ground (
  arith,
  handle_all-append p rs r,
  handle_all-append (handle_new_issuer p p.initial_issuer_ref) rs r,
)

handle_all_initial :
    (p : Provisioner) (rs : List (Option IssuerReference))
    → (handle_all p rs).initial_issuer_ref ≡ p.initial_issuer_ref
unfolding handle_all
handle_all_initial p [] = refl
handle_all_initial p (q ∷ rs) = handle_all_initial (handle_new_issuer p q) rs ∙ handle_initial p q

start_initial :
    (p : Provisioner) (rs : List (Option IssuerReference))
    → (start p rs).initial_issuer_ref ≡ p.initial_issuer_ref
unfolding start
start_initial p rs = ground (
  arith,
  handle_all_initial p rs,
  handle_all_initial (handle_new_issuer p p.initial_issuer_ref) rs,
  handle_initial p p.initial_issuer_ref,
)

handle_some :
    (p : Provisioner) (r : IssuerReference)
    → (handle_new_issuer p (some r)).triggered ≡ suc p.triggered
unfolding handle_new_issuer
handle_some p r = refl

handle_none :
    (p : Provisioner) (i : IssuerReference)
    → p.initial_issuer_ref ≡ some i
    → (handle_new_issuer p none).triggered ≡ p.triggered
unfolding handle_new_issuer
handle_none p i e = ground arith

-- A new issuer triggers one reconciliation.
pub start-triggers :
    (p : Provisioner) (rs : List (Option IssuerReference)) (r : IssuerReference)
    → (start p (rs ++ some r ∷ [])).triggered ≡ suc (start p rs).triggered
start-triggers p rs r =
    ap (λ (q : Provisioner). q.triggered) (start-append p rs (some r)) ∙ handle_some (start p rs) r

-- With an issuer of the start, the news that there is none any more makes it the issuer again, but
-- triggers no reconciliation, so the certificate stays with the issuer before.
pub start-untriggered :
    (p : Provisioner) (rs : List (Option IssuerReference)) (i : IssuerReference)
    → p.initial_issuer_ref ≡ some i
    → ((start p (rs ++ none ∷ [])).issuer_ref ≡ some i)
      × ((start p (rs ++ none ∷ [])).triggered ≡ (start p rs).triggered)
start-untriggered p rs i e = (
  start-issuer_ref p rs none ∙ e,
  ap (λ (q : Provisioner). q.triggered) (start-append p rs none)
      ∙ handle_none (start p rs) i (start_initial p rs ∙ e),
)
