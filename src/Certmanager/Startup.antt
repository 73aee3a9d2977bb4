-- ===== src/Certmanager/Startup.antt =====
-- How the manager starts: which issuer it takes, and when New fails.
use istio_csr.Base.{
  ◌≡◌, ◌≢◌, refl, ◌↔◌, ◌⊎◌, inl, inr, Bool, true, false, none, some, [], arith, ok, err,
  Result-cases,
}
use istio_csr.Certmanager.{
  IssuerReference, Options, Manager, no_original_issuer, has_runtime_configuration,
  handle_original_issuer_ref, started, new,
}

-- An issuer reference with all its parts.
pub record IsComplete (r : IssuerReference) : Type 0 where
  pub name : r.name ≢ []
  pub kind : r.kind ≢ []
  pub group : r.group ≢ []

-- No issuer is given at startup: the default issuer is off, or all its parts are empty.
abbrev pub HasNoIssuer : Options → Type 0
HasNoIssuer opts =
    (opts.default_issuer_enabled ≡ false)
    ⊎ ((opts.issuer_ref.name ≡ []) × (opts.issuer_ref.kind ≡ []) × (opts.issuer_ref.group ≡ []))

pub handle_original_eq_ok_iff :
    (opts : Options) (r : IssuerReference)
    → (handle_original_issuer_ref opts ≡ ok r)
      ↔ ((opts.default_issuer_enabled ≡ true) × IsComplete opts.issuer_ref × (opts.issuer_ref ≡ r))
unfolding handle_original_issuer_ref
handle_original_eq_ok_iff opts r = ground arith

pub handle_original_eq_none_iff :
    (opts : Options) → (handle_original_issuer_ref opts ≡ err no_original_issuer) ↔ HasNoIssuer opts
unfolding handle_original_issuer_ref
handle_original_eq_none_iff opts = ground arith

-- How a started manager came about: with the complete issuer of the options, or with none and a
-- place to take the configuration from.
pub data Starts (opts : Options) (m : Manager) : Type 0 where
  with_issuer :
      opts.default_issuer_enabled ≡ true
      → IsComplete opts.issuer_ref
      → m ≡ started opts (some opts.issuer_ref)
      → Starts opts m
  without_issuer :
      HasNoIssuer opts
      → has_runtime_configuration opts ≡ true
      → m ≡ started opts none
      → Starts opts m

new_sound :
    (k c : Bool) (opts : Options) {m : Manager}
    → new k c opts ≡ ok m
    → (k ≡ true) × (c ≡ true) × Starts opts m
unfolding new
new_sound false c opts e = cc
new_sound true false opts e = cc
new_sound true true opts {m} e = elim (Result-cases (handle_original_issuer_ref opts)) [
  | inl (r, good) ↦
      let (enabled, complete, same) = (handle_original_eq_ok_iff opts r).0 good in
      (refl, refl, with_issuer enabled complete (ground arith))
  | inr (no_original_issuer, bad) ↦ (
    refl,
    refl,
    without_issuer ((handle_original_eq_none_iff opts).0 bad) (ground arith) (ground arith),
  )
  | inr (x, bad) ↦ ground arith
]

new_complete : (opts : Options) (m : Manager) → Starts opts m → new true true opts ≡ ok m
unfolding new
new_complete opts m (with_issuer enabled complete e) =
    ground (arith, (handle_original_eq_ok_iff opts opts.issuer_ref).1 (enabled, complete, refl))
new_complete opts m (without_issuer nothing configured e) =
    ground (arith, (handle_original_eq_none_iff opts).1 nothing)

-- New succeeds exactly when both clients can be built and either the default issuer is on and has
-- all its parts, which is then active, or there is no issuer and the options name a ConfigMap, and
-- then none is active. An issuer with some parts missing is refused.
pub new_iff :
    (k c : Bool) (opts : Options) (m : Manager)
    → (new k c opts ≡ ok m) ↔ ((k ≡ true) × (c ≡ true) × Starts opts m)
new_iff k c opts m = (new_sound k c opts, complete)
  where
    complete : (k ≡ true) × (c ≡ true) × Starts opts m → new k c opts ≡ ok m
    complete (kt, ct, s) = rw (kt, ct) (new_complete opts m s)
