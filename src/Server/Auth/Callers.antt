-- ===== src/Server/Auth/Callers.antt =====
-- Which caller the authenticators of a request give.
use istio_csr.Base.{
  ◌≡◌, inl, inr, some, List, [], ◌∷◌, list_eq, nat_eq, ok, err, Result-cases, arith,
}
use istio_csr.Server.Auth.{Caller, Authenticator, authenticate}

-- The first authenticator that answers with a caller: those before it answer with an error.
pub data FirstCaller {Context E : Type 0} (ctx : Context) (caller : Caller)
    : List (Authenticator Context E) → Type 0 where
  found :
      {a : Authenticator Context E} {others : List (Authenticator Context E)}
      → a ctx ≡ ok caller
      → FirstCaller ctx caller (a ∷ others)
  skipped :
      {a : Authenticator Context E} {others : List (Authenticator Context E)} (e : E)
      → a ctx ≡ err e
      → FirstCaller ctx caller others
      → FirstCaller ctx caller (a ∷ others)

module _ {Context E : Type 0} where
  pub authenticate_sound :
      (authenticators : List (Authenticator Context E)) (ctx : Context) {caller : Caller}
      → authenticate authenticators ctx ≡ some caller
      → FirstCaller ctx caller authenticators
  unfolding authenticate
  authenticate_sound [] ctx e = cc
  authenticate_sound (a ∷ others) ctx e = elim (Result-cases (a ctx)) [
    | inl (c, good) ↦ found (ground arith)
    | inr (x, bad) ↦ skipped x bad (authenticate_sound others ctx (ground arith))
  ]

  pub authenticate_complete :
      {ctx : Context} {caller : Caller} {authenticators : List (Authenticator Context E)}
      → FirstCaller ctx caller authenticators
      → authenticate authenticators ctx ≡ some caller
  unfolding authenticate
  authenticate_complete (found e) = ground arith
  authenticate_complete (skipped x e f) = ground (arith, authenticate_complete f)
