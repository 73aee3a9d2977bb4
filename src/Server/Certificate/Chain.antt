-- ===== src/Server/Certificate/Chain.antt =====
-- The chain that parseCertificateBundle returns.
use istio_csr.Base.{
  ◌≡◌, ◌≢◌, refl, ◌↔◌, inl, inr, true, Option, none, some, List, [], ◌∷◌, ◌++◌, arith, ok,
  Option-cases, Result-cases,
}
use istio_csr.Rootca.{RootCas}
use istio_csr.Base.Text.{Str}
use istio_csr.Certmanager.{Bundle}
use istio_csr.Server.Certificate.{Pki, encode_all, chain_of, parse_certificate_bundle}

module _ {Pool : Type 0} (pki : Pki Pool) where
  open pki use {Certificate, encode_x509}

  -- Each certificate's encoding, in order.
  pub data Encodes : List Certificate → List Str → Type 0 where
    done : Encodes [] []
    more :
        {cert : Certificate} {certs : List Certificate} {s : Str} {ss : List Str}
        → encode_x509 cert ≡ some s
        → Encodes certs ss
        → Encodes (cert ∷ certs) (s ∷ ss)

  encode_all_sound :
      (certs : List Certificate) {ss : List Str} → encode_all pki certs ≡ ok ss → Encodes certs ss
  unfolding encode_all
  encode_all_sound [] {ss = []} e = done
  encode_all_sound [] {ss = s ∷ ss} e = cc
  encode_all_sound (cert ∷ certs) {ss = []} e = elim (Option-cases (encode_x509 cert)) [
    | inl bad ↦ ground arith
    | inr (s', good) ↦ elim (Result-cases (encode_all pki certs)) [
      | inr (x, bad) ↦ ground arith
      | inl (ss', rest) ↦ ground arith
    ]
  ]
  encode_all_sound (cert ∷ certs) {ss = s ∷ ss} e = elim (Option-cases (encode_x509 cert)) [
    | inl bad ↦ ground arith
    | inr (s', good) ↦ elim (Result-cases (encode_all pki certs)) [
      | inr (x, bad) ↦ ground arith
      | inl (ss', rest) ↦ more (ground arith) (encode_all_sound certs (ground arith))
    ]
  ]

  encode_all_complete :
      {certs : List Certificate} {ss : List Str} → Encodes certs ss → encode_all pki certs ≡ ok ss
  unfolding encode_all
  encode_all_complete done = refl
  encode_all_complete (more e r) = ground (arith, encode_all_complete r)

  -- The chain of the answer: the issued leaf and its intermediates, verified against the mesh's
  -- roots, encoded in order, and the PEM of the roots at the end.
  pub record IsChain (root_cas : Option (RootCas Pool)) (bundle : Bundle) (chain : List Str)
      : Type 0 where
    pub chain_pem : Str
    pub parsed : pki.parse_single_certificate_chain_pem bundle.certificate ≡ some chain_pem
    pub leaf : Certificate
    pub intermediates : List Certificate
    pub decoded : pki.decode_x509_certificate_chain_bytes chain_pem ≡ some (leaf ∷ intermediates)
    pub roots : RootCas Pool
    pub given : root_cas ≡ some roots
    pub verified : pki.verify leaf intermediates roots.cert_pool ≡ true
    pub encoded : List Str
    pub encodes : Encodes (leaf ∷ intermediates) encoded
    pub chain_eq : chain ≡ encoded ++ roots.pem ∷ []

  module _ (root_cas : Option (RootCas Pool)) (ctx_err : Option Str)
      (ended : root_cas ≡ none → ctx_err ≢ none) (bundle : Bundle) where
    chain_sound :
        {chain : List Str}
        → parse_certificate_bundle pki root_cas ctx_err bundle ≡ ok chain
        → IsChain root_cas bundle chain
    unfolding parse_certificate_bundle chain_of
    chain_sound e =
        elim (Option-cases (pki.parse_single_certificate_chain_pem bundle.certificate)) [
          | inl bad ↦ ground arith
          | inr (chain_pem, parsed) ↦
              elim (Option-cases (pki.decode_x509_certificate_chain_bytes chain_pem)) [
                | inl bad ↦ ground arith
                | inr ([], empty) ↦ ground arith
                | inr (leaf ∷ intermediates, decoded) ↦ elim (Option-cases root_cas) [
                  | inl missing ↦ ground (arith, ended missing)
                  | inr (roots, given) ↦
                      elim (Result-cases (encode_all pki (leaf ∷ intermediates))) [
                        | inr (x, bad) ↦ ground arith
                        | inl (encoded, good) ↦ record {
                          chain_pem = chain_pem;
                          parsed = parsed;
                          leaf = leaf;
                          intermediates = intermediates;
                          decoded = decoded;
                          roots = roots;
                          given = given;
                          verified = ground arith;
                          encoded = encoded;
                          encodes = encode_all_sound (leaf ∷ intermediates) good;
                          chain_eq = ground arith;
                        }
                      ]
                ]
              ]
        ]

    chain_complete :
        {chain : List Str}
        → IsChain root_cas bundle chain
        → parse_certificate_bundle pki root_cas ctx_err bundle ≡ ok chain
    unfolding parse_certificate_bundle chain_of
    chain_complete c = ground (arith, encode_all_complete c.encodes)

-- If the TLS provider gives no roots only when the context has an error, a bundle is answered with
-- a chain exactly when its certificate is a single chain that decodes to a leaf and intermediates,
-- the leaf verifies against the roots of the mesh, and all of them can be encoded; the chain is
-- their encodings in order with the PEM of the roots last.
pub parse_certificate_bundle_iff :
    {Pool : Type 0} (pki : Pki Pool) (root_cas : Option (RootCas Pool)) (ctx_err : Option Str)
    (bundle : Bundle) (chain : List Str)
    → (root_cas ≡ none → ctx_err ≢ none)
    → (parse_certificate_bundle pki root_cas ctx_err bundle ≡ ok chain)
      ↔ IsChain pki root_cas bundle chain
parse_certificate_bundle_iff pki root_cas ctx_err bundle chain ended = (
  chain_sound pki root_cas ctx_err ended bundle,
  chain_complete pki root_cas ctx_err ended bundle,
)
