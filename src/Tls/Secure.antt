-- ===== src/Tls/Secure.antt =====
-- The invariant of the provider, over everything that changes it.
use istio_csr.Base.{
  ◌≤◌, ◌≡◌, sym, subst, ap, inl, inr, true, Option, none, some, List, [], ◌∷◌, arith, Result, ok,
  is_empty, Bool-cases,
}
use istio_csr.Base.Text.{Str}
use istio_csr.Certmanager.{Bundle}
use istio_csr.Server.Certificate.{Signer}
use istio_csr.Tls.{
  Options, Libraries, Config, Provider, verify_client_cert_if_given, version_tls12,
  apply_tls_security_settings, new_provider, subscribe_root_cas_event,
}
use istio_csr.Tls.Startup.{new_provider_iff}
use istio_csr.Tls.Roots.{
  Loads, unchanged, undecodable, changed, load_cas_root-Loads, AllBelow, AllBelow-append,
  AllBelow-suc, indices-AllBelow,
}
use istio_csr.Tls.Fetched.{Serves}
use istio_csr.Tls.Attempts.{Attempts, failed, failed_after, succeeded, fetch_certificate-Attempts}
use istio_csr.Tls.Fetch.{
  FetchError, indices, announce, update_roots, Event, subscribed, file_changed, fetched, stopped,
  step, run,
}

module _ (lib : Libraries) where
  open lib use {Verifier, KeyPair, pools}

  -- A configuration to serve with, for a trust domain.
  pub record IsSecure (trust_domain : Str) (c : Config lib) : Type 0 where
    pub version : version_tls12 ≤ c.min_version
    pub no_resumption : c.session_tickets_disabled ≡ true
    pub client_auth : c.client_auth ≡ verify_client_cert_if_given
    pub roots : Str
    pub verifier : Verifier
    pub mapped : lib.peer_cert_verifier trust_domain roots ≡ some verifier
    pub verifies : c.verify_peer_certificate ≡ some verifier
    pub client_cas : c.client_cas ≡ some (lib.get_general_cert_pool verifier)
    pub key_pair : KeyPair
    pub certificate : c.certificates ≡ key_pair ∷ []

  abbrev pub IsServing : Str → Option (Config lib) → Type 0
  IsServing trust_domain none = Unit
  IsServing trust_domain (some c) = IsSecure trust_domain c

  pub record Inv (opts : Options) (p : Provider lib) : Type 0 where
    pub opts_same : p.opts ≡ opts
    pub serving : IsServing opts.trust_domain p.tls_config
    pub recipients : AllBelow p.subscriptions p.pending

  new-Inv : (opts : Options) (p : Provider lib) → new_provider lib opts ≡ ok p → Inv opts p
  new-Inv opts p e =
      let n = (new_provider_iff lib opts p).0 e in
      record {
        opts_same = n.opts_same;
        serving = subst (IsServing opts.trust_domain) (sym n.no_config) tt;
        recipients = subst (AllBelow p.subscriptions) (sym n.no_pending) tt;
      }

  announce-Inv : (opts : Options) (p : Provider lib) → Inv opts p → Inv opts (announce lib p)
  announce-Inv opts p i = record {
    opts_same = i.opts_same;
    serving = i.serving;
    recipients =
        AllBelow-append p.subscriptions p.pending (indices p.subscriptions) i.recipients
          (indices-AllBelow p.subscriptions);
  }

  Loads-Inv :
      (opts : Options) (p : Provider lib) (pem : Str) {o : Option (Provider lib)}
      {p' : Provider lib}
      → Inv opts p
      → Loads lib p pem o
      → o ≡ some p'
      → Inv opts p'
  Loads-Inv opts p pem i (unchanged same) e = subst (Inv opts) (ground arith) i
  Loads-Inv opts p pem i (undecodable other bad) e = cc
  Loads-Inv opts p pem i (changed r other good own) e = subst (Inv opts) (ground arith) (
      announce-Inv opts (record p { root_cas = r })
        (record { opts_same = i.opts_same; serving = i.serving; recipients = i.recipients }))

  update-Inv :
      (opts : Options) (p : Provider lib) (bundle : Bundle) {p' : Provider lib}
      → Inv opts p
      → update_roots lib p bundle ≡ some p'
      → Inv opts p'
  unfolding update_roots
  update-Inv opts p bundle i e = elim (Bool-cases (is_empty p.opts.root_cas_cert_file)) [
    | inl own ↦ Loads-Inv opts p bundle.ca i (load_cas_root-Loads lib p bundle.ca) (ground arith)
    | inr file ↦ subst (Inv opts) (ground arith) i
  ]

  Serves-IsSecure :
      (p : Provider lib) (bundle : Bundle) (pk : Str) {c : Config lib} {t : lib.Time}
      → Serves lib p bundle pk c t
      → IsSecure p.opts.trust_domain c
  unfolding apply_tls_security_settings
  Serves-IsSecure p bundle pk {c} s = record {
    version = ground (arith, s.config_eq);
    no_resumption = ap (λ (x : Config lib). x.session_tickets_disabled) s.config_eq;
    client_auth = ap (λ (x : Config lib). x.client_auth) s.config_eq;
    roots = p.root_cas.pem;
    verifier = s.verifier;
    mapped = s.mapped;
    verifies = ap (λ (x : Config lib). x.verify_peer_certificate) s.config_eq;
    client_cas = ap (λ (x : Config lib). x.client_cas) s.config_eq;
    key_pair = s.key_pair;
    certificate = ap (λ (x : Config lib). x.certificates) s.config_eq;
  }

  Attempts-Inv :
      {E : Type 0} (signer : Signer E) (opts : Options) (p : Provider lib)
      {out : Provider lib × Result (FetchError E) lib.Time}
      → Inv opts p
      → Attempts lib signer p out
      → Inv opts out.0
  Attempts-Inv signer opts p i (failed e) = i
  Attempts-Inv signer opts p i (failed_after bundle p' e updated) =
      update-Inv opts p bundle i updated
  Attempts-Inv signer opts p i (succeeded f) =
      let j = update-Inv opts p f.bundle i f.updated in
      subst (Inv opts) (sym f.after_eq) (record {
        opts_same = j.opts_same;
        serving =
            subst (λ (o : Options). IsSecure o.trust_domain f.c) j.opts_same
              (Serves-IsSecure f.p' f.bundle f.pk f.serves);
        recipients = j.recipients;
      })

  step-Inv :
      {E : Type 0} (opts : Options) (p : Provider lib) (e : Event lib E)
      → Inv opts p
      → Inv opts (step lib p e)
  unfolding step subscribe_root_cas_event
  step-Inv opts p subscribed i = record {
    opts_same = i.opts_same;
    serving = i.serving;
    recipients = AllBelow-suc p.subscriptions p.pending i.recipients;
  }
  step-Inv opts p (file_changed r) i = elim (Bool-cases (is_empty p.opts.root_cas_cert_file)) [
    | inl own ↦ subst (Inv opts) (ground arith) i
    | inr file ↦ subst (Inv opts) (ground arith) (
        announce-Inv opts (record p { root_cas = r })
          (record { opts_same = i.opts_same; serving = i.serving; recipients = i.recipients }))
  ]
  step-Inv opts p (fetched signer) i =
      Attempts-Inv signer opts p i (fetch_certificate-Attempts lib signer p)
  step-Inv opts p stopped i = record {
    opts_same = i.opts_same;
    serving = tt;
    recipients = i.recipients;
  }

  run-Inv :
      {E : Type 0} (opts : Options) (p : Provider lib) (es : List (Event lib E))
      → Inv opts p
      → Inv opts (run lib p es)
  unfolding run
  run-Inv opts p [] i = i
  run-Inv opts p (e ∷ es) i = run-Inv opts (step lib p e) es (step-Inv opts p e i)

-- From NewProvider on, through subscriptions, changes of the root file, fetches that fail or
-- succeed and the end of Start: what the provider serves, where it serves, is a configuration with
-- TLS 1.2 at least, without session tickets, with one certificate, and with a verifier of client
-- certificates that was made for the trust domain of the options; and every message to a subscriber
-- has a recipient.
pub run-new_provider-Inv :
    (lib : Libraries) {E : Type 0} (opts : Options) (p : Provider lib) (es : List (Event lib E))
    → new_provider lib opts ≡ ok p
    → Inv lib opts (run lib p es)
run-new_provider-Inv lib opts p es e = run-Inv lib opts p es (new-Inv lib opts p e)
