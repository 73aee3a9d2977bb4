-- ===== src/Istiodcert/Examples.antt =====
-- Runs of the provisioner of istiod's certificate.
use istio_csr.Base.{◌≡◌, refl, true, none, some, [], ◌∷◌, err, list_beq, list_eq, nat_eq}
use istio_csr.Base.Int64.{pos}
use istio_csr.Base.Text.{Str, bytes}
use istio_csr.Certmanager.{IssuerReference}
use istio_csr.Istiodcert.Validation.{Options, Libraries, unset, check_key, check_names, validate}
use istio_csr.Istiodcert.Worker.{Provisioner, Api, not_found, start, reconcile}
use istio_csr.Istiodcert.Issuer.{start-untriggered}
use istio_csr.Istiodcert.Provisioned.{Provisions, reconcile-Provisions}

abbrev libraries : Libraries
libraries = record { to_upper = λ s. bytes "ECDSA"; is_dns1123_subdomain = λ name. true }

abbrev options : Options
options = record {
  enabled = true;
  certificate_name = bytes "istiod-dynamic";
  certificate_namespace = bytes "istio-system";
  duration = pos 3600;
  renew_before = pos 1800;
  key_algorithm = bytes "ecdsa";
  key_size = pos 0;
  cm_key_algorithm = unset;
  additional_dns_names = bytes "istiod.example" ∷ [];
  additional_annotations = [];
  istio_revisions = bytes "default" ∷ bytes "canary" ∷ [];
  max_concurrent_reconciles = pos 1;
}

validate_run : (validate libraries options).1 ≡ none
unfolding validate check_key check_names bytes list_beq
validate_run = refl

abbrev issuer : Str → IssuerReference
issuer name = record { name = name; kind = bytes "Issuer"; group = bytes "cert-manager.io" }

abbrev provisioner : Provisioner
provisioner = record {
  opts = options;
  initial_issuer_ref = some (issuer (bytes "first"));
  issuer_ref = some (issuer (bytes "first"));
  issuer_change_subscription = 0;
  trust_domain = bytes "td";
  triggered = 0;
}

start-untriggered_example :
    ((start provisioner (some (issuer (bytes "second")) ∷ none ∷ [])).issuer_ref
      ≡ some (issuer (bytes "first")))
    × ((start provisioner (some (issuer (bytes "second")) ∷ none ∷ [])).triggered
        ≡ (start provisioner (some (issuer (bytes "second")) ∷ [])).triggered)
start-untriggered_example =
    start-untriggered provisioner (some (issuer (bytes "second")) ∷ []) (issuer (bytes "first"))
      refl

abbrev pub empty_api : Api
empty_api = record { get = λ name. err not_found; create = λ cert. none; update = λ cert. none }

reconcile-Provisions_example :
    Provisions provisioner empty_api
      (bytes "istio-system")
      (bytes "istiod-dynamic")
      (reconcile provisioner empty_api (bytes "istio-system") (bytes "istiod-dynamic"))
reconcile-Provisions_example =
    reconcile-Provisions provisioner empty_api (bytes "istio-system") (bytes "istiod-dynamic")
