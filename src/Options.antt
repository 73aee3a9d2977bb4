-- ===== src/Options.antt =====
-- cmd/app/options/options.go: the options of the command, and their completion.
pub mod Flags
pub mod FlagSets
pub mod Prepared
pub mod Completed
pub mod Defaults
pub mod Examples
use istio_csr.Base.{
  ℕ, ◌≡◌, Bool, true, false, not, ◌&&◌, ◌||◌, Option, none, some, List, [], ◌∷◌, ◌==◌, list_eq,
  nat_eq, Result, ok, err, ◌>>=◌, ◌>>◌, guard, is_empty, if◌then◌else◌,
}
use istio_csr.Base.Int64.{ℤ, pos, negsuc, ltb_ℤ}
use istio_csr.Base.Text.{Str, bytes}
use istio_csr.Certmanager
use istio_csr.Tls
use istio_csr.Server.Serving
use istio_csr.Istiodcert.Validation

pub record OptionsController : Type 0 where
  pub leader_election_namespace : Str
  pub config_map_namespace_selector : Str
  pub disable_kubernetes_client_rate_limiter : Bool
  pub max_concurrent_reconciles : ℤ

-- client-go's rest.Config: its rate limits, of which QPS is a floating-point number, and the rest.
pub record RestConfig (Float Rest : Type 0) : Type 0 where
  pub qps : Float
  pub burst : ℤ
  pub rest : Rest

-- What the completion takes from the libraries.
pub record Libraries : Type 1 where
  pub Float : Type 0
  pub minus_one : Float
  pub Rest : Type 0
  -- strings.ToLower
  pub to_lower : Str → Str
  -- logsapi.ValidateAndApply for a format and a verbosity, and istiolog.Configure, which is given
  -- whether to encode as JSON; a result is an error
  pub validate_and_apply : Str → ℕ → Option Str
  pub configure : Bool → Option Str
  -- genericclioptions' pointers to ConfigFlags, nil and what NewConfigFlags gives, and ToRESTConfig
  pub ConfigFlags : Type 0
  pub nil_config_flags : ConfigFlags
  pub new_config_flags : ConfigFlags
  pub to_rest_config : ConfigFlags → Result Str (RestConfig Float Rest)
  pub istiodcert : Validation.Libraries

module _ (lib : Libraries) where
  open lib use {Float, Rest, ConfigFlags, minus_one}

  -- The log level is a uint32. The base logger is left out.
  pub record Options : Type 0 where
    pub log_level : ℕ
    pub log_format : Str
    pub kube_config_flags : ConfigFlags
    pub readyz_port : ℤ
    pub readyz_path : Str
    pub metrics_port : ℤ
    pub rest_config : Option (RestConfig Float Rest)
    pub controller : OptionsController
    pub cert_manager : Certmanager.Options
    pub tls : Tls.Options
    pub server : Serving.Options
    pub istiod_cert : Validation.Options

  pub data CompleteError : Type 0 where
    invalid_log_format : CompleteError
    log_config_failed istio_log_failed rest_config_failed : Str → CompleteError
    no_dns_names : CompleteError
    too_few_reconciles : ℤ → CompleteError
    invalid_istiod_cert : List Validation.OptionError → CompleteError

  -- The format of the logs: text where none is given, in lower case.
  abbrev pub format_of : Str → Str
  format_of log_format = lib.to_lower (if is_empty log_format then bytes "text" else log_format)

  -- An error that a library gives, if it does.
  abbrev pub check_error : Option Str → (Str → CompleteError) → Result CompleteError (Unit {0})
  check_error none wrap = ok tt
  check_error (some e) wrap = err (wrap e)

  abbrev pub or_rest_error :
      Result Str (RestConfig Float Rest) → Result CompleteError (RestConfig Float Rest)
  or_rest_error (ok config) = ok config
  or_rest_error (err e) = err (rest_config_failed e)

  -- Negative limits turn client-go's rate limiter off.
  abbrev pub limit : Bool → RestConfig Float Rest → RestConfig Float Rest
  limit disabled config =
      if disabled then record config { qps = minus_one; burst = negsuc 0 } else config

  -- Validate of the options of istiod's certificate, with the concurrency of the controller.
  abbrev pub validated : Options → Validation.Options × Option (List Validation.OptionError)
  validated o =
      Validation.validate lib.istiodcert (record o.istiod_cert {
        max_concurrent_reconciles = o.controller.max_concurrent_reconciles;
      })

  -- Complete: the options afterwards. After an error its only caller ends.
  unfoldable pub complete : Options → Result CompleteError Options
  complete o = do
    let format = format_of o.log_format
    let json = format == bytes "json"
    guard (json || format == bytes "text") invalid_log_format
    check_error (lib.validate_and_apply format o.log_level) log_config_failed
    check_error (lib.configure json) istio_log_failed
    guard (not (is_empty o.tls.serving_certificate_dns_names)) no_dns_names
    config ← or_rest_error (lib.to_rest_config o.kube_config_flags)
    guard (not (ltb_ℤ o.controller.max_concurrent_reconciles (pos 1)))
        (too_few_reconciles o.controller.max_concurrent_reconciles)
    elim (validated o).1 [
      | some errors ↦ err (invalid_istiod_cert errors)
      | none ↦ ok (record o {
        log_format = format;
        rest_config = some (limit o.controller.disable_kubernetes_client_rate_limiter config);
        istiod_cert = (validated o).0;
      })
    ]
