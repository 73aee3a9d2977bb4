-- ===== src/Options/Defaults.antt =====
-- The options of a command without arguments.
use std.Path.{fun_ext}
use istio_csr.Base.{
  ℕ, ◌≡◌, refl, sym, ap, subst, inl, inr, true, false, Option, none, some, List, [], ◌++◌, All, map,
  arith, ok, list_eq, nat_eq, list_beq, present, is_distinct,
}
use istio_csr.Base.Int64.{pos}
use istio_csr.Base.Text.{Str, bytes}
use istio_csr.Certmanager
use istio_csr.Certmanager.{IssuerReference, handle_original_issuer_ref}
use istio_csr.Istiodcert.Validation.{validate}
use istio_csr.Options.Completed.{IsCompleted, complete_iff}
use istio_csr.Options.{RestConfig, Libraries, Options, complete}
use istio_csr.Options.Flags.{
  Flag, set_default, add_all, bool_var, uint32_var, int_var, duration_var, string_var,
  string_slice_var, string_to_string_var,
}
use istio_csr.Options.FlagSets.{
  hour, app_flags, tls_flags, cert_manager_flags, additional_annotations_flags, server_flags,
  controller_flags, istiod_cert_flags,
}
use istio_csr.Options.Prepared.{add_flags, prepare, new}

-- pflag's function, by its documentation: a new flag gives its variable the default.
abbrev pub SetsDefaults : (lib : Libraries) → (Options lib → Flag lib → Options lib) → Type 0
SetsDefaults lib add = (o : Options lib) (flag : Flag lib) → add o flag ≡ set_default lib o flag

SetsDefaults-path :
    (lib : Libraries) (add : Options lib → Flag lib → Options lib)
    → SetsDefaults lib add
    → set_default lib ≡ add
SetsDefaults-path lib add sets = sym (fun_ext (λ o. fun_ext (λ flag. sets o flag)))

module _ (lib : Libraries) where
  -- The variable of a flag holds its default.
  abbrev pub HasDefault : Options lib → Flag lib → Type 0
  HasDefault o (bool_var v name shorthand value) = v.get o ≡ value
  HasDefault o (uint32_var v name shorthand value) = v.get o ≡ value
  HasDefault o (int_var v name shorthand value) = v.get o ≡ value
  HasDefault o (duration_var v name shorthand value) = v.get o ≡ value
  HasDefault o (string_var v name shorthand value) = v.get o ≡ value
  HasDefault o (string_slice_var v name shorthand value) = v.get o ≡ value
  HasDefault o (string_to_string_var v name shorthand value) = v.get o ≡ value

  abbrev pub name_of : Flag lib → Str
  name_of (bool_var v name shorthand value) = name
  name_of (uint32_var v name shorthand value) = name
  name_of (int_var v name shorthand value) = name
  name_of (duration_var v name shorthand value) = name
  name_of (string_var v name shorthand value) = name
  name_of (string_slice_var v name shorthand value) = name
  name_of (string_to_string_var v name shorthand value) = name

  abbrev pub shorthand_of : Flag lib → Option ℕ
  shorthand_of (bool_var v name shorthand value) = shorthand
  shorthand_of (uint32_var v name shorthand value) = shorthand
  shorthand_of (int_var v name shorthand value) = shorthand
  shorthand_of (duration_var v name shorthand value) = shorthand
  shorthand_of (string_var v name shorthand value) = shorthand
  shorthand_of (string_slice_var v name shorthand value) = shorthand
  shorthand_of (string_to_string_var v name shorthand value) = shorthand

  -- The flags of the command, without those of the client configuration.
  abbrev pub all_flags : Options lib → List (Flag lib)
  all_flags o =
      app_flags lib
      ++ (cert_manager_flags lib
          ++ (tls_flags lib o
              ++ (server_flags lib
                  ++ (controller_flags lib
                      ++ (additional_annotations_flags lib ++ istiod_cert_flags lib)))))

  have_defaults :
      (o : Options lib) → All (HasDefault (prepare lib (set_default lib) o)) (all_flags o)
  unfolding add_flags set_default add_all
  have_defaults o = ground arith

  names_distinct : (o : Options lib) → is_distinct (map name_of (all_flags o)) ≡ true
  unfolding is_distinct list_beq bytes
  names_distinct o = refl

  shorthands_distinct :
      (o : Options lib) → is_distinct (present (map shorthand_of (all_flags o))) ≡ true
  unfolding is_distinct
  shorthands_distinct o = refl

-- After Prepare every flag's variable holds the flag's default, whatever the options were before,
-- where pflag gives the variable of each new flag its default: no two flags share a variable, or a
-- name, or a shorthand.
pub prepare-HasDefault :
    (lib : Libraries) (add : Options lib → Flag lib → Options lib) (o : Options lib)
    → SetsDefaults lib add
    → All (HasDefault lib (prepare lib add o)) (all_flags lib o)
      × (is_distinct (map (name_of lib) (all_flags lib o)) ≡ true)
      × (is_distinct (present (map (shorthand_of lib) (all_flags lib o))) ≡ true)
prepare-HasDefault lib add o sets = (
  subst (λ a. All (HasDefault lib (prepare lib a o)) (all_flags lib o))
      (SetsDefaults-path lib add sets) (have_defaults lib o),
  names_distinct lib o,
  shorthands_distinct lib o,
)

-- cert-manager's issuer "istio-ca" in the namespace of the certificates.
abbrev pub default_issuer : IssuerReference
default_issuer = record {
  name = bytes "istio-ca";
  kind = bytes "Issuer";
  group = bytes "cert-manager.io";
}

-- What the command starts with if no argument is given.
pub record IsDefault (lib : Libraries) (config : RestConfig lib.Float lib.Rest) (o : Options lib)
    : Type 0 where
  pub log_format : o.log_format ≡ bytes "text"
  pub rest_config : o.rest_config ≡ some config
  -- the manager has the default issuer
  pub issuer :
      Certmanager.new true true o.cert_manager
      ≡ ok (record {
        opts = o.cert_manager;
        active_issuer_ref = some default_issuer;
        original_issuer_ref = some default_issuer;
        issuer_change_subscriptions = [];
        closed = [];
        next_subscription = 0;
        pending = [];
      })
  -- istiod's certificate is off, and a client's certificate is not enough
  pub no_istiod_cert : o.istiod_cert.enabled ≡ false
  pub no_client_cert : o.server.authenticators.enable_client_cert ≡ false
  pub no_node_accounts : o.server.ca_trusted_node_accounts ≡ []
  -- the roots come from the issuer, and certificates live for an hour
  pub no_root_file : o.tls.root_cas_cert_file ≡ []
  pub serving : o.tls.serving_certificate_duration ≡ hour
  pub maximum : o.server.maximum_client_certificate_duration ≡ hour

module _ (lib : Libraries) (config : RestConfig lib.Float lib.Rest) where
  -- The environment takes the defaults.
  pub record Accepts : Type 0 where
    pub lower : lib.to_lower (bytes "text") ≡ bytes "text"
    pub log_config : lib.validate_and_apply (bytes "text") 1 ≡ none
    pub istio_log : lib.configure false ≡ none
    pub kube : lib.to_rest_config lib.new_config_flags ≡ ok config

  -- The options afterwards.
  abbrev pub completed : (Options lib → Flag lib → Options lib) → Options lib
  completed add =
      let o = prepare lib add (new lib) in
      record o {
        log_format = bytes "text";
        rest_config = some config;
        istiod_cert = record o.istiod_cert { max_concurrent_reconciles = pos 1 };
      }

  completed-IsCompleted :
      Accepts
      → IsCompleted lib (prepare lib (set_default lib) (new lib)) (completed (set_default lib))
  unfolding add_flags set_default add_all validate list_beq bytes
  completed-IsCompleted a = record {
    format = inr refl;
    log_config = a.log_config;
    istio_log = a.istio_log;
    dns_names = λ e. cc;
    config = config;
    kube = a.kube;
    reconciles = omega arith;
    istiod = inl refl;
    same = ap (λ (f : Str). record (completed (set_default lib)) { log_format = f }) (sym a.lower);
  }

  completed-IsDefault : IsDefault lib config (completed (set_default lib))
  unfolding add_flags set_default add_all Certmanager.new handle_original_issuer_ref bytes
  completed-IsDefault = record {
    log_format = refl;
    rest_config = refl;
    issuer = refl;
    no_istiod_cert = refl;
    no_client_cert = refl;
    no_node_accounts = refl;
    no_root_file = refl;
    serving = refl;
    maximum = refl;
  }

-- Without arguments, where pflag gives the variable of each new flag its default, and the environment
-- takes the default log settings and gives a client configuration, the options are complete: the
-- manager can start with the issuer "istio-ca", istiod's certificate, client certificates and node
-- proxies are off, the roots come from the issuer, and certificates are asked for an hour at most.
pub complete-prepare-new :
    (lib : Libraries) (add : Options lib → Flag lib → Options lib)
    (config : RestConfig lib.Float lib.Rest)
    → SetsDefaults lib add
    → Accepts lib config
    → (complete lib (prepare lib add (new lib)) ≡ ok (completed lib config add))
      × IsDefault lib config (completed lib config add)
complete-prepare-new lib add config sets a =
    subst
      (λ f.
        (complete lib (prepare lib f (new lib)) ≡ ok (completed lib config f))
        × IsDefault lib config (completed lib config f))
      (SetsDefaults-path lib add sets)
      (
        (complete_iff lib (prepare lib (set_default lib) (new lib))
              (completed lib config (set_default lib))).1
            (completed-IsCompleted lib config a),
        completed-IsDefault lib config,
      )
