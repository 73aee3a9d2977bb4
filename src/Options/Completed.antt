-- ===== src/Options/Completed.antt =====
-- When the options of the command are complete, and what they are then.
use istio_csr.Base.{
  ◌≡◌, ◌≢◌, refl, sym, ap, subst, ◌∙◌, ◌↔◌, ◌⊎◌, inl, inr, true, false, none, some, [], arith, ok,
  err, ◌==◌, list_eq, nat_eq, list_beq_iff, Result-cases,
}
use istio_csr.Base.Int64.{pos, ◌≤ℤ◌}
use istio_csr.Base.Text.{Str, bytes}
use istio_csr.Istiodcert.Validation
use istio_csr.Istiodcert.Validity.{IsValid, validate_iff}
use istio_csr.Options.{RestConfig, Libraries, Options, format_of, limit, validated, complete}

module _ (lib : Libraries) (o : Options lib) where
  -- The options of istiod's certificate that are validated: the workers are those of the
  -- controller.
  abbrev shared : Validation.Options
  shared = record o.istiod_cert {
    max_concurrent_reconciles = o.controller.max_concurrent_reconciles;
  }

  -- The options are complete, and `o'` is what they are then.
  pub record IsCompleted (o' : Options lib) : Type 0 where
    pub format : (o'.log_format ≡ bytes "json") ⊎ (o'.log_format ≡ bytes "text")
    pub log_config : lib.validate_and_apply o'.log_format o.log_level ≡ none
    pub istio_log : lib.configure (o'.log_format == bytes "json") ≡ none
    pub dns_names : o.tls.serving_certificate_dns_names ≢ []
    pub config : RestConfig lib.Float lib.Rest
    pub kube : lib.to_rest_config o.kube_config_flags ≡ ok config
    pub reconciles : pos 1 ≤ℤ o.controller.max_concurrent_reconciles
    pub istiod : (o.istiod_cert.enabled ≡ false) ⊎ IsValid lib.istiodcert shared
    pub same : o' ≡ record o {
      log_format = format_of lib o.log_format;
      rest_config = some (limit lib o.controller.disable_kubernetes_client_rate_limiter config);
      istiod_cert = (Validation.validate lib.istiodcert shared).0;
    }

  format_iff :
      (f : Str)
      → ((f == bytes "json") ≡ true) ⊎ ((f == bytes "text") ≡ true)
      → (f ≡ bytes "json") ⊎ (f ≡ bytes "text")
  format_iff f (inl j) = inl ((list_beq_iff f (bytes "json")).0 j)
  format_iff f (inr t) = inr ((list_beq_iff f (bytes "text")).0 t)

  -- What the steps of the completion pass, in their order.
  record Passes (config : RestConfig lib.Float lib.Rest) (o' : Options lib) : Type 0 where
    known :
        ((format_of lib o.log_format == bytes "json") ≡ true)
        ⊎ ((format_of lib o.log_format == bytes "text") ≡ true)
    logs : lib.validate_and_apply (format_of lib o.log_format) o.log_level ≡ none
    istio_logs : lib.configure (format_of lib o.log_format == bytes "json") ≡ none
    names : o.tls.serving_certificate_dns_names ≢ []
    workers : pos 1 ≤ℤ o.controller.max_concurrent_reconciles
    valid : (validated lib o).1 ≡ none
    done : o' ≡ record o {
      log_format = format_of lib o.log_format;
      rest_config = some (limit lib o.controller.disable_kubernetes_client_rate_limiter config);
      istiod_cert = (Validation.validate lib.istiodcert shared).0;
    }

  complete-Passes :
      (config : RestConfig lib.Float lib.Rest) {o' : Options lib}
      → lib.to_rest_config o.kube_config_flags ≡ ok config
      → complete lib o ≡ ok o'
      → Passes config o'
  unfolding complete
  complete-Passes config kube e = record {
    known = ground arith;
    logs = ground arith;
    istio_logs = ground arith;
    names = ground arith;
    workers = ground arith;
    valid = ground arith;
    done = ground arith;
  }

  Passes-complete :
      (config : RestConfig lib.Float lib.Rest) {o' : Options lib}
      → lib.to_rest_config o.kube_config_flags ≡ ok config
      → Passes config o'
      → complete lib o ≡ ok o'
  unfolding complete
  Passes-complete config kube p =
      ground (arith, p.known, p.logs, p.istio_logs, p.names, p.workers, p.valid, p.done)

  without_config :
      (x : Str) {o' : Options lib}
      → lib.to_rest_config o.kube_config_flags ≡ err x
      → complete lib o ≢ ok o'
  unfolding complete
  without_config x bad e = ground arith

  Passes-IsCompleted :
      (config : RestConfig lib.Float lib.Rest) {o' : Options lib}
      → lib.to_rest_config o.kube_config_flags ≡ ok config
      → Passes config o'
      → IsCompleted o'
  Passes-IsCompleted config kube p = subst IsCompleted (sym p.done) (record {
    format = format_iff (format_of lib o.log_format) p.known;
    log_config = p.logs;
    istio_log = p.istio_logs;
    dns_names = p.names;
    config = config;
    kube = kube;
    reconciles = p.workers;
    istiod = (validate_iff lib.istiodcert shared).0 p.valid;
    same = refl;
  })

  IsCompleted-Passes : {o' : Options lib} (c : IsCompleted o') → Passes c.config o'
  IsCompleted-Passes {o'} c = record {
    known = elim c.format [
      | inl j ↦ inl ((list_beq_iff format (bytes "json")).1 (lowered ∙ j))
      | inr t ↦ inr ((list_beq_iff format (bytes "text")).1 (lowered ∙ t))
    ];
    logs = rw lowered c.log_config;
    istio_logs = rw lowered c.istio_log;
    names = c.dns_names;
    workers = c.reconciles;
    valid = (validate_iff lib.istiodcert shared).1 c.istiod;
    done = c.same;
  }
    where
      format : Str
      format = format_of lib o.log_format

      lowered : format ≡ o'.log_format
      lowered = sym (ap (λ (x : Options lib). x.log_format) c.same)

pub complete_iff :
    (lib : Libraries) (o o' : Options lib) → (complete lib o ≡ ok o') ↔ IsCompleted lib o o'
complete_iff lib o o' =
    (sound, λ c. Passes-complete lib o c.config c.kube (IsCompleted-Passes lib o c))
  where
    sound : complete lib o ≡ ok o' → IsCompleted lib o o'
    sound e = elim (Result-cases (lib.to_rest_config o.kube_config_flags)) [
      | inl (config, kube) ↦
          Passes-IsCompleted lib o config kube (complete-Passes lib o config kube e)
      | inr (x, bad) ↦ absurd (without_config lib o x bad e)
    ]
