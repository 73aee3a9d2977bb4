-- ===== src/Options/Flags.antt =====
-- The flags of the command for cmd/app/options/options.go: each is a variable of the options, a name,
-- a shorthand and a default, for pflag, which is a parameter. The usage texts are left out.
use istio_csr.Base.{ℕ, Bool, Option, List, [], ◌∷◌}
use istio_csr.Base.Int64.{ℤ}
use istio_csr.Base.Text.{Str}
use istio_csr.Base.Dict.{Dict}
use istio_csr.Certmanager
use istio_csr.Certmanager.{IssuerReference}
use istio_csr.Tls
use istio_csr.Server.Serving
use istio_csr.Istiodcert.Validation
use istio_csr.Options.{OptionsController, Libraries, Options}

module _ (lib : Libraries) where
  -- A pointer to a variable of the options: how to read it and how to write it.
  pub record Var (A : Type 0) : Type 0 where
    pub get : Options lib → A
    pub set : A → Options lib → Options lib

  abbrev pub var : {A : Type 0} → (Options lib → A) → (A → Options lib → Options lib) → Var A
  var get set = record { get = get; set = set }

  -- Variables of a component's options, and of the issuer reference in those of the client.
  abbrev pub tls : {A : Type 0} → (Tls.Options → A) → (A → Tls.Options → Tls.Options) → Var A
  tls get set = var (λ o. get o.tls) (λ v o. record o { tls = set v o.tls })

  abbrev pub cert_manager :
      {A : Type 0}
      → (Certmanager.Options → A)
      → (A → Certmanager.Options → Certmanager.Options)
      → Var A
  cert_manager get set =
      var (λ o. get o.cert_manager) (λ v o. record o { cert_manager = set v o.cert_manager })

  abbrev pub server :
      {A : Type 0} → (Serving.Options → A) → (A → Serving.Options → Serving.Options) → Var A
  server get set = var (λ o. get o.server) (λ v o. record o { server = set v o.server })

  abbrev pub controller :
      {A : Type 0} → (OptionsController → A) → (A → OptionsController → OptionsController) → Var A
  controller get set =
      var (λ o. get o.controller) (λ v o. record o { controller = set v o.controller })

  abbrev pub istiod_cert :
      {A : Type 0}
      → (Validation.Options → A)
      → (A → Validation.Options → Validation.Options)
      → Var A
  istiod_cert get set =
      var (λ o. get o.istiod_cert) (λ v o. record o { istiod_cert = set v o.istiod_cert })

  abbrev pub issuer_ref :
      {A : Type 0} → (IssuerReference → A) → (A → IssuerReference → IssuerReference) → Var A
  issuer_ref get set =
      cert_manager (λ c. get c.issuer_ref) (λ v c. record c { issuer_ref = set v c.issuer_ref })

  -- A flag, by the function of pflag that makes it: its variable, its name, its shorthand if it has
  -- one, and its default.
  pub data Flag : Type 0 where
    bool_var : Var Bool → Str → Option ℕ → Bool → Flag
    uint32_var : Var ℕ → Str → Option ℕ → ℕ → Flag
    int_var duration_var : Var ℤ → Str → Option ℕ → ℤ → Flag
    string_var : Var Str → Str → Option ℕ → Str → Flag
    string_slice_var : Var (List Str) → Str → Option ℕ → List Str → Flag
    string_to_string_var : Var (Dict Str) → Str → Option ℕ → Dict Str → Flag

  -- What pflag says that adding a flag does: its variable gets the default.
  unfoldable pub set_default : Options lib → Flag → Options lib
  set_default o (bool_var v name shorthand value) = v.set value o
  set_default o (uint32_var v name shorthand value) = v.set value o
  set_default o (int_var v name shorthand value) = v.set value o
  set_default o (duration_var v name shorthand value) = v.set value o
  set_default o (string_var v name shorthand value) = v.set value o
  set_default o (string_slice_var v name shorthand value) = v.set value o
  set_default o (string_to_string_var v name shorthand value) = v.set value o

  -- The flags of a set, added one after another by pflag, whose function is a parameter.
  unfoldable pub add_all :
      (Options lib → Flag → Options lib) → Options lib → List Flag → Options lib
  add_all add o [] = o
  add_all add o (flag ∷ flags) = add_all add (add o flag) flags
