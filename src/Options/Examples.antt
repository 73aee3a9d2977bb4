-- ===== src/Options/Examples.antt =====
-- The options of a command without arguments, with libraries that take all that they are given.
use istio_csr.Base.{◌≡◌, refl, true, none, [], ok, map, list_eq, nat_eq, present, is_distinct, All}
use istio_csr.Base.Text.{Str, bytes}
use istio_csr.Base.Int64.{pos}
use istio_csr.Options.{RestConfig, Libraries, Options, complete}
use istio_csr.Options.Flags.{set_default}
use istio_csr.Options.Prepared.{prepare, new}
use istio_csr.Options.Defaults.{
  HasDefault, name_of, shorthand_of, all_flags, prepare-HasDefault, IsDefault, Accepts, completed,
  complete-prepare-new,
}

-- A client configuration is its host, and a floating-point number is a text.
abbrev pub libraries : Libraries
libraries = record {
  Float = Str;
  minus_one = bytes "-1";
  Rest = Str;
  to_lower = λ s. s;
  validate_and_apply = λ format verbosity. none;
  configure = λ json. none;
  ConfigFlags = Str;
  nil_config_flags = [];
  new_config_flags = bytes "https://cluster";
  to_rest_config = λ flags. ok (record { qps = []; burst = pos 0; rest = flags });
  istiodcert = record { to_upper = λ s. s; is_dns1123_subdomain = λ name. true };
}

abbrev pub config : RestConfig Str Str
config = record { qps = []; burst = pos 0; rest = bytes "https://cluster" }

abbrev pub options : Options libraries
options = prepare libraries (set_default libraries) (new libraries)

accepted : Accepts libraries config
accepted = record { lower = refl; log_config = refl; istio_log = refl; kube = refl }

prepare-HasDefault_example :
    All (HasDefault libraries options) (all_flags libraries (new libraries))
    × (is_distinct (map (name_of libraries) (all_flags libraries (new libraries))) ≡ true)
    × (is_distinct (present (map (shorthand_of libraries) (all_flags libraries (new libraries))))
        ≡ true)
prepare-HasDefault_example =
    prepare-HasDefault libraries (set_default libraries) (new libraries) (λ o flag. refl)

complete-prepare-new_example :
    (complete libraries options ≡ ok (completed libraries config (set_default libraries)))
    × IsDefault libraries config (completed libraries config (set_default libraries))
complete-prepare-new_example =
    complete-prepare-new libraries (set_default libraries) config (λ o flag. refl) accepted
