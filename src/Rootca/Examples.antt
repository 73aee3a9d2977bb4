-- ===== src/Rootca/Examples.antt =====
-- A run of the watcher of the root file.
use istio_csr.Base.{
  ◌≡◌, refl, true, false, none, some, List, [], ◌∷◌, ok, list_beq, list_eq, nat_eq,
}
use istio_csr.Base.Text.{Str, bytes}
use istio_csr.Rootca.{
  RootCas, Pools, Watcher, load_root_cas_file, reload_config, Signal, watch_error, event,
  watch_loop, watch, add_all, roots_of,
}
use istio_csr.Rootca.Broadcasts.{IsHistory, watch-IsHistory}

-- A bundle is one certificate, its text, and a pool is a list.
abbrev pub plain_pools : Pools
plain_pools = record {
  Certificate = Str;
  Pool = List Str;
  decode_x509_certificate_set_bytes = λ pem. some (pem ∷ []);
  new_cert_pool = [];
  add_cert = λ pool cert. cert ∷ pool;
}

abbrev pub roots : Str → RootCas (List Str)
roots pem = record { pem = pem; cert_pool = some (pem ∷ []) }

-- The file is removed and made anew with the same text, and then written.
abbrev changes : List (Signal plain_pools)
changes =
    event true (some (bytes "a")) false none
    ∷ watch_error
    ∷ event false none true (some (bytes "b"))
    ∷ []

abbrev pub watched : Watcher plain_pools
watched = record {
  root_cas_pem = bytes "b";
  broadcast = roots (bytes "a") ∷ roots (bytes "b") ∷ [];
}

pub watch_run : watch plain_pools (some (bytes "a")) true changes ≡ ok watched
unfolding watch watch_loop reload_config load_root_cas_file add_all bytes list_beq
watch_run = refl

watch-IsHistory_example :
    IsHistory plain_pools (bytes "b") (roots (bytes "a") ∷ roots (bytes "b") ∷ [])
watch-IsHistory_example =
    watch-IsHistory plain_pools (some (bytes "a")) true changes watched watch_run

pub decodes_b : roots_of plain_pools (bytes "b") ≡ some (roots (bytes "b"))
unfolding add_all
decodes_b = refl
