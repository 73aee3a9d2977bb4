-- ===== src/Rootca.antt =====
-- pkg/tls/rootca/rootca.go: the roots of the mesh, and the watcher of the file that holds them.
pub mod Broadcasts
pub mod Examples
use istio_csr.Base.{
  ℕ, Bool, true, false, Option, none, some, List, [], ◌∷◌, ◌++◌, Result, ok, err, ◌==◌, list_eq,
  nat_eq, if◌then◌else◌,
}
use istio_csr.Base.Text.{Str}

-- RootCAs: the PEM, and the certificate pool, nil for none.
pub record RootCas (Pool : Type 0) : Type 0 where
  pub pem : Str
  pub cert_pool : Option Pool

-- What the code takes from cert-manager's pki and from crypto/x509's CertPool.
pub record Pools : Type 1 where
  pub Certificate : Type 0
  pub Pool : Type 0
  pub decode_x509_certificate_set_bytes : Str → Option (List Certificate)
  pub new_cert_pool : Pool
  pub add_cert : Pool → Certificate → Pool

module _ (pools : Pools) where
  open pools use {Certificate, Pool}

  -- The loop that adds the certificates to a pool.
  unfoldable pub add_all : Pool → List Certificate → Pool
  add_all pool [] = pool
  add_all pool (root_cert ∷ root_certs) = add_all (pools.add_cert pool root_cert) root_certs

  abbrev pub pool_of : List Certificate → Pool
  pool_of root_certs = add_all pools.new_cert_pool root_certs

  -- The roots of a bundle, if it decodes.
  abbrev pub roots_of : Str → Option (RootCas Pool)
  roots_of pem = elim (pools.decode_x509_certificate_set_bytes pem) [
    | none ↦ none
    | some root_certs ↦ some (record { pem = pem; cert_pool = some (pool_of root_certs) })
  ]

  -- The watcher: the PEM that it holds, and what it has sent to its channel, in order.
  pub record Watcher : Type 0 where
    pub root_cas_pem : Str
    pub broadcast : List (RootCas Pool)

  pub data LoadError : Type 0 where
    unreadable undecodable : LoadError

  -- loadRootCAsFile, from what reading the file gives: none for "not updated".
  unfoldable pub load_root_cas_file :
      Watcher → Option Str → Result LoadError (Option (RootCas Pool))
  load_root_cas_file w none = err unreadable
  load_root_cas_file w (some pem) =
      if pem == w.root_cas_pem
      then ok none
      else elim (roots_of pem) [ none ↦ err undecodable | some root_cas ↦ ok (some root_cas) ]

  abbrev pub send : RootCas Pool → Watcher → Watcher
  send root_cas w = record { root_cas_pem = root_cas.pem; broadcast = w.broadcast ++ root_cas ∷ [] }

  unfoldable pub reload_config : Watcher → Option Str → Watcher
  reload_config w file = elim (load_root_cas_file w file) [
    | err e ↦ w
    | ok none ↦ w
    | ok (some root_cas) ↦ send root_cas w
  ]

  -- What the loop of Watch meets: the end of the context, an error of the file watcher, or an
  -- event, with the tests `event.Op == fsnotify.Remove` and `event.Op&fsnotify.Write ==
  -- fsnotify.Write` and what reading the file gives at each of them.
  pub data Signal : Type 0 where
    context_done watch_error : Signal
    event : Bool → Option Str → Bool → Option Str → Signal

  unfoldable pub watch_loop : Watcher → List Signal → Watcher
  watch_loop w [] = w
  watch_loop w (context_done ∷ ss) = w
  watch_loop w (watch_error ∷ ss) = watch_loop w ss
  watch_loop w (event is_remove file is_write file' ∷ ss) =
      let removed = if is_remove then reload_config w file else w in
      let written = if is_write then reload_config removed file' else removed in
      watch_loop written ss

  pub data WatchError : Type 0 where
    not_loaded : LoadError → WatchError
    empty_bundle : WatchError
    no_file_watch : WatchError

  abbrev pub idle : Watcher
  idle = record { root_cas_pem = []; broadcast = [] }

  -- Watch: the first read of the file, whether the file can be watched, and the signals after that.
  unfoldable pub watch : Option Str → Bool → List Signal → Result WatchError Watcher
  watch file watched ss = elim (load_root_cas_file idle file) [
    | err e ↦ err (not_loaded e)
    | ok none ↦ err empty_bundle
    | ok (some root_cas) ↦
        if watched then ok (watch_loop (send root_cas idle) ss) else err no_file_watch
  ]
