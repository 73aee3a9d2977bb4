-- ===== src/App/Rotations.antt =====
-- A rotation of the roots in a program that takes them from a file, and a change of the issuer.
use istio_csr.Base.{◌≡◌, ◌≢◌, refl, inr, true, false, none, some, List, [], ◌∷◌, ok}
use istio_csr.Base.Text.{Str, bytes}
use istio_csr.Certmanager.Examples.{issuer, data_of_issuer, setting, deleting, configures}
use istio_csr.Certmanager.Subscriptions.First.{
  wait_begins, wait_ends, watched as happens, Change, idle, change, change_all,
}
use istio_csr.Istiodcert.Examples.{empty_api}
use istio_csr.Rootca.{watch_error, event}
use istio_csr.Rootca.Examples.{roots, watched, watch_run, decodes_b}
use istio_csr.Tls.Examples.{libraries as tls_libraries, signer}
use istio_csr.Tls.Fetch
use istio_csr.Controller.Outcome.{IsSelected}
use istio_csr.Controller.Examples.{foo, cluster, cluster-IsFiled, foo_there}
use istio_csr.Options.{Options}
use istio_csr.Options.Examples.{libraries}
use istio_csr.App.{App, build}
use istio_csr.App.Examples.{env, given, completed, app, provisioner, build_run, building}
use istio_csr.App.Reissued.{IsCarried, build-reissues}
use istio_csr.App.Distributed.{IsDistributed, build-distributes}

-- The command line names a file for the roots.
abbrev with_file : Options libraries → Options libraries
with_file o = record o { tls = record o.tls { root_cas_cert_file = bytes "/ca.pem" } }

abbrev rooted : App env
rooted = record app {
  opts = with_file completed;
  provider = record app.provider { opts = (with_file given).tls };
}

rooted_run : build env (with_file given) ≡ ok rooted
unfolding building
rooted_run = refl

-- The file has another bundle at the start, and a certificate is fetched before it is written.
abbrev met : List (Fetch.Event tls_libraries Str)
met =
    Fetch.file_changed (roots (bytes "a"))
    ∷ Fetch.fetched signer
    ∷ Fetch.file_changed (roots (bytes "b"))
    ∷ []

b_filled : bytes "b" ≢ []
unfolding bytes
b_filled e = cc

foo-IsSelected : IsSelected rooted.controller foo
unfolding bytes
foo-IsSelected = record { matches = refl; stays = λ e. cc }

build-distributes_example :
    IsDistributed tls_libraries
      (Fetch.run tls_libraries rooted.provider met)
      rooted.controller
      (roots (bytes "b"))
      (bytes "b")
      cluster
      (bytes "foo")
unfolding bytes
build-distributes_example =
    build-distributes env (with_file given) rooted (some (bytes "a")) true
      (event true (some (bytes "a")) false none ∷ watch_error ∷ []) false none (bytes "b")
      (roots (bytes "b")) watched met cluster (bytes "foo") foo rooted_run refl watch_run
      (tt, (tt, tt)) decodes_b b_filled refl cluster-IsFiled foo_there foo-IsSelected

-- A wait has begun and the issuer of the start was restored when the ConfigMap is modified; the wait
-- ends before the goroutine runs; the provisioner was told before that there is no issuer.
abbrev before : List Change
before = wait_begins ∷ happens deleting ∷ []

abbrev after : List Change
after = wait_ends ∷ happens setting ∷ []

build-reissues_example :
    IsCarried
      (change (change_all (idle app.manager) before) (happens setting))
      after
      provisioner
      (none ∷ [])
      issuer
      empty_api
      (bytes "istio-system")
      (bytes "istiod-dynamic")
build-reissues_example =
    build-reissues env given app provisioner before setting issuer after (none ∷ []) empty_api
      (bytes "istio-system") (bytes "istiod-dynamic") build_run refl (inr refl)
      (data_of_issuer, refl, configures) (λ e bad. cc)
