-- ===== src/Server.antt =====
-- cmd/server/main.go: how the parts are put together, and how `main` ends.
pub mod Serving
pub mod AtRest
use drift_sentinel.Base.{
  ℕ, Bool, true, false, [], ◌∷◌, List, Option, none, some, if◌then◌else◌, map, ◌⊎◌, inl, inr,
}
use drift_sentinel.Base.Text.{Text, Unicode, codes}
use drift_sentinel.Base.Number.{ℤ}
use drift_sentinel.Base.Result.{Result, ok, err, out_of_fuel}
use drift_sentinel.Http.{Response}
use drift_sentinel.Health.{health}
use drift_sentinel.Metrics.Registry.{Float64}
use drift_sentinel.Metrics.Render.{metrics_response}
use drift_sentinel.Rules.Store.{Store}
use drift_sentinel.Rules.Watcher.{World, NamespaceAnswer, resolve_mode}
use drift_sentinel.Admission.Review.{Json}
use drift_sentinel.Admission.Flow.{Unmarshalled, Validator, new_validator}
use drift_sentinel.Admission.Handler.{Request, serve_http}
use drift_sentinel.Config.{Config, Environment, Readers, load, tls_enabled}
use drift_sentinel.Config.Kubernetes.{ClientLibrary, new_kubernetes_client}

-- The three handlers.
pub data Endpoint : Type 0 where
  health_endpoint metrics_endpoint validate_endpoint : Endpoint

-- What is registered with the mux.
abbrev pub endpoints : Config → List (Text × Endpoint)
endpoints config =
    (config.health_path, health_endpoint)
    ∷ (config.metrics_path, metrics_endpoint)
    ∷ (config.validate_path, validate_endpoint)
    ∷ []

-- `http.ServeMux`: the panic of registering patterns one after the other, if one is invalid or conflicts
-- with another; and, for registered handlers and the path of a request, the handler that gets the
-- request, or the response of the mux itself.
pub record Mux : Type 0 where
  pub registration_panic : List Text → Option Text
  pub dispatch : List (Text × Endpoint) → Text → Response ⊎ Endpoint

-- `admission.NewValidator` on the store, and the resolver of the controller.
unfoldable pub validator_of : ⦃u : Unicode⦄ → (Text → NamespaceAnswer) → Store → Validator
unfolding new_validator
validator_of lister store = new_validator (some store) (some (resolve_mode lister))

module _ ⦃u : Unicode⦄ ⦃f : Float64⦄ (unmarshal : Text → Unmarshalled) (json : Json)
    (lister : Text → NamespaceAnswer) where
  -- A request that took that long; the store and the metrics are those of the controller.
  unfoldable pub serve_endpoint : Endpoint → Request → ℕ → World → Response × World
  unfolding health metrics_response serve_http validator_of
  serve_endpoint health_endpoint request duration w = (health request.method, w)
  serve_endpoint metrics_endpoint request duration w = (metrics_response w.metrics, w)
  serve_endpoint validate_endpoint request duration w =
      let (response, metrics) =
        serve_http unmarshal json (validator_of lister w.store) request duration w.metrics in
      (response, record w { metrics = metrics })

  abbrev pub serve_dispatched : Response ⊎ Endpoint → Request → ℕ → World → Response × World
  serve_dispatched (inl response) request duration w = (response, w)
  serve_dispatched (inr endpoint) request duration w = serve_endpoint endpoint request duration w

  unfoldable pub serve : Mux → Config → Text → Request → ℕ → World → Response × World
  unfolding serve_endpoint
  serve mux config path request duration w =
      serve_dispatched (mux.dispatch (endpoints config) path) request duration w

-- The fields of `http.Server`, and the files with which it serves TLS, if it does.
pub record Server : Type 0 where
  pub address : Text
  pub handler : List (Text × Endpoint)
  pub read_header_timeout : ℤ
  pub read_timeout : ℤ
  pub write_timeout : ℤ
  pub idle_timeout : ℤ
  pub tls_files : Option (Text × Text)

unfoldable pub server_of : Config → Server
unfolding tls_enabled
server_of config = record {
  address = config.address;
  handler = endpoints config;
  read_header_timeout = config.read_header_timeout;
  read_timeout = config.read_timeout;
  write_timeout = config.write_timeout;
  idle_timeout = config.idle_timeout;
  tls_files = if tls_enabled config then some (config.tls_cert_file, config.tls_key_file) else none;
}

-- How `main` ends: by `os.Exit(1)` after a log line with an error, by a panic, or by returning.
pub data Outcome : Type 0 where
  failed : Text → Text → Outcome
  panicked : Text → Outcome
  returned : Outcome

-- The error with which a server ends: `http.ErrServerClosed`, or another.
pub data ServeError : Type 0 where
  server_closed : ServeError
  broken : Text → ServeError

-- What `main` waits for: a signal, or the end of the server.
pub data Waited : Type 0 where
  signalled : Waited
  ended : Option ServeError → Waited

-- What the goroutine of the server sends.
abbrev pub unexpected : Option ServeError → Option Text
unexpected none = none
unexpected (some server_closed) = none
unexpected (some (broken e)) = some e

-- The rest of the process: whether the caches of the informers are in step in time, given the resync
-- period and the timeout, what comes first once the server runs, and the error of the server's
-- `Shutdown`, given its timeout.
pub record Process : Type 0 where
  pub synced : ℤ → ℤ → Bool
  pub waited : Server → Waited
  pub shutdown : ℤ → Option Text

-- The error of `Start`, after whose wait `rebuildRules` has none.
abbrev pub start_error : Bool → Option Text
start_error true = none
start_error false = some (codes "timed out waiting for informer caches to sync")

abbrev pub fail_or : Text → Option Text → Outcome → Outcome
fail_or message none outcome = outcome
fail_or message (some e) outcome = failed message e

unfoldable pub finish : Process → Config → Waited → Outcome
finish process config signalled =
    fail_or (codes "server shutdown failed") (process.shutdown config.shutdown_timeout) returned
finish process config (ended e) =
    fail_or (codes "server stopped unexpectedly") (unexpected e) returned

-- The outcome of `main`, and the server that it lets listen, if it does.
abbrev pub Run : Type 0
Run = Outcome × Option Server

unfoldable pub run_server : Process → Config → Run
unfolding server_of finish
run_server process config =
    let server = server_of config in (finish process config (process.waited server), some server)

abbrev pub or_exit {ℓ} : {A : Type ℓ} → Text → Result A → (A → Run) → Run
or_exit message (ok a) next = next a
or_exit message (err e) next = (failed message e, none)
or_exit message out_of_fuel next = (failed message [], none)

abbrev pub or_fail : Text → Option Text → Run → Run
or_fail message none next = next
or_fail message (some e) next = (failed message e, none)

abbrev pub or_panic : Option Text → Run → Run
or_panic none next = next
or_panic (some e) next = (panicked e, none)

module _ ⦃u : Unicode⦄ (readers : Readers) (env : Environment) (library : ClientLibrary) (mux : Mux)
    (process : Process) where
  unfoldable pub main : Run
  unfolding load new_kubernetes_client run_server
  main = or_exit (codes "failed to load config") (load readers env) λ config.
      or_exit (codes "failed to create kubernetes client")
        (new_kubernetes_client library config.kubeconfig_path)
        λ client.
          or_fail (codes "failed to start kubernetes caches")
            (start_error (process.synced config.watch_resync config.startup_sync_timeout))
            (or_panic (mux.registration_panic (map (λ e. e.0) (endpoints config)))
              (run_server process config))
