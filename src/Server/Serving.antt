-- ===== src/Server/Serving.antt =====
-- When the server listens, and when `main` returns.
use mathlib.Core.Path.{subst}
use drift_sentinel.Base.{
  Bool, true, false, Option, none, some, map, ◌≡◌, ◌↔◌, ◌⊎◌, refl, ap, inl, inr,
}
use drift_sentinel.Base.Text.{Text, Unicode, codes}
use drift_sentinel.Base.Result.{Result, ok, err, out_of_fuel}
use drift_sentinel.Config.{Config, Environment, Readers}
use drift_sentinel.Config.Kubernetes.{ClientLibrary, new_kubernetes_client}
use drift_sentinel.Config.Loaded.{IsLoaded, load_iff}
use drift_sentinel.Server.{
  Mux, Process, Run, Server, Waited, endpoints, ended, fail_or, failed, finish, main, or_exit,
  or_fail, or_panic, panicked, returned, broken, server_closed, run_server, server_of, start_error,
  signalled,
}

-- A test of runs that those without a server do not pass.
record NeedsServer (P : Run → Type 0) : Type 0 where
  not_failed : (message e : Text) → ¬ P (failed message e, none)
  not_panicked : (e : Text) → ¬ P (panicked e, none)

module _ (P : Run → Type 0) (needs : NeedsServer P) where
  or_exit_iff :
      {A : Type 0} (message : Text) (m : Result A) (next : A → Run)
      → P (or_exit message m next) ↔ ((a : A) × (m ≡ ok a) × P (next a))
  or_exit_iff message (ok a) next =
      (λ h. (a, refl, h), λ (b, e, h). let same : b ≡ a = cc in subst (λ x. P (next x)) same h)
  or_exit_iff message (err e) next = (λ h. absurd (needs.not_failed message e h), λ (b, q, h). cc)
  or_exit_iff message out_of_fuel next =
      (λ h. absurd (needs.not_failed message _ h), λ (b, q, h). cc)

  or_fail_iff :
      (message : Text) (m : Option Text) (next : Run)
      → P (or_fail message m next) ↔ ((m ≡ none) × P next)
  or_fail_iff message none next = (λ h. (refl, h), λ (_, h). h)
  or_fail_iff message (some e) next = (λ h. absurd (needs.not_failed message e h), λ (q, h). cc)

  or_panic_iff : (m : Option Text) (next : Run) → P (or_panic m next) ↔ ((m ≡ none) × P next)
  or_panic_iff none next = (λ h. (refl, h), λ (_, h). h)
  or_panic_iff (some e) next = (λ h. absurd (needs.not_panicked e h), λ (q, h). cc)

fail_or_iff :
    (message : Text) (m : Option Text) → (fail_or message m returned ≡ returned) ↔ (m ≡ none)
fail_or_iff message none = (λ h. refl, λ h. refl)
fail_or_iff message (some e) = (λ h. cc, λ h. cc)

start_error_iff : (synced : Bool) → (start_error synced ≡ none) ↔ (synced ≡ true)
start_error_iff true = (λ h. refl, λ h. refl)
start_error_iff false = (λ h. cc, λ h. cc)

some_inj : {x y : Server} → some x ≡ some y → x ≡ y
some_inj e = cc

module _ ⦃u : Unicode⦄ (readers : Readers) (env : Environment) (library : ClientLibrary) (mux : Mux)
    (process : Process) where
  -- What must have gone well before the server listens, with that configuration.
  pub record IsReady (config : Config) : Type 0 where
    pub loaded : IsLoaded readers env config
    pub client :
        (c : library.Client) × (new_kubernetes_client library config.kubeconfig_path ≡ ok c)
    pub synced : process.synced config.watch_resync config.startup_sync_timeout ≡ true
    pub registered : mux.registration_panic (map (λ e. e.0) (endpoints config)) ≡ none

  -- The server ends by itself with no error, or as one that was closed.
  abbrev pub EndsAlone : Waited → Type 0
  EndsAlone w = (w ≡ ended none) ⊎ (w ≡ ended (some server_closed))

  -- A signal and a good shutdown, or an end of the server by itself.
  abbrev pub EndsWell : Config → Type 0
  EndsWell config =
      ((process.waited (server_of config) ≡ signalled)
        × (process.shutdown config.shutdown_timeout ≡ none))
      ⊎ EndsAlone (process.waited (server_of config))

  main-test :
      (P : Run → Type 0)
      → NeedsServer P
      → P (main readers env library mux process)
        ↔ ((config : Config) × IsReady config × P (run_server process config))
  unfolding main
  main-test P needs = (
    λ h.
        let (config, l, h1) = (or_exit_iff P needs _ _ _).0 h in
        let (client, c, h2) = (or_exit_iff P needs _ _ _).0 h1 in
        let (s, h3) = (or_fail_iff P needs _ _ _).0 h2 in
        let (r, h4) = (or_panic_iff P needs _ _).0 h3 in
        (
          config,
          record {
            loaded = ((load_iff readers env).0 config).0 l;
            client = (client, c);
            synced = (start_error_iff _).0 s;
            registered = r;
          },
          h4,
        ),
    λ (config, ready, h). (or_exit_iff P needs _ _ _).1 (
      config,
      ((load_iff readers env).0 config).1 ready.loaded,
      (or_exit_iff P needs _ _ _).1 (
        ready.client.0,
        ready.client.1,
        (or_fail_iff P needs _ _ _).1 (
          (start_error_iff _).1 ready.synced,
          (or_panic_iff P needs _ _).1 (ready.registered, h),
        ),
      ),
    ),
  )

  finish_iff :
      (config : Config) (w : Waited)
      → (finish process config w ≡ returned)
        ↔ (((w ≡ signalled) × (process.shutdown config.shutdown_timeout ≡ none)) ⊎ EndsAlone w)
  unfolding finish
  finish_iff config signalled =
      let (there, back) =
        fail_or_iff (codes "server shutdown failed") (process.shutdown config.shutdown_timeout) in
      (
        λ h. inl (refl, there h),
        λ h. elim h [ inl (q, r) ↦ back r | inr q ↦ elim q [ inl e ↦ cc | inr e ↦ cc ] ],
      )
  finish_iff config (ended none) = (λ h. inr (inl refl), λ h. refl)
  finish_iff config (ended (some server_closed)) = (λ h. inr (inr refl), λ h. refl)
  finish_iff config (ended (some (broken e))) =
      (λ h. cc, λ h. elim h [ inl (q, r) ↦ cc | inr q ↦ elim q [ inl x ↦ cc | inr x ↦ cc ] ])

  -- The server listens exactly if the configuration loads, the client of the cluster is created, the
  -- caches of the informers are in step in time and the three patterns can be registered: with the address, the timeouts and the three
  -- handlers of that configuration, and with TLS if it names both files. `main` returns exactly if
  -- moreover a signal comes and the shutdown goes well, or the server ends by itself with no error or
  -- with `http.ErrServerClosed`.
  pub main_iff :
      ((server : Server)
        → ((main readers env library mux process).1 ≡ some server)
          ↔ ((config : Config) × IsReady config × (server_of config ≡ server)))
      × (((main readers env library mux process).0 ≡ returned)
          ↔ ((config : Config) × IsReady config × EndsWell config))
  unfolding run_server
  main_iff = (
    λ server.
        let (there, back) =
          main-test (λ run. run.1 ≡ some server)
            (record { not_failed = λ m e h. cc; not_panicked = λ e h. cc }) in
        (
          λ h. let (config, ready, same) = there h in (config, ready, some_inj same),
          λ (config, ready, same). back (config, ready, ap some same),
        ),
    let (there, back) =
          main-test (λ run. run.0 ≡ returned)
            (record { not_failed = λ m e h. cc; not_panicked = λ e h. cc }) in
        (
          λ h. let (config, ready, same) = there h in (config, ready, (finish_iff config _).0 same),
          λ (config, ready, well). back (config, ready, (finish_iff config _).1 well),
        ),
  )
