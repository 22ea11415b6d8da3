-- ===== src/Config.antt =====
-- pkg/config/config.go: the configuration from the environment.
pub mod Loaded
pub mod Kubernetes
use drift_sentinel.Base.{Bool, not, ◌&&◌, [], ◌∷◌, ◌++◌, Option, none, some}
use drift_sentinel.Base.Text.{Text, codes, text_eq}
use drift_sentinel.Base.Number.{ℤ}
use drift_sentinel.Base.Result.{Result, ok, ◌>>=◌, wrap}

-- `os.LookupEnv`.
abbrev pub Environment : Type 0
Environment = Text → Option Text

-- `slog.Level.UnmarshalText` and `time.ParseDuration`, with their errors. A level is a number, and a
-- duration a number of nanoseconds.
pub record Readers : Type 0 where
  pub read_level : Text → Result ℤ
  pub read_duration : Text → Result ℤ

pub record Config : Type 0 where
  pub address : Text
  pub health_path : Text
  pub metrics_path : Text
  pub validate_path : Text
  pub kubeconfig_path : Text
  pub tls_cert_file : Text
  pub tls_key_file : Text
  pub log_level : ℤ
  pub watch_resync : ℤ
  pub startup_sync_timeout : ℤ
  pub read_header_timeout : ℤ
  pub read_timeout : ℤ
  pub write_timeout : ℤ
  pub idle_timeout : ℤ
  pub shutdown_timeout : ℤ

abbrev pub default_address : Text
default_address = codes ":8080"

abbrev pub default_health_path : Text
default_health_path = codes "/healthz"

abbrev pub default_metrics_path : Text
default_metrics_path = codes "/metrics"

abbrev pub default_validate_path : Text
default_validate_path = codes "/validate"

-- An empty variable counts as none.
abbrev pub or_fallback : Text → Option Text → Text
or_fallback fallback none = fallback
or_fallback fallback (some []) = fallback
or_fallback fallback (some (c ∷ s)) = c ∷ s

unfoldable pub get_env : Environment → Text → Text → Text
get_env env key fallback = or_fallback fallback (env key)

module _ (readers : Readers) (env : Environment) where
  unfoldable pub parse_duration_env : Text → Text → Result ℤ
  unfolding get_env
  parse_duration_env key fallback =
      wrap (λ e. codes "parse " ++ (key ++ (codes ": " ++ e)))
        (readers.read_duration (get_env env key fallback))

  unfoldable pub parse_log_level : Text → Result ℤ
  parse_log_level value =
      wrap (λ e. codes "parse DRIFT_SENTINEL_LOG_LEVEL: " ++ e) (readers.read_level value)

  unfoldable pub load : Result Config
  unfolding parse_duration_env parse_log_level get_env
  load = do
    log_level ← parse_log_level (get_env env (codes "DRIFT_SENTINEL_LOG_LEVEL") (codes "INFO"))
    read_header_timeout ←
        parse_duration_env (codes "DRIFT_SENTINEL_READ_HEADER_TIMEOUT") (codes "5s")
    read_timeout ← parse_duration_env (codes "DRIFT_SENTINEL_READ_TIMEOUT") (codes "15s")
    write_timeout ← parse_duration_env (codes "DRIFT_SENTINEL_WRITE_TIMEOUT") (codes "15s")
    idle_timeout ← parse_duration_env (codes "DRIFT_SENTINEL_IDLE_TIMEOUT") (codes "60s")
    watch_resync ← parse_duration_env (codes "DRIFT_SENTINEL_WATCH_RESYNC") (codes "30s")
    startup_sync_timeout ←
        parse_duration_env (codes "DRIFT_SENTINEL_STARTUP_SYNC_TIMEOUT") (codes "30s")
    shutdown_timeout ← parse_duration_env (codes "DRIFT_SENTINEL_SHUTDOWN_TIMEOUT") (codes "10s")
    ok (record {
      address = get_env env (codes "DRIFT_SENTINEL_ADDRESS") default_address;
      health_path = get_env env (codes "DRIFT_SENTINEL_HEALTH_PATH") default_health_path;
      metrics_path = get_env env (codes "DRIFT_SENTINEL_METRICS_PATH") default_metrics_path;
      validate_path = get_env env (codes "DRIFT_SENTINEL_VALIDATE_PATH") default_validate_path;
      kubeconfig_path = get_env env (codes "DRIFT_SENTINEL_KUBECONFIG") [];
      tls_cert_file = get_env env (codes "DRIFT_SENTINEL_TLS_CERT_FILE") [];
      tls_key_file = get_env env (codes "DRIFT_SENTINEL_TLS_KEY_FILE") [];
      log_level = log_level;
      watch_resync = watch_resync;
      startup_sync_timeout = startup_sync_timeout;
      read_header_timeout = read_header_timeout;
      read_timeout = read_timeout;
      write_timeout = write_timeout;
      idle_timeout = idle_timeout;
      shutdown_timeout = shutdown_timeout;
    })

unfoldable pub tls_enabled : Config → Bool
unfolding text_eq
tls_enabled config = not (text_eq config.tls_cert_file []) && not (text_eq config.tls_key_file [])
