-- ===== src/Tests/Settings.antt =====
-- pkg/config: loading on concrete inputs.
use drift_sentinel.Base.{[], ◌≡◌, refl, none, some, if◌then◌else◌}
use drift_sentinel.Base.Text.{Text, codes, text_eq}
use drift_sentinel.Base.Number.{ℤ, pos, negsuc}
use drift_sentinel.Base.Result.{Result, ok, err}
use drift_sentinel.Config.{Config, Environment, Readers, get_env, load}
use drift_sentinel.Config.Loaded.{IsLoaded, load_iff}

abbrev level_of : Text → Result ℤ
level_of s =
    if text_eq s (codes "INFO")
    then ok (pos 0)
    else if text_eq s (codes "DEBUG")
    then ok (negsuc 3)
    else err (codes "unknown name")

-- In seconds, for the durations of the tests.
abbrev duration_of : Text → Result ℤ
duration_of s =
    if text_eq s (codes "5s")
    then ok (pos 5)
    else if text_eq s (codes "10s")
    then ok (pos 10)
    else if text_eq s (codes "15s")
    then ok (pos 15)
    else if text_eq s (codes "30s")
    then ok (pos 30)
    else if text_eq s (codes "60s")
    then ok (pos 60)
    else err (codes "invalid duration")

abbrev pub readers : Readers
readers = record { read_level = level_of; read_duration = duration_of }

abbrev pub env : Environment
env key =
    if text_eq key (codes "DRIFT_SENTINEL_LOG_LEVEL")
    then some (codes "DEBUG")
    else if text_eq key (codes "DRIFT_SENTINEL_WRITE_TIMEOUT")
    then some (codes "10s")
    else if text_eq key (codes "DRIFT_SENTINEL_TLS_KEY_FILE")
    then some (codes "/tls.key")
    else if text_eq key (codes "DRIFT_SENTINEL_ADDRESS")
    then some []
    else none

abbrev broken : Environment
broken key = if text_eq key (codes "DRIFT_SENTINEL_IDLE_TIMEOUT") then some (codes "1") else env key

abbrev pub settings : Config
settings = record {
  address = codes ":8080";
  health_path = codes "/healthz";
  metrics_path = codes "/metrics";
  validate_path = codes "/validate";
  kubeconfig_path = [];
  tls_cert_file = [];
  tls_key_file = codes "/tls.key";
  log_level = negsuc 3;
  watch_resync = pos 30;
  startup_sync_timeout = pos 30;
  read_header_timeout = pos 5;
  read_timeout = pos 15;
  write_timeout = pos 10;
  idle_timeout = pos 60;
  shutdown_timeout = pos 10;
}

runs_broken :
    load readers broken ≡ err (codes "parse DRIFT_SENTINEL_IDLE_TIMEOUT: invalid duration")
unfolding load text_eq
runs_broken = refl

pub settings-IsLoaded : IsLoaded readers env settings
unfolding get_env text_eq
settings-IsLoaded = record {
  address = refl;
  health_path = refl;
  metrics_path = refl;
  validate_path = refl;
  kubeconfig_path = refl;
  tls_cert_file = refl;
  tls_key_file = refl;
  values = (refl, (refl, (refl, (refl, (refl, (refl, (refl, (refl, tt))))))));
}

load_iff_example : load readers env ≡ ok settings
load_iff_example = ((load_iff readers env).0 settings).1 settings-IsLoaded
