-- ===== src/Config/Loaded.antt =====
-- When the configuration loads, and with which error it does not.
use mathlib.Core.Path.{subst}
use drift_sentinel.Base.{List, [], ◌∷◌, ◌++◌, ◌≡◌, ◌↔◌, ◌⊎◌, refl, sym, ap, ◌∙◌, inl, inr}
use drift_sentinel.Base.Text.{Text, codes}
use drift_sentinel.Base.Number.{ℤ}
use drift_sentinel.Base.Result.{Result, ok, err, out_of_fuel, ◌>>=◌, wrap}
use drift_sentinel.Config.{
  Config, Environment, Readers, default_address, default_health_path, default_metrics_path,
  default_validate_path, get_env, load,
}

-- A variable that must be read, with its default.
pub record Variable : Type 0 where
  pub key : Text
  pub fallback : Text
  pub read : Text → Result ℤ

abbrev pub message : Text → Text → Text
message key e = codes "parse " ++ (key ++ (codes ": " ++ e))

-- The value that was wrapped and handed on.
bind-ok :
    (g : Text → Text) (m : Result ℤ) (f : ℤ → Result Config) (c : Config)
    → (wrap g m >>= f) ≡ ok c
    → (a : ℤ) × (m ≡ ok a) × (f a ≡ ok c)
bind-ok g (ok a) f c e = (a, refl, e)
bind-ok g (err x) f c e = cc
bind-ok g out_of_fuel f c e = cc

ok_inj : {a b : Config} → ok a ≡ ok b → a ≡ b
ok_inj e = cc

-- The chain fails here, or further on.
bind-err :
    (g : Text → Text) (m : Result ℤ) (f : ℤ → Result Config) (e : Text) {Later : Type 0}
    → ((a : ℤ) → (f a ≡ err e) ↔ Later)
    → ((wrap g m >>= f) ≡ err e)
      ↔ (((x : Text) × (m ≡ err x) × (e ≡ g x)) ⊎ (((a : ℤ) × (m ≡ ok a)) × Later))
bind-err g (ok a) f e k = (
  λ h. inr ((a, refl), (k a).0 h),
  λ h. elim h [ inl (x, p, q) ↦ cc | inr (b, later) ↦ (k a).1 later ],
)
bind-err g (err x) f e k = (
  λ h. let same : g x ≡ e = cc in inl (x, refl, sym same),
  λ h. elim h [
    | inl (y, p, q) ↦ let same : x ≡ y = cc in ap err (ap g same ∙ sym q)
    | inr ((b, p), later) ↦ cc
  ],
)
bind-err g out_of_fuel f e k =
    (λ h. cc, λ h. elim h [ inl (y, p, q) ↦ cc | inr ((b, p), later) ↦ cc ])

module _ (readers : Readers) (env : Environment) where
  abbrev variable : Text → Text → Variable
  variable key fallback = record { key = key; fallback = fallback; read = readers.read_duration }

  -- In the order in which `Load` reads them.
  abbrev pub variables : List Variable
  variables =
      (record {
        key = codes "DRIFT_SENTINEL_LOG_LEVEL";
        fallback = codes "INFO";
        read = readers.read_level;
      })
      ∷ variable (codes "DRIFT_SENTINEL_READ_HEADER_TIMEOUT") (codes "5s")
      ∷ variable (codes "DRIFT_SENTINEL_READ_TIMEOUT") (codes "15s")
      ∷ variable (codes "DRIFT_SENTINEL_WRITE_TIMEOUT") (codes "15s")
      ∷ variable (codes "DRIFT_SENTINEL_IDLE_TIMEOUT") (codes "60s")
      ∷ variable (codes "DRIFT_SENTINEL_WATCH_RESYNC") (codes "30s")
      ∷ variable (codes "DRIFT_SENTINEL_STARTUP_SYNC_TIMEOUT") (codes "30s")
      ∷ variable (codes "DRIFT_SENTINEL_SHUTDOWN_TIMEOUT") (codes "10s")
      ∷ []

  abbrev pub value_of : Variable → Result ℤ
  value_of v = v.read (get_env env v.key v.fallback)

  -- The values of the variables.
  abbrev pub Values : List Variable → List ℤ → Type 0
  Values [] [] = Unit
  Values (v ∷ vs) (a ∷ rest) = (value_of v ≡ ok a) × Values vs rest
  Values _ _ = ⊥

  -- The first variable that cannot be read gives the error.
  abbrev pub FailsFirst : Text → List Variable → Type 0
  FailsFirst e [] = ⊥
  FailsFirst e (v ∷ vs) =
      ((x : Text) × (value_of v ≡ err x) × (e ≡ message v.key x))
      ⊎ (((a : ℤ) × (value_of v ≡ ok a)) × FailsFirst e vs)

  load-err : (e : Text) → (load readers env ≡ err e) ↔ FailsFirst e variables
  unfolding load
  load-err e = bind-err _ _ _ e λ a1. bind-err _ _ _ e λ a2. bind-err _ _ _ e λ a3.
      bind-err _ _ _ e λ a4. bind-err _ _ _ e λ a5.
        bind-err _ _ _ e
          λ a6. bind-err _ _ _ e λ a7. bind-err _ _ _ e λ a8. (λ h. cc, λ h. absurd h)

  -- Each field is the value of its variable, or of the default where the variable is not set or empty.
  pub record IsLoaded (c : Config) : Type 0 where
    pub address : c.address ≡ get_env env (codes "DRIFT_SENTINEL_ADDRESS") default_address
    pub health_path :
        c.health_path ≡ get_env env (codes "DRIFT_SENTINEL_HEALTH_PATH") default_health_path
    pub metrics_path :
        c.metrics_path ≡ get_env env (codes "DRIFT_SENTINEL_METRICS_PATH") default_metrics_path
    pub validate_path :
        c.validate_path ≡ get_env env (codes "DRIFT_SENTINEL_VALIDATE_PATH") default_validate_path
    pub kubeconfig_path : c.kubeconfig_path ≡ get_env env (codes "DRIFT_SENTINEL_KUBECONFIG") []
    pub tls_cert_file : c.tls_cert_file ≡ get_env env (codes "DRIFT_SENTINEL_TLS_CERT_FILE") []
    pub tls_key_file : c.tls_key_file ≡ get_env env (codes "DRIFT_SENTINEL_TLS_KEY_FILE") []
    pub values : Values variables (
        c.log_level ∷ c.read_header_timeout ∷ c.read_timeout ∷ c.write_timeout ∷ c.idle_timeout
        ∷ c.watch_resync ∷ c.startup_sync_timeout ∷ c.shutdown_timeout ∷ [])

  loaded : (a1 a2 a3 a4 a5 a6 a7 a8 : ℤ) → Config
  loaded a1 a2 a3 a4 a5 a6 a7 a8 = record {
    address = get_env env (codes "DRIFT_SENTINEL_ADDRESS") default_address;
    health_path = get_env env (codes "DRIFT_SENTINEL_HEALTH_PATH") default_health_path;
    metrics_path = get_env env (codes "DRIFT_SENTINEL_METRICS_PATH") default_metrics_path;
    validate_path = get_env env (codes "DRIFT_SENTINEL_VALIDATE_PATH") default_validate_path;
    kubeconfig_path = get_env env (codes "DRIFT_SENTINEL_KUBECONFIG") [];
    tls_cert_file = get_env env (codes "DRIFT_SENTINEL_TLS_CERT_FILE") [];
    tls_key_file = get_env env (codes "DRIFT_SENTINEL_TLS_KEY_FILE") [];
    log_level = a1;
    watch_resync = a6;
    startup_sync_timeout = a7;
    read_header_timeout = a2;
    read_timeout = a3;
    write_timeout = a4;
    idle_timeout = a5;
    shutdown_timeout = a8;
  }

  loaded-IsLoaded :
      (a1 a2 a3 a4 a5 a6 a7 a8 : ℤ)
      → Values variables (a1 ∷ a2 ∷ a3 ∷ a4 ∷ a5 ∷ a6 ∷ a7 ∷ a8 ∷ [])
      → IsLoaded (loaded a1 a2 a3 a4 a5 a6 a7 a8)
  unfolding loaded
  loaded-IsLoaded a1 a2 a3 a4 a5 a6 a7 a8 values = record {
    address = refl;
    health_path = refl;
    metrics_path = refl;
    validate_path = refl;
    kubeconfig_path = refl;
    tls_cert_file = refl;
    tls_key_file = refl;
    values = values;
  }

  load→IsLoaded : (c : Config) → load readers env ≡ ok c → IsLoaded c
  unfolding load loaded
  load→IsLoaded c h =
      let (a1, e1, h1) = bind-ok _ _ _ c h in
      let (a2, e2, h2) = bind-ok _ _ _ c h1 in
      let (a3, e3, h3) = bind-ok _ _ _ c h2 in
      let (a4, e4, h4) = bind-ok _ _ _ c h3 in
      let (a5, e5, h5) = bind-ok _ _ _ c h4 in
      let (a6, e6, h6) = bind-ok _ _ _ c h5 in
      let (a7, e7, h7) = bind-ok _ _ _ c h6 in
      let (a8, e8, h8) = bind-ok _ _ _ c h7 in
      let same : loaded a1 a2 a3 a4 a5 a6 a7 a8 ≡ c = ok_inj h8 in
      subst IsLoaded same
        (loaded-IsLoaded a1 a2 a3 a4 a5 a6 a7 a8 (e1, (e2, (e3, (e4, (e5, (e6, (e7, (e8, tt)))))))))

  values→load :
      (a1 a2 a3 a4 a5 a6 a7 a8 : ℤ)
      → Values variables (a1 ∷ a2 ∷ a3 ∷ a4 ∷ a5 ∷ a6 ∷ a7 ∷ a8 ∷ [])
      → load readers env ≡ ok (loaded a1 a2 a3 a4 a5 a6 a7 a8)
  unfolding load loaded
  values→load a1 a2 a3 a4 a5 a6 a7 a8 (e1, (e2, (e3, (e4, (e5, (e6, (e7, (e8, _)))))))) =
      rw (e1, e2, e3, e4, e5, e6, e7, e8) refl

  texts→same :
      (c : Config)
      → IsLoaded c
      → loaded c.log_level c.read_header_timeout c.read_timeout c.write_timeout c.idle_timeout
          c.watch_resync c.startup_sync_timeout c.shutdown_timeout
        ≡ c
  unfolding loaded
  texts→same c h = λ i. record c {
    address = sym h.address i;
    health_path = sym h.health_path i;
    metrics_path = sym h.metrics_path i;
    validate_path = sym h.validate_path i;
    kubeconfig_path = sym h.kubeconfig_path i;
    tls_cert_file = sym h.tls_cert_file i;
    tls_key_file = sym h.tls_key_file i;
  }

  IsLoaded→load : (c : Config) → IsLoaded c → load readers env ≡ ok c
  IsLoaded→load c h =
      values→load c.log_level c.read_header_timeout c.read_timeout c.write_timeout c.idle_timeout
        c.watch_resync c.startup_sync_timeout c.shutdown_timeout h.values
      ∙ ap ok (texts→same c h)

  -- `Load` gives a configuration exactly if all eight variables with a level or a duration (or their
  -- defaults, where a variable is not set or empty) can be read: the one with their values, and with the
  -- texts of the other seven. It gives an error exactly if the reading of one of the eight does, and those
  -- before it, in the order of their reading, can be read: that error, with the name of the variable.
  pub load_iff :
      ((c : Config) → (load readers env ≡ ok c) ↔ IsLoaded c)
      × ((e : Text) → (load readers env ≡ err e) ↔ FailsFirst e variables)
  load_iff = (λ c. (load→IsLoaded c, IsLoaded→load c), load-err)
