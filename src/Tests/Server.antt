-- ===== src/Tests/Server.antt =====
-- cmd/server at a concrete configuration.
use drift_sentinel.Base.{
  true, Bool, false, ◌||◌, List, [], ◌∷◌, Option, none, some, if◌then◌else◌, ◌≡◌, ◌≢◌, ◌⊎◌, refl,
  inl, inr,
}
use drift_sentinel.Base.Text.{Text, codes, text_eq}
use drift_sentinel.Base.Result.{ok}
use drift_sentinel.Http.{Response, http_error}
use drift_sentinel.Rules.Watcher.{NamespaceAnswer, missing, valid_rules}
use drift_sentinel.Config.Kubernetes.{ClientLibrary, new_kubernetes_client}
use drift_sentinel.Server.{
  Endpoint, Mux, Process, endpoints, main, metrics_endpoint, returned, serve, signalled,
  validate_endpoint,
}
use drift_sentinel.Server.Serving.{main_iff}
use drift_sentinel.Server.AtRest.{holding, quiet-serve}
use drift_sentinel.Tests.{ascii}
use drift_sentinel.Tests.Admission.{unmarshal}
use drift_sentinel.Tests.Handler.{json, post}
use drift_sentinel.Tests.Metrics.{whole}
use drift_sentinel.Tests.Settings.{readers, env, settings, settings-IsLoaded}
use drift_sentinel.Tests.Watcher.{alone, config, noticed-IsTracked, run, settled, twice}

abbrev library : ClientLibrary
library = record {
  Connection = Text;
  Client = Text;
  build_config_from_flags = λ path. ok path;
  in_cluster_config = ok (codes "in-cluster");
  new_for_config = λ connection. ok connection;
}

abbrev repeats : Text → List Text → Bool
repeats pattern [] = false
repeats pattern (other ∷ others) = text_eq pattern other || repeats pattern others

-- Equal patterns conflict.
abbrev repeated : List Text → Option Text
repeated [] = none
repeated (pattern ∷ patterns) =
    let rest = repeated patterns in
    if repeats pattern patterns then some (codes "conflicts with pattern") else rest

-- The handler that is registered for exactly the path.
abbrev exact : List (Text × Endpoint) → Text → Response ⊎ Endpoint
exact [] path = inl (http_error [] (codes "404 page not found") 404)
exact ((pattern, endpoint) ∷ registered) path =
    let rest = exact registered path in if text_eq pattern path then inr endpoint else rest

abbrev mux : Mux
mux = record { registration_panic = repeated; dispatch = exact }

-- Everything goes well, and a signal comes.
abbrev process : Process
process = record {
  synced = λ resync timeout. true;
  waited = λ server. signalled;
  shutdown = λ timeout. none;
}

abbrev lister : Text → NamespaceAnswer
lister namespace = missing

main_iff_example : (main readers env library mux process).0 ≡ returned
unfolding new_kubernetes_client text_eq
main_iff_example = (main_iff readers env library mux process).1.1 (
  settings,
  record {
    loaded = settings-IsLoaded;
    client = (codes "in-cluster", refl);
    synced = refl;
    registered = refl;
  },
  inl (refl, refl),
)

dispatched : exact (endpoints settings) (codes "/validate") ≢ inr metrics_endpoint
unfolding text_eq
dispatched e = let other : validate_endpoint ≡ metrics_endpoint = cc in cc

quiet-serve_example :
    (serve unmarshal json lister mux settings
      (codes "/validate")
      (post (codes "review"))
      7
      settled.world).0
    ≡ (serve unmarshal json lister mux settings
        (codes "/validate")
        (post (codes "review"))
        7
        (holding unmarshal json lister (valid_rules (config ∷ config ∷ [])))).0
quiet-serve_example =
    quiet-serve unmarshal json lister noticed-IsTracked run (refl, refl) (config ∷ config ∷ [])
      alone twice mux settings (codes "/validate") (post (codes "review")) 7 dispatched
