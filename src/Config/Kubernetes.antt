-- ===== src/Config/Kubernetes.antt =====
-- pkg/config/kubernetes.go: the client of the cluster.
use drift_sentinel.Base.{if◌then◌else◌, not, [], ◌++◌}
use drift_sentinel.Base.Text.{Text, Unicode, codes, text_eq}
use drift_sentinel.Base.Quote.{quote}
use drift_sentinel.Base.Result.{Result, wrap, ◌>>=◌}

-- What the client library gives, with its errors: a connection from a kubeconfig file, the one inside
-- the cluster, and the client on a connection.
pub record ClientLibrary : Type 1 where
  pub Connection : Type 0
  pub Client : Type 0
  pub build_config_from_flags : Text → Result Connection
  pub in_cluster_config : Result Connection
  pub new_for_config : Connection → Result Client

module _ ⦃u : Unicode⦄ (library : ClientLibrary) where
  open library use {Connection, Client, build_config_from_flags, in_cluster_config, new_for_config}

  unfoldable pub load_rest_config : Text → Result Connection
  unfolding text_eq
  load_rest_config path =
      if not (text_eq path [])
      then wrap (λ e. codes "load kubeconfig " ++ (quote path ++ (codes ": " ++ e)))
          (build_config_from_flags path)
      else wrap (λ e. codes "load in-cluster config: " ++ e) in_cluster_config

  unfoldable pub new_kubernetes_client : Text → Result Client
  unfolding load_rest_config
  new_kubernetes_client path = do
    connection ← load_rest_config path
    wrap (λ e. codes "create kubernetes client: " ++ e) (new_for_config connection)
