-- ===== src/Rediscluster/Examples/Setup.antt =====
-- Tests of the configuration and of a new cluster of package rediscluster, and their theorems at concrete inputs.
use svckit.Base.{ℕ, zero, suc, ◌≤◌, ◌≡◌, [], ◌∷◌, none, some, Result, err, if◌then◌else◌, All}
use svckit.Base.Run.{done}
use svckit.Base.Text.{Text, codes, text_eq}
use svckit.Pgcluster.Urls.{Env}
use svckit.Pgcluster.Config.{positive_or}
use svckit.Rediscluster.Node.{ClusterConfig, ClusterAdapter, node_healthy}
use svckit.Rediscluster.Health.{Link}
use svckit.Rediscluster.Config.{
  load_config_from_env, min_idle_out_of_range, load_settings, non_negative_or, empty_config,
}
use svckit.Rediscluster.Config.Laws.{load_config_from_env-config_of}
use svckit.Rediscluster.Adapter.{AdapterError, new_cluster_adapter}
use svckit.Rediscluster.Reports.{get_metrics}
use svckit.Rediscluster.Adapter.Ready.{Constructed, new_cluster_adapter-Ready}
use svckit.Rediscluster.Reports.Metrics.{Between, get_metrics-Between}

-- An environment that sets one variable.
abbrev only : Text → Text → Env
only key value = λ k. if text_eq k key then value else []

-- A pool of five is smaller than the ten idle connections of the default.
load_config_from_env-config_of_example :
    load_config_from_env (only (codes "REDIS_MAX_POOL_SIZE") (codes "5")) (λ s. none) (codes "svc")
    ≡ err min_idle_out_of_range
unfolding text_eq positive_or non_negative_or load_settings
load_config_from_env-config_of_example =
    load_config_from_env-config_of (only (codes "REDIS_MAX_POOL_SIZE") (codes "5")) (λ s. none)
      (codes "svc")

abbrev two_nodes : ClusterConfig
two_nodes = record (empty_config (codes "svc")) {
  node_urls = codes "redis://a:6379/0" ∷ codes "redis://b:6379/0" ∷ [];
}

-- The first node does not answer.
abbrev links : ℕ → Link
links zero = record {
  parse_error = none;
  new_client = 5;
  ping_error = some (codes "refused");
  now = 1;
  latency = 0;
}
links (suc i) = record {
  parse_error = none;
  new_client = 6;
  ping_error = none;
  now = 2;
  latency = 3;
}

new_cluster_adapter-Ready_example :
    (r : Result AdapterError ClusterAdapter) × (new_cluster_adapter two_nodes (λ i. 0) links
      ≡ done r)
    × Constructed two_nodes links (codes "key") 7 r
new_cluster_adapter-Ready_example =
    new_cluster_adapter-Ready two_nodes (λ i. 0) links (codes "key") 7

abbrev idle : ClusterAdapter
idle = record { config = two_nodes; nodes = []; node_index = 0; primary_client = none }

abbrev adapter : ClusterAdapter
adapter = record idle {
  nodes =
      record {
        url = codes "redis://a:6379/0";
        name = codes "node-0";
        client = some 5;
        state = node_healthy;
        last_error = none;
        last_check = 0;
        last_latency = 4;
        ops_count = 9;
        error_count = 2;
      }
      ∷ [];
}

get_metrics-Between_example :
    ((get_metrics 8 adapter).min_latency ≤ (get_metrics 8 adapter).average_latency)
    × ((get_metrics 8 adapter).average_latency ≤ (get_metrics 8 adapter).max_latency)
    × All
        (λ n.
          Between
            (get_metrics 8 adapter).min_latency
            (get_metrics 8 adapter).max_latency
            n.last_latency)
        adapter.nodes
get_metrics-Between_example = get_metrics-Between 8 adapter
