-- ===== src/Rediscluster/Reports.antt =====
-- The reports on a cluster in rediscluster/adapter.go: its health and its metrics.
pub mod Metrics
use svckit.Base.{
  ℕ, zero, suc, ◌+◌, ◌/◌, ltb, ◌==◌, ◌||◌, List, [], ◌∷◌, map, Option, if◌then◌else◌, length,
}
use svckit.Base.Text.{Text}
use svckit.Rediscluster.Node.{NodeState, RedisNode, ClusterAdapter, is_healthy}
use svckit.Rediscluster.Urls.{mask_url}

pub record NodeHealth : Type 0 where
  pub name : Text
  pub url : Text
  pub state : NodeState
  pub last_error : Option Text
  pub last_check : ℕ
  pub latency : ℕ
  pub ops_count : ℕ
  pub error_count : ℕ

pub record ClusterHealth : Type 0 where
  pub nodes : List NodeHealth
  pub total_nodes : ℕ
  pub healthy_nodes : ℕ
  pub timestamp : ℕ

abbrev pub node_health : RedisNode → NodeHealth
node_health n = record {
  name = n.name;
  url = mask_url n.url;
  state = n.state;
  last_error = n.last_error;
  last_check = n.last_check;
  latency = n.last_latency;
  ops_count = n.ops_count;
  error_count = n.error_count;
}

unfoldable pub count_healthy : List RedisNode → ℕ
count_healthy [] = 0
count_healthy (n ∷ ns) = if is_healthy n.state then suc (count_healthy ns) else count_healthy ns

-- `GetClusterHealth()`
unfoldable pub get_cluster_health : ℕ → ClusterAdapter → ClusterHealth
unfolding mask_url count_healthy
get_cluster_health now ca = record {
  nodes = map node_health ca.nodes;
  total_nodes = length ca.nodes;
  healthy_nodes = count_healthy ca.nodes;
  timestamp = now;
}

-- The totals of the loop of `GetMetrics`.
pub record Totals : Type 0 where
  pub operations : ℕ
  pub failed : ℕ
  pub latency : ℕ
  pub latency_count : ℕ
  pub least : ℕ
  pub greatest : ℕ

abbrev pub with_latency : ℕ → Totals → Totals
with_latency zero t = t
with_latency (suc l) t = record t {
  latency = t.latency + suc l;
  latency_count = suc t.latency_count;
  greatest = if ltb t.greatest (suc l) then suc l else t.greatest;
  least = if t.least == 0 || ltb (suc l) t.least then suc l else t.least;
}

abbrev pub add_node : RedisNode → Totals → Totals
add_node n t =
    with_latency n.last_latency
      (record t { operations = t.operations + n.ops_count; failed = t.failed + n.error_count })

unfoldable pub total_from : Totals → List RedisNode → Totals
total_from t [] = t
total_from t (n ∷ ns) = total_from (add_node n t) ns

pub record ClusterMetrics : Type 0 where
  pub total_operations : ℕ
  pub failed_operations : ℕ
  pub average_latency : ℕ
  pub min_latency : ℕ
  pub max_latency : ℕ
  pub timestamp : ℕ

abbrev pub no_totals : Totals
no_totals = record {
  operations = 0;
  failed = 0;
  latency = 0;
  latency_count = 0;
  least = 0;
  greatest = 0;
}

abbrev pub average : ℕ → ℕ → ℕ
average total zero = 0
average total (suc count) = total / suc count

abbrev pub metrics_of : ℕ → Totals → ClusterMetrics
metrics_of now t = record {
  total_operations = t.operations;
  failed_operations = t.failed;
  average_latency = average t.latency t.latency_count;
  min_latency = t.least;
  max_latency = t.greatest;
  timestamp = now;
}

-- `GetMetrics()`
unfoldable pub get_metrics : ℕ → ClusterAdapter → ClusterMetrics
unfolding total_from
get_metrics now ca = metrics_of now (total_from no_totals ca.nodes)
