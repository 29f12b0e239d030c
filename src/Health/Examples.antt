-- ===== src/Health/Examples.antt =====
-- A test of the model of package health, and its theorem at a concrete service.
use svckit.Base.{◌≡◌, ◌↔◌, refl, [], ◌∷◌, none, some}
use svckit.Base.Text.{codes}
use svckit.Rediscluster.Node.{ClusterAdapter, RedisNode, NodeState, node_healthy, node_failed}
use svckit.Rediscluster.Reports.{get_cluster_health, count_healthy}
use svckit.Rediscluster.Config.{empty_config}
use svckit.Health.{
  Stats, HealthChecker, Findings, degraded, set_redis_cluster, set_rabbit_publisher,
  new_health_checker, check_health, check_postgres, check_redis, check_redis_cluster,
  check_publisher, check_subscriber, add_runtime_metrics, fresh_health, detailed_health_handler,
}
use svckit.Health.Laws.{IsFine, detailed_health_handler_iff}

abbrev node_in : NodeState → RedisNode
node_in state = record {
  url = codes "redis://a:6379/0";
  name = codes "node-0";
  client = some 5;
  state = state;
  last_error = none;
  last_check = 0;
  last_latency = 4;
  ops_count = 9;
  error_count = 2;
}

abbrev cluster_in : NodeState → ClusterAdapter
cluster_in state = record {
  config = empty_config (codes "billing");
  nodes = node_in state ∷ [];
  node_index = 0;
  primary_client = none;
}

abbrev stats : Stats
stats = record {
  service_name = codes "billing";
  exchange = codes "events";
  total_nodes = 1;
  healthy_nodes = 1;
}

abbrev findings : Findings
findings = record {
  now = 9_000_000_000;
  database_ping = none;
  redis_ping = none;
  test_connection = some (codes "closed");
  publisher_stats = stats;
  subscriber_stats = stats;
  goroutines = 12;
  alloc = 4_194_304;
  sys = 8_388_608;
  gc_runs = 3;
  cpu_count = 2;
}

abbrev with_cluster : NodeState → HealthChecker
with_cluster state =
    set_redis_cluster (some (cluster_in state))
      (new_health_checker 0 (codes "v1.2.0") (codes "billing"))

-- A publisher that fails hides that no node of the Redis cluster is left.
hidden_test :
    (check_health (set_rabbit_publisher (some 1) (with_cluster node_failed)) findings).status
    ≡ degraded
unfolding check_health check_postgres check_redis check_redis_cluster get_cluster_health
    count_healthy check_publisher check_subscriber add_runtime_metrics fresh_health
    new_health_checker
hidden_test = refl

detailed_health_handler_iff_example :
    ((detailed_health_handler (with_cluster node_healthy) findings).0 ≡ 200)
    ↔ IsFine (with_cluster node_healthy) findings
detailed_health_handler_iff_example =
    detailed_health_handler_iff (with_cluster node_healthy) findings
