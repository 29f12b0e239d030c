-- ===== src/Health.antt =====
-- Package health: the health of a service with its dependencies, in health/health.go. What the
-- dependencies answer is a parameter, except for the Redis cluster, whose report is that of
-- rediscluster. JSON and the formats of the times are left out.
pub mod Laws
mod Examples
use svckit.Base.{
  ℕ, ◌-◌, ◌/◌, ltb, ◌==◌, Bool, true, false, List, [], ◌∷◌, ◌++◌, Option, none, some, if◌then◌else◌,
}
use svckit.Base.Text.{Text, codes}
use svckit.Rediscluster.Node.{ClusterAdapter}
use svckit.Rediscluster.Reports.{get_cluster_health, ClusterHealth}

pub data Status : Type 0 where
  healthy degraded unhealthy : Status

-- The statistics of a publisher or a subscriber of package amqpcluster.
pub record Stats : Type 0 where
  pub service_name : Text
  pub exchange : Text
  pub total_nodes : ℕ
  pub healthy_nodes : ℕ

pub data Metric : Type 0 where
  redis_nodes : (total healthy : ℕ) → Metric
  rabbit_stats : Stats → Metric
  runtime_value : ℕ → Metric

-- `dependencies` and `metrics` are maps, of which every key is set once.
pub record ServiceHealth : Type 0 where
  pub status : Status
  pub version : Text
  pub uptime : ℕ
  pub timestamp : ℕ
  pub service : Text
  pub dependencies : List (Text × Bool)
  pub metrics : List (Text × Metric)

-- A dependency that is not set is nil.
pub record HealthChecker : Type 0 where
  pub service_name : Text
  pub version : Text
  pub start_time : ℕ
  pub db : Option ℕ
  pub redis : Option ℕ
  pub redis_cluster : Option ClusterAdapter
  pub rabbit_publisher : Option ℕ
  pub rabbit_subscriber : Option ℕ

unfoldable pub new_health_checker : ℕ → Text → Text → HealthChecker
new_health_checker now version service = record {
  service_name = service;
  version = version;
  start_time = now;
  db = none;
  redis = none;
  redis_cluster = none;
  rabbit_publisher = none;
  rabbit_subscriber = none;
}

abbrev pub set_database : Option ℕ → HealthChecker → HealthChecker
set_database db h = record h { db = db }

abbrev pub set_redis : Option ℕ → HealthChecker → HealthChecker
set_redis redis h = record h { redis = redis }

abbrev pub set_redis_cluster : Option ClusterAdapter → HealthChecker → HealthChecker
set_redis_cluster cluster h = record h { redis_cluster = cluster }

abbrev pub set_rabbit_publisher : Option ℕ → HealthChecker → HealthChecker
set_rabbit_publisher publisher h = record h { rabbit_publisher = publisher }

abbrev pub set_rabbit_subscriber : Option ℕ → HealthChecker → HealthChecker
set_rabbit_subscriber subscriber h = record h { rabbit_subscriber = subscriber }

-- What a check meets: the clock, the errors of the pings and of `TestConnection`, the statistics and
-- the values of package runtime.
pub record Findings : Type 0 where
  pub now : ℕ
  pub database_ping : Option Text
  pub redis_ping : Option Text
  pub test_connection : Option Text
  pub publisher_stats : Stats
  pub subscriber_stats : Stats
  pub goroutines : ℕ
  pub alloc : ℕ
  pub sys : ℕ
  pub gc_runs : ℕ
  pub cpu_count : ℕ

abbrev pub answers : Option Text → Bool
answers none = true
answers (some e) = false

abbrev pub depends : Text → Bool → ServiceHealth → ServiceHealth
depends name is_up s = record s {
  dependencies = s.dependencies ++ (name, is_up) ∷ [];
  status = if is_up then s.status else degraded;
}

abbrev pub measured : Text → Metric → ServiceHealth → ServiceHealth
measured name m s = record s { metrics = s.metrics ++ (name, m) ∷ [] }

unfoldable pub check_postgres : Option ℕ → Findings → ServiceHealth → ServiceHealth
check_postgres none f s = s
check_postgres (some db) f s = depends (codes "postgres") (answers f.database_ping) s

unfoldable pub check_redis : Option ℕ → Findings → ServiceHealth → ServiceHealth
check_redis none f s = s
check_redis (some redis) f s = depends (codes "redis") (answers f.redis_ping) s

-- The status after a report of the cluster; `old` is the one before.
abbrev pub cluster_status : ClusterHealth → Status → Status
cluster_status c old =
    if c.healthy_nodes == 0
    then unhealthy
    else (if ltb c.healthy_nodes c.total_nodes then degraded else old)

unfoldable pub check_redis_cluster :
    Option ClusterAdapter → Findings → ServiceHealth → ServiceHealth
unfolding get_cluster_health
check_redis_cluster none f s = s
check_redis_cluster (some ca) f s =
    let c = get_cluster_health f.now ca in
    measured (codes "redis_cluster_nodes") (redis_nodes c.total_nodes c.healthy_nodes) (record s {
      dependencies = s.dependencies ++ (codes "redis_cluster", ltb 0 c.healthy_nodes) ∷ [];
      status = cluster_status c s.status;
    })

unfoldable pub check_publisher : Option ℕ → Findings → ServiceHealth → ServiceHealth
check_publisher none f s = s
check_publisher (some publisher) f s =
    measured (codes "rabbitmq_publisher") (rabbit_stats f.publisher_stats)
      (depends (codes "rabbitmq_publisher") (answers f.test_connection) s)

unfoldable pub check_subscriber : Option ℕ → Findings → ServiceHealth → ServiceHealth
check_subscriber none f s = s
check_subscriber (some subscriber) f s =
    measured (codes "rabbitmq_subscriber") (rabbit_stats f.subscriber_stats)
      (depends (codes "rabbitmq_subscriber") (ltb 0 f.subscriber_stats.healthy_nodes) s)

unfoldable pub add_runtime_metrics : Findings → ServiceHealth → ServiceHealth
add_runtime_metrics f s = measured (codes "cpu_count") (runtime_value f.cpu_count) (
    measured (codes "gc_runs") (runtime_value f.gc_runs) (
      measured (codes "memory_sys_mb") (runtime_value (f.sys / 1024 / 1024)) (
        measured (codes "memory_alloc_mb") (runtime_value (f.alloc / 1024 / 1024))
          (measured (codes "goroutines") (runtime_value f.goroutines) s))))

-- Whole seconds since the start, which is before the check.
unfoldable pub fresh_health : HealthChecker → ℕ → ServiceHealth
fresh_health h now = record {
  status = healthy;
  version = h.version;
  uptime = (now - h.start_time) / 1_000_000_000;
  timestamp = now;
  service = h.service_name;
  dependencies = [];
  metrics = [];
}

-- `CheckHealth(ctx)`
unfoldable pub check_health : HealthChecker → Findings → ServiceHealth
unfolding check_postgres check_redis check_redis_cluster check_publisher check_subscriber
    add_runtime_metrics fresh_health
check_health h f = add_runtime_metrics f (
    check_subscriber h.rabbit_subscriber f (
      check_publisher h.rabbit_publisher f (
        check_redis_cluster h.redis_cluster f
          (check_redis h.redis f (check_postgres h.db f (fresh_health h f.now))))))

abbrev pub status_code : Status → ℕ
status_code healthy = 200
status_code degraded = 503
status_code unhealthy = 503

-- The status code and the body of `DetailedHealthHandler`.
unfoldable pub detailed_health_handler : HealthChecker → Findings → ℕ × ServiceHealth
unfolding check_health
detailed_health_handler h f = let s = check_health h f in (status_code s.status, s)
