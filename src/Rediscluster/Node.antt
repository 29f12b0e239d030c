-- ===== src/Rediscluster/Node.antt =====
-- The data of rediscluster/adapter.go. A client is a handle, `none` where it is nil, and an instant is
-- in nanoseconds. The mutexes, the tomb and two fields that nothing reads are left out.
use svckit.Base.{ℕ, Bool, true, false, List, Option, ◌&&◌}
use svckit.Base.Int.{ℤ}
use svckit.Base.Text.{Text, is_some}

pub data NodeState : Type 0 where
  node_healthy node_degraded node_failed : NodeState

pub record RedisNode : Type 0 where
  pub url : Text
  pub name : Text
  pub client : Option ℕ
  pub state : NodeState
  pub last_error : Option Text
  pub last_check : ℕ
  pub last_latency : ℕ
  pub ops_count : ℕ
  pub error_count : ℕ

pub record ClusterConfig : Type 0 where
  pub node_urls : List Text
  pub service_name : Text
  pub password : Text
  pub max_pool_size : ℤ
  pub min_idle_conns : ℤ
  pub max_idle_time : ℤ
  pub conn_max_lifetime : ℤ
  pub health_check_interval : ℤ
  pub health_check_timeout : ℤ
  pub max_retries : ℤ
  pub retry_backoff_base : ℤ
  pub retry_backoff_max : ℤ
  pub circuit_breaker_threshold : ℤ
  pub circuit_breaker_timeout : ℤ
  pub load_balance_strategy : Text

pub record ClusterAdapter : Type 0 where
  pub config : ClusterConfig
  pub nodes : List RedisNode
  pub node_index : ℕ
  pub primary_client : Option ℕ

abbrev pub is_healthy : NodeState → Bool
is_healthy node_healthy = true
is_healthy _ = false

-- The test of `getHealthyNodes`.
abbrev pub is_usable : RedisNode → Bool
is_usable n = is_healthy n.state && is_some n.client
