-- ===== src/Pgcluster/Node.antt =====
-- The data of pgcluster/manager.go. A node's `*sql.DB` is a handle, `none` where it is nil; an error
-- is its text; instants and measured times are nanoseconds; `int` and configured durations are
-- integers. `read_index` is the bit pattern of an int64.
use svckit.Base.{ℕ, Bool, true, false, List, Option}
use svckit.Base.Int.{ℤ}
use svckit.Base.Text.{Text, codes}

pub data NodeRole : Type 0 where
  role_writer role_reader role_unknown : NodeRole

pub data NodeHealth : Type 0 where
  health_healthy health_degraded health_failed : NodeHealth

unfoldable pub role_string : NodeRole → Text
role_string role_writer = codes "writer"
role_string role_reader = codes "reader"
role_string role_unknown = codes "unknown"

unfoldable pub health_string : NodeHealth → Text
health_string health_healthy = codes "healthy"
health_string health_degraded = codes "degraded"
health_string health_failed = codes "failed"

pub record DatabaseNode : Type 0 where
  pub url : Text
  pub name : Text
  pub role : NodeRole
  pub health : NodeHealth
  pub priority : ℤ
  pub sql_db : Option ℕ
  pub last_check : ℕ
  pub last_error : Option Text
  pub read_count : ℕ
  pub write_count : ℕ
  pub error_count : ℕ
  pub response_time : ℕ

pub data WriterDetectionStrategy : Type 0 where
  strategy_dns strategy_query strategy_config strategy_probe : WriterDetectionStrategy

pub record ClusterConfig : Type 0 where
  pub writer_url : Text
  pub reader_urls : List Text
  pub writer_detection_strategy : WriterDetectionStrategy
  pub writer_detection_query : Text
  pub writer_dns_name : Text
  pub max_open_conns : ℤ
  pub max_idle_conns : ℤ
  pub conn_max_lifetime : ℤ
  pub conn_max_idle_time : ℤ
  pub health_check_interval : ℤ
  pub retry_attempts : ℤ
  pub retry_backoff_base : ℤ
  pub retry_backoff_max : ℤ
  pub circuit_breaker_threshold : ℤ
  pub circuit_breaker_timeout : ℤ
  pub read_balance_strategy : Text
  pub service_name : Text
  pub driver_name : Text

pub record ClusterManager : Type 0 where
  pub config : ClusterConfig
  pub nodes : List DatabaseNode
  pub read_index : ℕ
  pub circuit_open : Bool
  pub circuit_open_time : ℕ

-- node.Role == RoleWriter, node.Health == HealthHealthy
abbrev pub is_writer : NodeRole → Bool
is_writer role_writer = true
is_writer _ = false

abbrev pub is_reader : NodeRole → Bool
is_reader role_reader = true
is_reader _ = false

abbrev pub is_healthy : NodeHealth → Bool
is_healthy health_healthy = true
is_healthy _ = false
