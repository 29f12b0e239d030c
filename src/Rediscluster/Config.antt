-- ===== src/Rediscluster/Config.antt =====
-- The configuration of a cluster from the environment, in rediscluster/config.go. The environment is
-- a function that is empty where a variable is not set, and `durations` stands for
-- time.ParseDuration.
pub mod Laws
use svckit.Base.{
  ◌*◌, Bool, true, false, not, ◌||◌, List, [], ◌∷◌, map, Option, none, some, if◌then◌else◌, Result,
  ok, err,
}
use svckit.Base.Int.{ℤ, pos, ltb_ℤ, leb_ℤ}
use svckit.Base.Text.{Text, codes, split, trim_space, to_lower, atoi}
use svckit.Base.Text
use svckit.Pgcluster.Urls.{Env}
use svckit.Rediscluster.Urls.{named_or_single, with_additional}
use svckit.Pgcluster.Config.{positive_or, duration_or, nonzero_or, is_one_of, is_empty, second}
use svckit.Rediscluster.Node.{ClusterConfig}

pub data ConfigError : Type 0 where
  no_nodes_configured node_url_required service_name_required : ConfigError
  max_pool_not_positive min_idle_out_of_range health_interval_not_positive : ConfigError
  max_retries_negative invalid_load_balance_strategy : ConfigError

unfoldable pub with_urls : List Text → Text → ClusterConfig → Result ConfigError ClusterConfig
with_urls [] password c = err no_nodes_configured
with_urls (url ∷ urls) password c = ok (record c { node_urls = url ∷ urls; password = password })

-- `loadConnectionURLs()`, by the variable that lists the nodes; the password is loaded last, and only
-- where that is not set.
unfoldable pub load_urls : Env → Text → ClusterConfig → Result ConfigError ClusterConfig
unfolding named_or_single with_additional split trim_space with_urls
load_urls env (b ∷ s) c = ok (record c { node_urls = map trim_space (split (b ∷ s) (codes ",")) })
load_urls env [] c =
    with_urls (with_additional c.password env (named_or_single c.password env))
      (env (codes "REDIS_PASSWORD")) c

unfoldable pub load_connection_urls : Env → ClusterConfig → Result ConfigError ClusterConfig
unfolding load_urls
load_connection_urls env c = load_urls env (env (codes "REDIS_CLUSTER_NODES")) c

-- A variable that is read by strconv.Atoi and kept if it is not negative.
unfoldable pub non_negative_or : Text → ℤ → ℤ
unfolding atoi
non_negative_or s old = elim (atoi s) [ some n ↦ if ltb_ℤ n (pos 0) then old else n | none ↦ old ]

unfoldable pub load_connection_pool_settings :
    Env → (Text → Option ℤ) → ClusterConfig → ClusterConfig
unfolding positive_or non_negative_or
load_connection_pool_settings env durations c = record c {
  max_pool_size = positive_or (env (codes "REDIS_MAX_POOL_SIZE")) c.max_pool_size;
  min_idle_conns = non_negative_or (env (codes "REDIS_MIN_IDLE_CONNS")) c.min_idle_conns;
  max_idle_time = duration_or durations (env (codes "REDIS_MAX_IDLE_TIME")) c.max_idle_time;
  conn_max_lifetime =
      duration_or durations (env (codes "REDIS_CONN_MAX_LIFETIME")) c.conn_max_lifetime;
}

unfoldable pub load_health_settings : Env → (Text → Option ℤ) → ClusterConfig → ClusterConfig
unfolding non_negative_or
load_health_settings env durations c = record c {
  health_check_interval =
      duration_or durations (env (codes "REDIS_HEALTH_CHECK_INTERVAL")) c.health_check_interval;
  health_check_timeout =
      duration_or durations (env (codes "REDIS_HEALTH_CHECK_TIMEOUT")) c.health_check_timeout;
  max_retries = non_negative_or (env (codes "REDIS_MAX_RETRIES")) c.max_retries;
  retry_backoff_base =
      duration_or durations (env (codes "REDIS_RETRY_BACKOFF_BASE")) c.retry_backoff_base;
  retry_backoff_max =
      duration_or durations (env (codes "REDIS_RETRY_BACKOFF_MAX")) c.retry_backoff_max;
}

unfoldable pub load_circuit_breaker_settings :
    Env → (Text → Option ℤ) → ClusterConfig → ClusterConfig
unfolding positive_or
load_circuit_breaker_settings env durations c = record c {
  circuit_breaker_threshold =
      positive_or (env (codes "REDIS_CIRCUIT_BREAKER_THRESHOLD")) c.circuit_breaker_threshold;
  circuit_breaker_timeout =
      duration_or durations (env (codes "REDIS_CIRCUIT_BREAKER_TIMEOUT")) c.circuit_breaker_timeout;
}

abbrev pub valid_strategies : List Text
valid_strategies = codes "round_robin" ∷ codes "random" ∷ codes "hash" ∷ []

unfoldable pub known_strategy : Text → Text
unfolding is_one_of
known_strategy s = if is_one_of s valid_strategies then s else codes "round_robin"

unfoldable pub load_read_balancing_settings : Env → ClusterConfig → ClusterConfig
unfolding known_strategy to_lower
load_read_balancing_settings env c = record c {
  load_balance_strategy = known_strategy (to_lower (env (codes "REDIS_LOAD_BALANCE_STRATEGY")));
}

unfoldable pub set_defaults : ClusterConfig → ClusterConfig
set_defaults c = record c {
  max_pool_size = nonzero_or c.max_pool_size 100;
  min_idle_conns = nonzero_or c.min_idle_conns 10;
  max_idle_time = nonzero_or c.max_idle_time (30 * second);
  conn_max_lifetime = nonzero_or c.conn_max_lifetime (300 * second);
  health_check_interval = nonzero_or c.health_check_interval (30 * second);
  health_check_timeout = nonzero_or c.health_check_timeout (5 * second);
  max_retries = nonzero_or c.max_retries 3;
  retry_backoff_base = nonzero_or c.retry_backoff_base second;
  retry_backoff_max = nonzero_or c.retry_backoff_max (30 * second);
  circuit_breaker_threshold = nonzero_or c.circuit_breaker_threshold 5;
  circuit_breaker_timeout = nonzero_or c.circuit_breaker_timeout (60 * second);
}

abbrev pub no_nodes : List Text → Bool
no_nodes [] = true
no_nodes (url ∷ urls) = false

-- `Validate()`: `none` for no error.
unfoldable pub validate : ClusterConfig → Option ConfigError
unfolding is_one_of
validate c =
    if no_nodes c.node_urls
    then some node_url_required
    else if is_empty c.service_name
    then some service_name_required
    else if leb_ℤ c.max_pool_size (pos 0)
    then some max_pool_not_positive
    else if ltb_ℤ c.min_idle_conns (pos 0) || ltb_ℤ c.max_pool_size c.min_idle_conns
    then some min_idle_out_of_range
    else if leb_ℤ c.health_check_interval (pos 0)
    then some health_interval_not_positive
    else if ltb_ℤ c.max_retries (pos 0)
    then some max_retries_negative
    else if not (is_one_of c.load_balance_strategy valid_strategies)
    then some invalid_load_balance_strategy
    else none

-- `&ClusterConfig{ServiceName: serviceName}`
abbrev pub empty_config : Text → ClusterConfig
empty_config service = record {
  node_urls = [];
  service_name = service;
  password = [];
  max_pool_size = pos 0;
  min_idle_conns = pos 0;
  max_idle_time = pos 0;
  conn_max_lifetime = pos 0;
  health_check_interval = pos 0;
  health_check_timeout = pos 0;
  max_retries = pos 0;
  retry_backoff_base = pos 0;
  retry_backoff_max = pos 0;
  circuit_breaker_threshold = pos 0;
  circuit_breaker_timeout = pos 0;
  load_balance_strategy = [];
}

-- The settings that follow the URLs.
unfoldable pub load_settings : Env → (Text → Option ℤ) → ClusterConfig → ClusterConfig
unfolding load_connection_pool_settings load_health_settings load_circuit_breaker_settings
    load_read_balancing_settings set_defaults
load_settings env durations c = set_defaults (
    load_read_balancing_settings env (
      load_circuit_breaker_settings env durations
        (load_health_settings env durations (load_connection_pool_settings env durations c))))

unfoldable pub validated : ClusterConfig → Result ConfigError ClusterConfig
unfolding validate
validated c = elim (validate c) [ none ↦ ok c | some e ↦ err e ]

-- `LoadConfigFromEnv(serviceName)`
unfoldable pub load_config_from_env :
    Env → (Text → Option ℤ) → Text → Result ConfigError ClusterConfig
unfolding load_connection_urls load_settings validated
load_config_from_env env durations service =
    elim (load_connection_urls env (empty_config service)) [
      | err e ↦ err e
      | ok c ↦ validated (load_settings env durations c)
    ]
