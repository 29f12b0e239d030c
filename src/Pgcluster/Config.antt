-- ===== src/Pgcluster/Config.antt =====
-- The configuration of a cluster from the environment, in pgcluster/config.go. The environment is a
-- function that is empty where a variable is not set; `durations` stands for `time.ParseDuration`,
-- of which only the results matter here.
pub mod Laws
pub mod Readers
pub mod Mask
use svckit.Base.{
  ℕ, zero, ◌*◌, Bool, true, false, not, ◌||◌, List, [], ◌∷◌, Option, none, some, if◌then◌else◌,
  Result, ok, err,
}
use svckit.Base.Int.{ℤ, pos, eqb_ℤ, ltb_ℤ, leb_ℤ}
use svckit.Base.Text.{Text, codes, text_eq, to_lower, atoi}
use svckit.Base.Text
use svckit.Pgcluster.Urls.{Env, or_else, reader_urls_of, writer_url_of}
use svckit.Pgcluster.Node.{
  WriterDetectionStrategy, strategy_dns, strategy_query, strategy_config, strategy_probe,
  ClusterConfig,
}

pub data ConfigError : Type 0 where
  no_writer_url writer_url_required service_name_required : ConfigError
  max_open_not_positive max_idle_out_of_range health_interval_not_positive : ConfigError
  retry_attempts_not_positive invalid_read_balance_strategy : ConfigError

unfoldable pub with_urls : Text → List Text → ClusterConfig → Result ConfigError ClusterConfig
with_urls [] urls c = err no_writer_url
with_urls (b ∷ url) urls c = ok (record c { writer_url = b ∷ url; reader_urls = urls })

-- `loadConnectionURLs`
unfoldable pub load_connection_urls : Env → ClusterConfig → Result ConfigError ClusterConfig
unfolding with_urls writer_url_of reader_urls_of
load_connection_urls env c = with_urls (writer_url_of env) (reader_urls_of env c.reader_urls) c

-- The strategy of a name in lower case; any other name means the configured writer.
unfoldable pub strategy_of : Text → WriterDetectionStrategy
unfolding text_eq
strategy_of s =
    if text_eq s (codes "dns")
    then strategy_dns
    else if text_eq s (codes "query")
    then strategy_query
    else (if text_eq s (codes "probe") then strategy_probe else strategy_config)

-- `loadWriterDetectionSettings`
unfoldable pub load_writer_detection_settings : Env → ClusterConfig → ClusterConfig
unfolding strategy_of to_lower
load_writer_detection_settings env c =
    let strategy = to_lower (env (codes "DB_WRITER_DETECTION_STRATEGY")) in
    record c {
      writer_detection_strategy = strategy_of strategy;
      writer_dns_name =
          if text_eq strategy (codes "dns")
          then env (codes "DB_WRITER_DNS_NAME")
          else c.writer_dns_name;
      writer_detection_query =
          if text_eq strategy (codes "query")
          then env (codes "DB_WRITER_DETECTION_QUERY")
          else c.writer_detection_query;
    }

-- A variable that is read by `strconv.Atoi` and kept if it is positive; `old` is the field before.
unfoldable pub positive_or : Text → ℤ → ℤ
unfolding atoi
positive_or s old = elim (atoi s) [ some n ↦ if ltb_ℤ (pos 0) n then n else old | none ↦ old ]

-- A variable that is read by `time.ParseDuration`.
abbrev pub duration_or : (Text → Option ℤ) → Text → ℤ → ℤ
duration_or durations [] old = old
duration_or durations (c ∷ s) old = elim (durations (c ∷ s)) [ none ↦ old | some d ↦ d ]

-- `loadConnectionPoolSettings`
unfoldable pub load_connection_pool_settings :
    Env → (Text → Option ℤ) → ClusterConfig → ClusterConfig
unfolding positive_or
load_connection_pool_settings env durations c = record c {
  max_open_conns = positive_or (env (codes "DB_MAX_OPEN_CONNS")) c.max_open_conns;
  max_idle_conns = positive_or (env (codes "DB_MAX_IDLE_CONNS")) c.max_idle_conns;
  conn_max_lifetime =
      duration_or durations (env (codes "DB_CONN_MAX_LIFETIME")) c.conn_max_lifetime;
  conn_max_idle_time =
      duration_or durations (env (codes "DB_CONN_MAX_IDLE_TIME")) c.conn_max_idle_time;
}

-- `loadHealthSettings`
unfoldable pub load_health_settings : Env → (Text → Option ℤ) → ClusterConfig → ClusterConfig
unfolding positive_or
load_health_settings env durations c = record c {
  health_check_interval =
      duration_or durations (env (codes "DB_HEALTH_CHECK_INTERVAL")) c.health_check_interval;
  retry_attempts = positive_or (env (codes "DB_RETRY_ATTEMPTS")) c.retry_attempts;
  retry_backoff_base =
      duration_or durations (env (codes "DB_RETRY_BACKOFF_BASE")) c.retry_backoff_base;
  retry_backoff_max =
      duration_or durations (env (codes "DB_RETRY_BACKOFF_MAX")) c.retry_backoff_max;
}

-- `loadCircuitBreakerSettings`
unfoldable pub load_circuit_breaker_settings :
    Env → (Text → Option ℤ) → ClusterConfig → ClusterConfig
unfolding positive_or
load_circuit_breaker_settings env durations c = record c {
  circuit_breaker_threshold =
      positive_or (env (codes "DB_CIRCUIT_BREAKER_THRESHOLD")) c.circuit_breaker_threshold;
  circuit_breaker_timeout =
      duration_or durations (env (codes "DB_CIRCUIT_BREAKER_TIMEOUT")) c.circuit_breaker_timeout;
}

abbrev pub valid_strategies : List Text
valid_strategies =
    codes "round_robin" ∷ codes "random" ∷ codes "priority" ∷ codes "least_connections" ∷ []

unfoldable pub is_one_of : Text → List Text → Bool
unfolding text_eq
is_one_of s [] = false
is_one_of s (t ∷ ts) = text_eq s t || is_one_of s ts

-- The strategy of a valid name, or the default one.
unfoldable pub known_strategy : Text → Text
unfolding is_one_of
known_strategy s = if is_one_of s valid_strategies then s else codes "round_robin"

-- `loadReadBalancingSettings`
unfoldable pub load_read_balancing_settings : Env → ClusterConfig → ClusterConfig
unfolding known_strategy
load_read_balancing_settings env c = record c {
  read_balance_strategy = known_strategy (env (codes "DB_READ_BALANCE_STRATEGY"));
}

abbrev pub second : ℕ
second = 1000000000

-- A field that is still zero.
abbrev pub nonzero_or : ℤ → ℕ → ℤ
nonzero_or n default = if eqb_ℤ n (pos 0) then pos default else n

-- `setDefaults`, with `DefaultDriverName` of pgcluster/manager.go.
unfoldable pub set_defaults : ClusterConfig → ClusterConfig
set_defaults c = record c {
  max_open_conns = nonzero_or c.max_open_conns 25;
  max_idle_conns = nonzero_or c.max_idle_conns 10;
  conn_max_lifetime = nonzero_or c.conn_max_lifetime (300 * second);
  conn_max_idle_time = nonzero_or c.conn_max_idle_time (30 * second);
  health_check_interval = nonzero_or c.health_check_interval (30 * second);
  retry_attempts = nonzero_or c.retry_attempts 3;
  retry_backoff_base = nonzero_or c.retry_backoff_base second;
  retry_backoff_max = nonzero_or c.retry_backoff_max (30 * second);
  circuit_breaker_threshold = nonzero_or c.circuit_breaker_threshold 5;
  circuit_breaker_timeout = nonzero_or c.circuit_breaker_timeout (60 * second);
  read_balance_strategy = or_else c.read_balance_strategy (codes "round_robin");
  driver_name = or_else c.driver_name (codes "pgx");
}

abbrev pub is_empty : Text → Bool
is_empty [] = true
is_empty (c ∷ s) = false

-- `Validate()`: `none` for no error.
unfoldable pub validate : ClusterConfig → Option ConfigError
unfolding is_one_of
validate c =
    if is_empty c.writer_url
    then some writer_url_required
    else if is_empty c.service_name
    then some service_name_required
    else if leb_ℤ c.max_open_conns (pos 0)
    then some max_open_not_positive
    else if ltb_ℤ c.max_idle_conns (pos 0) || ltb_ℤ c.max_open_conns c.max_idle_conns
    then some max_idle_out_of_range
    else if leb_ℤ c.health_check_interval (pos 0)
    then some health_interval_not_positive
    else if leb_ℤ c.retry_attempts (pos 0)
    then some retry_attempts_not_positive
    else if not (is_one_of c.read_balance_strategy valid_strategies)
    then some invalid_read_balance_strategy
    else none

-- `&ClusterConfig{ServiceName: serviceName}`
abbrev pub empty_config : Text → ClusterConfig
empty_config service = record {
  writer_url = [];
  reader_urls = [];
  writer_detection_strategy = strategy_dns;
  writer_detection_query = [];
  writer_dns_name = [];
  max_open_conns = pos 0;
  max_idle_conns = pos 0;
  conn_max_lifetime = pos 0;
  conn_max_idle_time = pos 0;
  health_check_interval = pos 0;
  retry_attempts = pos 0;
  retry_backoff_base = pos 0;
  retry_backoff_max = pos 0;
  circuit_breaker_threshold = pos 0;
  circuit_breaker_timeout = pos 0;
  read_balance_strategy = [];
  service_name = service;
  driver_name = [];
}

-- The settings that follow the URLs.
unfoldable pub load_settings : Env → (Text → Option ℤ) → ClusterConfig → ClusterConfig
unfolding load_writer_detection_settings load_connection_pool_settings load_health_settings
    load_circuit_breaker_settings load_read_balancing_settings set_defaults
load_settings env durations c = set_defaults (
    load_read_balancing_settings env (
      load_circuit_breaker_settings env durations (
        load_health_settings env durations
          (load_connection_pool_settings env durations (load_writer_detection_settings env c)))))

unfoldable pub validated : ClusterConfig → Result ConfigError ClusterConfig
unfolding validate
validated c = elim (validate c) [ none ↦ ok c | some e ↦ err e ]

-- `LoadConfigFromEnv(serviceName)`
unfoldable pub load_config_from_env :
    Env → (Text → Option ℤ) → Text → Result ConfigError ClusterConfig
unfolding load_connection_urls load_settings validated
load_config_from_env env durations service =
    elim (load_connection_urls env (empty_config service)) [
      | err e ↦ err e
      | ok c ↦ validated (load_settings env durations c)
    ]
