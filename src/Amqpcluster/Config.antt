-- ===== src/Amqpcluster/Config.antt =====
-- The configuration of a cluster from the environment, in amqpcluster/config.go.
use svckit.Base.{
  ℕ, ◌*◌, ◌==◌, Bool, true, false, not, List, [], ◌∷◌, ◌++◌, map, Option, none, some, if◌then◌else◌,
  Result, ok, err,
}
use svckit.Base.Int.{ℤ, pos, ltb_ℤ, leb_ℤ}
use svckit.Base.Text.{Text, codes, text_eq, split, trim_space, to_lower, itoa}
use svckit.Pgcluster.Urls.{Env, or_else, component, collect, mask_url}
use svckit.Pgcluster.Config.{positive_or, duration_or, is_one_of, is_empty, second}

-- `Config`
pub record Settings : Type 0 where
  pub nodes : List Text
  pub service_name : Text
  pub health_check_interval : ℤ
  pub retry_attempts : ℤ
  pub load_balance_strategy : Text
  pub event_signing_key : Text
  pub signing_required : Bool

pub data ConfigError : Type 0 where
  no_nodes_configured service_name_required health_interval_not_positive : ConfigError
  retry_attempts_not_positive invalid_load_balance_strategy : ConfigError

-- The format of a URL; without a host there is none.
unfoldable pub amqp_url : (user pass host port vhost : Text) → Text
amqp_url user pass [] port vhost = []
amqp_url user pass (c ∷ host) port vhost =
    codes "amqp://"
    ++ (user
        ++ (codes ":" ++ (pass ++ (codes "@" ++ ((c ∷ host) ++ (codes ":" ++ (port ++ vhost)))))))

-- Only the first node, which has no suffix, has a default host.
abbrev pub host_default : Text → Text
host_default [] = codes "localhost"
host_default (c ∷ suffix) = []

-- `buildNodeURL(suffix, suffix)`
unfoldable pub build_node_url : Env → Text → Text
unfolding amqp_url
build_node_url env suffix = or_else (env (codes "RABBITMQ_URL" ++ suffix)) (
    amqp_url (component env suffix (codes "RABBITMQ_USER") (codes "guest"))
      (component env suffix (codes "RABBITMQ_PASS") (codes "guest"))
      (component env suffix (codes "RABBITMQ_HOST") (host_default suffix))
      (component env suffix (codes "RABBITMQ_PORT") (codes "5672"))
      (component env suffix (codes "RABBITMQ_VHOST") (codes "/")))

abbrev pub suffix_of : ℕ → Text
suffix_of i = if i == 1 then [] else codes "_" ++ itoa i

unfoldable pub component_nodes : Env → List Text
unfolding build_node_url collect itoa
component_nodes env = collect (λ i. build_node_url env (suffix_of i)) 1 5

abbrev pub with_nodes : List Text → Settings → Result ConfigError Settings
with_nodes [] c = err no_nodes_configured
with_nodes (url ∷ urls) c = ok (record c { nodes = url ∷ urls })

-- `loadNodes()`, by the variable that lists the nodes.
unfoldable pub load_nodes : Env → Text → Settings → Result ConfigError Settings
unfolding component_nodes split trim_space
load_nodes env (b ∷ s) c = ok (record c { nodes = map trim_space (split (b ∷ s) (codes ",")) })
load_nodes env [] c = with_nodes (component_nodes env) c

abbrev pub is_true_or : Text → Bool → Bool
is_true_or [] old = old
is_true_or (b ∷ s) old = text_eq (to_lower (b ∷ s)) (codes "true")

unfoldable pub load_signing_config : Env → Settings → Settings
unfolding text_eq to_lower
load_signing_config env c = record c {
  event_signing_key =
      or_else (env (codes "EVENT_SIGNING_KEY")) (codes "dev-signing-key-change-in-production");
  signing_required = is_true_or (env (codes "EVENT_SIGNING_REQUIRED")) c.signing_required;
}

abbrev pub valid_strategies : List Text
valid_strategies = codes "round_robin" ∷ codes "random" ∷ codes "hash" ∷ []

unfoldable pub load_optional_settings : Env → (Text → Option ℤ) → Settings → Settings
unfolding positive_or is_one_of
load_optional_settings env durations c =
    let strategy = env (codes "RABBITMQ_LOAD_BALANCE_STRATEGY") in
    record c {
      health_check_interval =
          duration_or durations (env (codes "RABBITMQ_HEALTH_CHECK_INTERVAL"))
            c.health_check_interval;
      retry_attempts = positive_or (env (codes "RABBITMQ_RETRY_ATTEMPTS")) c.retry_attempts;
      load_balance_strategy =
          if is_one_of strategy valid_strategies then strategy else c.load_balance_strategy;
    }

abbrev pub initial : Text → Settings
initial service = record {
  nodes = [];
  service_name = service;
  health_check_interval = pos (30 * second);
  retry_attempts = pos 3;
  load_balance_strategy = codes "round_robin";
  event_signing_key = [];
  signing_required = true;
}

-- `LoadConfigFromEnv(serviceName)`, which does not validate.
unfoldable pub load_config_from_env : Env → (Text → Option ℤ) → Text → Result ConfigError Settings
unfolding load_nodes load_signing_config load_optional_settings
load_config_from_env env durations service =
    elim (load_nodes env (env (codes "RABBITMQ_CLUSTER_NODES")) (initial service)) [
      | err e ↦ err e
      | ok c ↦ ok (load_optional_settings env durations (load_signing_config env c))
    ]

abbrev pub no_nodes : List Text → Bool
no_nodes [] = true
no_nodes (url ∷ urls) = false

-- `Validate()`: `none` for no error.
unfoldable pub validate : Settings → Option ConfigError
unfolding is_one_of
validate c =
    if no_nodes c.nodes
    then some no_nodes_configured
    else if is_empty c.service_name
    then some service_name_required
    else if leb_ℤ c.health_check_interval (pos 0)
    then some health_interval_not_positive
    else if ltb_ℤ c.retry_attempts (pos 1)
    then some retry_attempts_not_positive
    else if not (is_one_of c.load_balance_strategy valid_strategies)
    then some invalid_load_balance_strategy
    else none

-- `maskCredentials(url)`, whose code is that of `maskURL` of pgcluster/config.go.
abbrev pub mask_credentials : Text → Text
mask_credentials = mask_url
