-- ===== src/Rediscluster/Config/Laws.antt =====
-- When loading the configuration of rediscluster/config.go succeeds, and with which nodes.
use svckit.Base.{
  ℕ, suc, ◌≡◌, refl, ap, true, false, List, [], ◌∷◌, map, Option, if◌then◌else◌, ok, err, arith,
  Bool-cases, inl, inr,
}
use svckit.Base.Int.{ℤ, pos, ltb_ℤ, leb_ℤ}
use svckit.Base.Text.{Text, codes, text_eq, split, trim_space, to_lower}
use svckit.Base.Text.Joins.{split-nonempty}
use svckit.Pgcluster.Urls.{Env, or_else, collect}
use svckit.Pgcluster.Config.{is_empty, is_one_of, nonzero_or, positive_or}
use svckit.Rediscluster.Node.{ClusterConfig}
use svckit.Rediscluster.Urls.{
  redis_url, build_url_from_components, named_or_single, with_additional, non_empty_list, node_key,
}
use svckit.Rediscluster.Config.{
  service_name_required, min_idle_out_of_range, health_interval_not_positive, no_nodes,
  valid_strategies, validate, validated, known_strategy, with_urls, load_urls, load_connection_urls,
  load_settings, non_negative_or, empty_config, load_config_from_env,
}

redis_url_present :
    (password port db host : Text)
    → is_empty host ≡ false
    → is_empty (redis_url password host port db) ≡ false
unfolding redis_url
redis_url_present password port db [] h = absurd (cc)
redis_url_present [] port db (c ∷ host) h = refl
redis_url_present (p ∷ password) port db (c ∷ host) h = refl

or_else_present : (s t : Text) → is_empty t ≡ false → is_empty (or_else s t) ≡ false
or_else_present [] t h = h
or_else_present (c ∷ s) t h = refl

-- Without a suffix there is always a URL.
single_present :
    (password : Text) (env : Env) → is_empty (build_url_from_components password env []) ≡ false
unfolding build_url_from_components
single_present password env =
    redis_url_present password _ _ _ (or_else_present (env (codes "REDIS_HOST")) _ refl)

present_list : (s : Text) → is_empty s ≡ false → no_nodes (non_empty_list s) ≡ false
present_list [] h = absurd (cc)
present_list (c ∷ s) h = refl

named_or_single_present :
    (password : Text) (env : Env) (named : List Text)
    → collect (λ i. env (node_key i)) 1 10 ≡ named
    → no_nodes (named_or_single password env) ≡ false
unfolding named_or_single
named_or_single_present password env [] h =
    rw (named_or_single, h)
      (present_list _ (or_else_present (env (codes "REDIS_URL")) _ (single_present password env)))
named_or_single_present password env (url ∷ urls) h = rw (named_or_single, h) refl

with_additional_present :
    (password : Text) (env : Env) (urls : List Text)
    → no_nodes urls ≡ false
    → no_nodes (with_additional password env urls) ≡ false
unfolding with_additional
with_additional_present password env [] h = h
with_additional_present password env (url ∷ []) h = refl
with_additional_present password env (url ∷ next ∷ urls) h = refl

-- The URLs of the nodes, by the variable that lists them; the password is read only without it.
abbrev pub nodes_for : Env → Text → Text → List Text
nodes_for env (b ∷ s) password = map trim_space (split (b ∷ s) (codes ","))
nodes_for env [] password = with_additional password env (named_or_single password env)

abbrev pub password_for : Env → Text → Text → Text
password_for env (b ∷ s) password = password
password_for env [] password = env (codes "REDIS_PASSWORD")

abbrev pub with_nodes : Env → Text → ClusterConfig → ClusterConfig
with_nodes env listed c = record c {
  node_urls = nodes_for env listed c.password;
  password = password_for env listed c.password;
}

with_urls_present :
    (urls : List Text) (password : Text) (c : ClusterConfig)
    → no_nodes urls ≡ false
    → with_urls urls password c ≡ ok (record c { node_urls = urls; password = password })
unfolding with_urls
with_urls_present [] password c h = absurd (cc)
with_urls_present (url ∷ urls) password c h = refl

nodes_present :
    (env : Env) (listed password : Text) → no_nodes (nodes_for env listed password) ≡ false
nodes_present env (b ∷ s) password =
    let (t, ts, e) = split-nonempty (b ∷ s) (codes ",") in ap (λ l. no_nodes (map trim_space l)) e
nodes_present env [] password =
    with_additional_present password env _ (named_or_single_present password env _ refl)

load_urls_lem :
    (env : Env) (listed : Text) (c : ClusterConfig)
    → load_urls env listed c ≡ ok (with_nodes env listed c)
unfolding load_urls
load_urls_lem env (b ∷ s) c = refl
load_urls_lem env [] c = with_urls_present _ _ c (nodes_present env [] c.password)

pool_positive :
    (s : Text) (n : ℕ) → leb_ℤ (nonzero_or (positive_or s (pos 0)) (suc n)) (pos 0) ≡ false
unfolding positive_or
pool_positive s n = ground arith

not_negative : (s : Text) (n : ℕ) → ltb_ℤ (nonzero_or (non_negative_or s (pos 0)) n) (pos 0) ≡ false
unfolding non_negative_or
not_negative s n = ground arith

strategy_valid : (s : Text) → is_one_of (known_strategy s) valid_strategies ≡ true
unfolding known_strategy
strategy_valid s = elim (Bool-cases (is_one_of s valid_strategies)) [
  | inl h ↦ rw (h, known_strategy) h
  | inr h ↦ rw (h, known_strategy) (unfold is_one_of text_eq in refl)
]

-- `Validate` where the nodes, the pool, the retries and the strategy are in order.
validate_lem :
    (c : ClusterConfig)
    → no_nodes c.node_urls ≡ false
    → leb_ℤ c.max_pool_size (pos 0) ≡ false
    → ltb_ℤ c.min_idle_conns (pos 0) ≡ false
    → ltb_ℤ c.max_retries (pos 0) ≡ false
    → is_one_of c.load_balance_strategy valid_strategies ≡ true
    → validated c ≡ (
        if is_empty c.service_name
        then err service_name_required
        else if ltb_ℤ c.max_pool_size c.min_idle_conns
        then err min_idle_out_of_range
        else if leb_ℤ c.health_check_interval (pos 0)
        then err health_interval_not_positive
        else ok c)
unfolding validated validate
validate_lem c u p i r s = rw (validated, validate, u, p, i, r, s) (ground arith)

-- The configuration that the environment gives a service.
abbrev pub config_of : Env → (Text → Option ℤ) → Text → ClusterConfig
config_of env durations service =
    load_settings env durations
      (with_nodes env (env (codes "REDIS_CLUSTER_NODES")) (empty_config service))

-- Loading fails only on an empty service name, on more idle connections than the pool holds, both
-- after the defaults, or on a health check interval that is not positive, in this order. It never
-- fails for want of a node, on another count or on the strategy, whatever the environment. The shared
-- password is loaded only where no list of nodes is given.
pub load_config_from_env-config_of :
    (env : Env) (durations : Text → Option ℤ) (service : Text)
    → let c = config_of env durations service in
      load_config_from_env env durations service ≡ (
        if is_empty service
        then err service_name_required
        else if ltb_ℤ c.max_pool_size c.min_idle_conns
        then err min_idle_out_of_range
        else if leb_ℤ c.health_check_interval (pos 0)
        then err health_interval_not_positive
        else ok c)
unfolding load_config_from_env load_connection_urls
load_config_from_env-config_of env durations service =
    let listed = env (codes "REDIS_CLUSTER_NODES") in
    rw (load_urls_lem env listed (empty_config service), load_config_from_env)
      (validate_lem (config_of env durations service) (nodes_present env listed [])
        (pool_positive (env (codes "REDIS_MAX_POOL_SIZE")) 99)
        (not_negative (env (codes "REDIS_MIN_IDLE_CONNS")) 10)
        (not_negative (env (codes "REDIS_MAX_RETRIES")) 3)
        (strategy_valid (to_lower (env (codes "REDIS_LOAD_BALANCE_STRATEGY")))))
