-- ===== src/Pgcluster/Config/Laws.antt =====
-- When loading the configuration of pgcluster/config.go succeeds, and with which readers.
use svckit.Base.{
  ℕ, suc, ◌≡◌, refl, true, false, List, [], ◌∷◌, Option, if◌then◌else◌, ok, err, arith, Bool-cases,
  inl, inr,
}
use svckit.Base.Int.{ℤ, pos, ltb_ℤ, leb_ℤ}
use svckit.Base.Text.{Text, codes, text_eq}
use svckit.Pgcluster.Node.{ClusterConfig}
use svckit.Pgcluster.Config.{
  with_urls, known_strategy, service_name_required, max_idle_out_of_range,
  health_interval_not_positive, load_connection_urls, load_settings, positive_or, nonzero_or,
  validate, validated, is_empty, is_one_of, valid_strategies, empty_config, load_config_from_env,
}
use svckit.Pgcluster.Urls.{
  Env, or_else, build_url_from_components, url_of, reader_urls_of, writer_url_of,
}

or_else_present : (s t : Text) → is_empty t ≡ false → is_empty (or_else s t) ≡ false
or_else_present [] t h = h
or_else_present (c ∷ s) t h = refl

url_of_present :
    (host user password port dbname sslmode : Text)
    → is_empty host ≡ false
    → is_empty (url_of host user password port dbname sslmode) ≡ false
unfolding url_of
url_of_present [] user password port dbname sslmode h = absurd (cc)
url_of_present (c ∷ host) user password port dbname sslmode h = refl

-- Without a suffix there is always a URL.
pub build_url_from_components_present :
    (env : Env) → is_empty (build_url_from_components env []) ≡ false
unfolding build_url_from_components
build_url_from_components_present env =
    let host = env (codes "DB_HOST") in
    url_of_present _ _ _ _ _ _
      (or_else_present host _ (or_else_present host (codes "localhost") refl))

writer_url_present : (env : Env) → is_empty (writer_url_of env) ≡ false
unfolding writer_url_of
writer_url_present env =
    or_else_present (or_else (env (codes "DATABASE_WRITER_URL")) (env (codes "DATABASE_URL"))) _
      (build_url_from_components_present env)

-- What a count that is read from the environment is, after its default.
count_positive :
    (s : Text) (n : ℕ) → leb_ℤ (nonzero_or (positive_or s (pos 0)) (suc n)) (pos 0) ≡ false
unfolding positive_or
count_positive s n = ground arith

strategy_kept :
    (s : Text)
    → is_one_of s valid_strategies ≡ true
    → is_one_of (or_else s (codes "round_robin")) valid_strategies ≡ true
unfolding is_one_of text_eq
strategy_kept [] h = refl
strategy_kept (c ∷ s) h = h

strategy_valid :
    (s : Text)
    → is_one_of (or_else (known_strategy s) (codes "round_robin")) valid_strategies ≡ true
unfolding known_strategy
strategy_valid s = elim (Bool-cases (is_one_of s valid_strategies)) [
  | inl h ↦ rw (h, known_strategy) (strategy_kept s h)
  | inr h ↦ rw (h, known_strategy) (unfold is_one_of text_eq in refl)
]

-- `Validate` where the URL, the counts and the strategy are in order.
validate_lem :
    (c : ClusterConfig)
    → is_empty c.writer_url ≡ false
    → leb_ℤ c.max_open_conns (pos 0) ≡ false
    → leb_ℤ c.max_idle_conns (pos 0) ≡ false
    → leb_ℤ c.retry_attempts (pos 0) ≡ false
    → is_one_of c.read_balance_strategy valid_strategies ≡ true
    → validated c ≡ (
        if is_empty c.service_name
        then err service_name_required
        else if ltb_ℤ c.max_open_conns c.max_idle_conns
        then err max_idle_out_of_range
        else if leb_ℤ c.health_check_interval (pos 0)
        then err health_interval_not_positive
        else ok c)
unfolding validated validate
validate_lem c u o i r s = rw (validated, validate, u, o, r, s) (ground arith)

with_urls_present :
    (url : Text) (urls : List Text) (c : ClusterConfig)
    → is_empty url ≡ false
    → with_urls url urls c ≡ ok (record c { writer_url = url; reader_urls = urls })
unfolding with_urls
with_urls_present [] urls c h = absurd (cc)
with_urls_present (b ∷ url) urls c h = refl

-- The configuration that the environment gives a service.
abbrev pub config_of : Env → (Text → Option ℤ) → Text → ClusterConfig
config_of env durations service = load_settings env durations (record (empty_config service) {
  writer_url = writer_url_of env;
  reader_urls = reader_urls_of env [];
})

-- Loading fails only on an empty service name, on more idle than open connections, both after the
-- defaults, or on a health check interval that is not positive, in this order. It never fails for
-- want of a URL, on another count or on the balancing strategy, whatever the environment.
pub load_config_from_env_lem :
    (env : Env) (durations : Text → Option ℤ) (service : Text)
    → let c = config_of env durations service in
      load_config_from_env env durations service ≡ (
        if is_empty service
        then err service_name_required
        else if ltb_ℤ c.max_open_conns c.max_idle_conns
        then err max_idle_out_of_range
        else if leb_ℤ c.health_check_interval (pos 0)
        then err health_interval_not_positive
        else ok c)
unfolding load_config_from_env load_connection_urls
load_config_from_env_lem env durations service =
    rw
      (
        with_urls_present (writer_url_of env) (reader_urls_of env []) (empty_config service)
            (writer_url_present env),
        load_config_from_env,
      )
      (validate_lem (config_of env durations service) (writer_url_present env)
        (count_positive (env (codes "DB_MAX_OPEN_CONNS")) 24)
        (count_positive (env (codes "DB_MAX_IDLE_CONNS")) 9)
        (count_positive (env (codes "DB_RETRY_ATTEMPTS")) 2)
        (strategy_valid (env (codes "DB_READ_BALANCE_STRATEGY"))))
