-- ===== src/Pgcluster/Examples/Settings.antt =====
-- Tests of the configuration, and its theorems at concrete environments and URLs.
use svckit.Base.{◌≡◌, refl, [], none, err, if◌then◌else◌}
use svckit.Base.Text.{Text, codes, text_eq, has_prefix}
use svckit.Base.Text.Laws.{lacks-Without}
use svckit.Pgcluster.Config.{
  load_config_from_env, max_idle_out_of_range, positive_or, load_settings,
}
use svckit.Pgcluster.Urls.{Env, mask_url}
use svckit.Pgcluster.Config.Laws.{load_config_from_env_lem}
use svckit.Pgcluster.Config.Mask.{mask_url-masked}

-- An environment that sets one variable.
abbrev only : Text → Text → Env
only key value = λ k. if text_eq k key then value else []

-- Five open connections are fewer than the ten idle ones of the default.
load_config_from_env_example :
    load_config_from_env (only (codes "DB_MAX_OPEN_CONNS") (codes "5")) (λ s. none) (codes "svc")
    ≡ err max_idle_out_of_range
unfolding text_eq positive_or load_settings
load_config_from_env_example =
    load_config_from_env_lem (only (codes "DB_MAX_OPEN_CONNS") (codes "5")) (λ s. none)
      (codes "svc")

mask_url-masked_example :
    mask_url (codes "postgres://app:pw@db/x") ≡ codes "postgres://app:***@db/x"
unfolding has_prefix
mask_url-masked_example =
    mask_url-masked (codes "postgres") (codes "app") (codes "pw") (codes "db/x")
      (lacks-Without 58 (codes "postgres") refl) (lacks-Without 64 (codes "postgres") refl)
      (lacks-Without 58 (codes "app") refl) (lacks-Without 64 (codes "app") refl)
      (lacks-Without 64 (codes "pw") refl) (refl, (refl, (refl, (refl, (refl, (refl, tt))))))
