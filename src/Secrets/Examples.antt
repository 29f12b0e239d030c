-- ===== src/Secrets/Examples.antt =====
-- Tests of the model of package secrets, and its theorems at concrete stores.
use svckit.Base.{
  ℕ, zero, suc, ◌≡◌, refl, false, List, [], ◌∷◌, ◌++◌, Option, some, Result, ok, err, arith,
  if◌then◌else◌,
}
use svckit.Base.Int.{pos}
use svckit.Base.Text.{Text, codes, text_eq, to_upper, is_some}
use svckit.Secrets.{StoreError, not_found, read_only, unavailable}
use svckit.Secrets.EnvStore.{Env, found, env_store, env_var_name, first_set, candidates}
use svckit.Secrets.EnvStore.Laws.{Reads, env_store-Reads, env_store-IsLawful}
use svckit.Secrets.Chain.{chain}
use svckit.Secrets.Chain.Laws.{Chosen, chain-Chosen}
use svckit.Secrets.Cached.{cached}
use svckit.Secrets.Cached.Laws.{Call, gets, asks, sets, replies, cached_transparent}
use svckit.Secrets.Retrying.{Weather, value, retrying_get, is_retryable}
use svckit.Secrets.Retrying.Laws.{retrying_get-Course}

-- An environment with the key of one service, and a store whose alias names it.
abbrev keys : Env
keys = λ name. if text_eq name (codes "SERVICE_API_KEY") then codes "k1" else []

abbrev aliases : Text → List Text
aliases path = if text_eq path (codes "service-keys/app") then codes "SERVICE_API_KEY" ∷ [] else []

env_var_name_test : env_var_name (codes "kms/master-key") ≡ codes "SECRET_KMS_MASTER_KEY"
unfolding env_var_name to_upper
env_var_name_test = refl

alias_test : ((env_store aliases).get 0 (codes "service-keys/app") keys).1 ≡ ok (codes "k1")
unfolding env_store first_set candidates text_eq
alias_test = refl

env_store-Reads_example :
    (o : Option Text) × Reads keys
      (aliases (codes "service-keys/app") ++ env_var_name (codes "service-keys/app") ∷ [])
      o
    × ((env_store aliases).get 0 (codes "service-keys/app") keys ≡ (keys, found o))
    × ((env_store aliases).exists 0 (codes "service-keys/app") keys ≡ (keys, ok (is_some o)))
    × ((env_store aliases).set 0 (codes "service-keys/app") (codes "k2") keys
        ≡ (keys, some read_only))
env_store-Reads_example = env_store-Reads aliases keys 0 (codes "service-keys/app") (codes "k2")

chain-Chosen_example :
    Chosen 0
      (codes "service-keys/app")
      (env_store (λ p. []) ∷ env_store aliases ∷ [])
      keys
      ((chain (env_store (λ p. []) ∷ env_store aliases ∷ [])).get 0 (codes "service-keys/app") keys)
chain-Chosen_example =
    chain-Chosen (env_store (λ p. []) ∷ env_store aliases ∷ []) 0 (codes "service-keys/app") keys

-- A read that fills the cache, a write that the environment refuses, and a read from the cache.
abbrev session : List Call
session =
    gets 5 (codes "service-keys/app")
    ∷ sets 6 (codes "service-keys/app") (codes "k2")
    ∷ gets 7 (codes "service-keys/app")
    ∷ asks 8 (codes "other")
    ∷ []

cached_transparent_example :
    replies (cached (env_store aliases) (pos 60)) session (record { inner = keys; entries = [] })
    ≡ replies (env_store aliases) session keys
cached_transparent_example =
    cached_transparent (env_store aliases) (pos 60) session keys (env_store-IsLawful aliases)

-- A secret that is missing at first, then behind a server that is down, and then there.
abbrev late : ℕ → Result StoreError Text
late zero = err not_found
late (suc zero) = err unavailable
late (suc (suc i)) = ok (codes "k1")

abbrev seeding : Weather
seeding = record { answers = late; context_done = λ i. false }

retrying_get-Course_example :
    retrying_get 9 (pos 10) (pos 15) seeding ≡ some (value (codes "k1"), pos 10 ∷ pos 15 ∷ [])
unfolding is_retryable
retrying_get-Course_example =
    retrying_get-Course 9 10 15 2 seeding (value (codes "k1")) (omega arith) (omega arith)
      (omega arith) ((not_found, refl, refl, refl), ((unavailable, refl, refl, refl), refl))
