-- ===== src/Secrets/EnvStore.antt =====
-- `EnvStore` of secrets/env.go, whose state is the environment: a function that is empty where a
-- variable is not set.
pub mod Laws
use svckit.Base.{
  ℕ, Bool, true, false, ◌||◌, List, [], ◌∷◌, ◌++◌, map, Option, none, some, Result, ok, err,
  if◌then◌else◌, ◌==◌,
}
use svckit.Base.Text.{Text, codes, to_upper}
use svckit.Secrets.{StoreError, not_found, read_only, Store}

abbrev pub Env : Type 0
Env = Text → Text

-- `strings.NewReplacer("/", "_", "-", "_", ".", "_")`
abbrev pub underscored : ℕ → ℕ
underscored c = if c == 47 || (c == 45 || c == 46) then 95 else c

-- `EnvVarName(path)`
unfoldable pub env_var_name : Text → Text
unfolding to_upper
env_var_name path = codes "SECRET_" ++ map underscored (to_upper path)

-- The variables of a path: its aliases, in order, then the generic name.
unfoldable pub candidates : (Text → List Text) → Text → List Text
unfolding env_var_name
candidates aliases path = aliases path ++ (env_var_name path ∷ [])

-- The loop of `Get`.
unfoldable pub first_set : Env → List Text → Option Text
first_set env [] = none
first_set env (name ∷ names) =
    let rest = first_set env names in elim (env name) [ [] ↦ rest | c ∷ s ↦ some (c ∷ s) ]

-- The loop of `Exists`.
unfoldable pub any_set : Env → List Text → Bool
any_set env [] = false
any_set env (name ∷ names) =
    let rest = any_set env names in elim (env name) [ [] ↦ rest | c ∷ s ↦ true ]

abbrev pub found : Option Text → Result StoreError Text
found none = err not_found
found (some value) = ok value

-- The store of `NewEnvStore`, with its map of aliases.
unfoldable pub env_store : (Text → List Text) → Store Env
unfolding candidates first_set any_set
env_store aliases = record {
  get = λ now path env. (env, found (first_set env (candidates aliases path)));
  set = λ now path value env. (env, some read_only);
  exists = λ now path env. (env, ok (any_set env (candidates aliases path)));
}
