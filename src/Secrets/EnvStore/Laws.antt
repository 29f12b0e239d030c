-- ===== src/Secrets/EnvStore/Laws.antt =====
-- About `EnvStore` (secrets/env.go) as a store: its `Get`, `Set` and `Exists`.
use svckit.Base.{
  ℕ, ◌≡◌, ◌≢◌, refl, ap, ◌∙◌, Bool, true, List, [], ◌∷◌, ◌++◌, Option, none, some, ok, All,
}
use svckit.Base.Text.{Text, is_some}
use svckit.Secrets.{read_only}
use svckit.Secrets.EnvStore.{Env, env_var_name, env_store, first_set, any_set, candidates, found}
use svckit.Secrets.Cached.Laws.{IsLawful}

any_set-first_set :
    (env : Env) (names : List Text) → any_set env names ≡ is_some (first_set env names)
unfolding any_set first_set
any_set-first_set env [] = refl
any_set-first_set env (name ∷ names) = by_value (env name) (any_set-first_set env names)
  where
    by_value :
        (v : Text)
        → any_set env names ≡ is_some (first_set env names)
        → ◌≡◌ {A = Bool}
            (elim v [ [] ↦ any_set env names | c ∷ s ↦ true ])
            (is_some
              (elim v as (λ _. Option Text) [ [] ↦ first_set env names | c ∷ s ↦ some (c ∷ s) ]))
    by_value [] rest = rest
    by_value (c ∷ s) rest = refl

some-none {ℓ} : {A : Type ℓ} {a : A} → some a ≡ none → ⊥
some-none h = cc

found-ok : (o : Option Text) (v : Text) → found o ≡ ok v → is_some o ≡ true
found-ok none v h = absurd (cc)
found-ok (some x) v h = refl

-- What is read of a path with these variables: the value of the first that is set, or none is set.
abbrev pub Reads : Env → List Text → Option Text → Type 0
Reads env names none = All (λ n. env n ≡ []) names
Reads env names (some value) =
    (before : List Text) × (name : Text) × (after : List Text) × (names ≡ before ++ name ∷ after)
    × All (λ n. env n ≡ []) before
    × (env name ≡ value)
    × (value ≢ [])

cons_not_empty : (c : ℕ) (s : Text) → (c ∷ s) ≢ []
cons_not_empty c s h = cc

Reads-set :
    (env : Env) (name : Text) (names : List Text) (c : ℕ) (s : Text)
    → env name ≡ c ∷ s
    → Reads env (name ∷ names) (some (c ∷ s))
Reads-set env name names c s h = ([], name, names, refl, tt, h, cons_not_empty c s)

Reads-unset :
    (env : Env) (name : Text) (names : List Text) (o : Option Text)
    → env name ≡ []
    → Reads env names o
    → Reads env (name ∷ names) o
Reads-unset env name names none h r = (h, r)
Reads-unset env name names (some v) h (before, n, after, split, unset, set, full) =
    (name ∷ before, n, after, ap (λ l. name ∷ l) split, (h, unset), set, full)

first_set-Reads : (env : Env) (names : List Text) → Reads env names (first_set env names)
unfolding first_set
first_set-Reads env [] = tt
first_set-Reads env (name ∷ names) = by_value (env name) refl (first_set-Reads env names)
  where
    by_value :
        (v : Text)
        → env name ≡ v
        → Reads env names (first_set env names)
        → Reads env
            (name ∷ names)
            (elim v as (λ _. Option Text) [ [] ↦ first_set env names | c ∷ s ↦ some (c ∷ s) ])
    by_value [] h rest = Reads-unset env name names (first_set env names) h rest
    by_value (c ∷ s) h rest = Reads-set env name names c s h

-- A call of `Get` reads the first variable that is set among the aliases of the path, in their order,
-- and the generic name of the path after them, and reports that the secret is missing if none is set;
-- `Exists` answers whether there is one. Neither of them, nor `Set`, which is refused as read-only,
-- changes the environment.
pub env_store-Reads :
    (aliases : Text → List Text) (env : Env) (now : ℕ) (path new_value : Text)
    → (o : Option Text) × Reads env (aliases path ++ env_var_name path ∷ []) o
      × ((env_store aliases).get now path env ≡ (env, found o))
      × ((env_store aliases).exists now path env ≡ (env, ok (is_some o)))
      × ((env_store aliases).set now path new_value env ≡ (env, some read_only))
unfolding env_store candidates
env_store-Reads aliases env now path new_value =
    let names = aliases path ++ env_var_name path ∷ [] in
    (
      first_set env names,
      first_set-Reads env names,
      refl,
      ap (λ b. (env, ok b)) (any_set-first_set env names),
      refl,
    )

-- For any aliases the environment is a lawful store.
pub env_store-IsLawful : (aliases : Text → List Text) → IsLawful (env_store aliases)
unfolding env_store
env_store-IsLawful aliases = record {
  get_pure = λ t p s. refl;
  exists_pure = λ t p s. refl;
  get_anytime = λ t u p s. refl;
  exists_get = λ t u p v s h. ap ok (
      any_set-first_set s (candidates aliases p)
      ∙ found-ok (first_set s (candidates aliases p)) v h);
  set_get = λ t u p v s h. absurd (some-none h);
  set_other = λ t u p q v s h. refl;
  set_fails = λ t u p q v s e h. refl;
}
