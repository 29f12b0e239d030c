-- ===== src/Secrets/Chain.antt =====
-- `Chain` of secrets/chain.go, over stores that share a state.
pub mod Laws
use svckit.Base.{ℕ, Bool, true, false, List, [], ◌∷◌, Option, some, Result, ok, err, if◌then◌else◌}
use svckit.Base.Text.{Text}
use svckit.Secrets.{StoreError, not_found, read_only, Store, is_not_found}

module _ {S : Type 0} where
  -- What the loop of `Get` makes of one store's answer; `next` is the loop from the next store on,
  -- with `lastErr`.
  unfoldable pub fall_through :
      S × Result StoreError Text
      → (StoreError → S × Result StoreError Text)
      → S × Result StoreError Text
  fall_through (s, ok value) next = (s, ok value)
  fall_through (s, err e) next = if is_not_found e then next e else (s, err e)

  -- The loop of `Get`, with `lastErr`.
  unfoldable pub chain_get : StoreError → List (Store S) → ℕ → Text → S → S × Result StoreError Text
  unfolding fall_through
  chain_get last_err [] now path s = (s, err last_err)
  chain_get last_err (store ∷ stores) now path s =
      let a = store.get now path s in fall_through a (λ e. chain_get e stores now path a.0)

  unfoldable pub chain_set : List (Store S) → ℕ → Text → Text → S → S × Option StoreError
  chain_set [] now path value s = (s, some read_only)
  chain_set (store ∷ stores) now path value s = store.set now path value s

  unfoldable pub chain_exists : List (Store S) → ℕ → Text → S → S × Result StoreError Bool
  chain_exists [] now path s = (s, ok false)
  chain_exists (store ∷ stores) now path s =
      let a = store.exists now path s in
      elim a.1 [
        | err e ↦ (a.0, err e)
        | ok found ↦ if found then (a.0, ok true) else chain_exists stores now path a.0
      ]

  -- `Chain(stores...)`
  unfoldable pub chain : List (Store S) → Store S
  unfolding chain_get chain_set chain_exists
  chain stores = record {
    get = chain_get not_found stores;
    set = chain_set stores;
    exists = chain_exists stores;
  }
