-- ===== src/Secrets/Retrying.antt =====
-- `Retrying` of secrets/retry.go: `Get`, which goes on until an answer is final or the context is
-- done. `Set` and `Exists` are the inner store's.
pub mod Laws
use svckit.Base.{
  ℕ, zero, suc, Bool, ◌||◌, List, [], ◌∷◌, Option, none, some, Result, ok, err, if◌then◌else◌,
}
use svckit.Base.Int.{ℤ, pos, ltb_ℤ, wrap64, scale}
use svckit.Base.Text.{Text}
use svckit.Secrets.{StoreError, is_not_found, is_unavailable}

-- What attempt `i` meets: the answer of the inner store, and whether the context is done before the
-- wait that follows has passed.
pub record Weather : Type 0 where
  pub answers : ℕ → Result StoreError Text
  pub context_done : ℕ → Bool

pub data Outcome : Type 0 where
  value : Text → Outcome
  terminal stopped : StoreError → Outcome

-- `backoff *= 2`, capped.
unfoldable pub next_backoff : ℤ → ℤ → ℤ
next_backoff max backoff =
    let doubled = wrap64 (scale (pos 2) backoff) in if ltb_ℤ max doubled then max else doubled

unfoldable pub is_retryable : StoreError → Bool
is_retryable e = is_not_found e || is_unavailable e

-- What the loop makes of an answer; `next` is what it comes to after the wait.
unfoldable pub retry_turn :
    Result StoreError Text → Bool → ℤ → Option (Outcome × List ℤ) → Option (Outcome × List ℤ)
unfolding is_retryable
retry_turn (ok v) is_done backoff next = some (value v, [])
retry_turn (err e) is_done backoff next =
    let waited : Option (Outcome × List ℤ) = elim next [
      | none ↦ none
      | some r ↦ some (r.0, backoff ∷ r.1)
    ] in
    if is_retryable e
    then (if is_done then some (stopped e, []) else waited)
    else some (terminal e, [])

-- The loop from attempt `i`, for as many rounds as the fuel, with the waits that have passed.
unfoldable pub retry_loop : ℤ → Weather → ℕ → ℕ → ℤ → Option (Outcome × List ℤ)
unfolding retry_turn next_backoff
retry_loop max w zero i backoff = none
retry_loop max w (suc fuel) i backoff =
    retry_turn (w.answers i) (w.context_done i) backoff
      (retry_loop max w fuel (suc i) (next_backoff max backoff))

-- `Get` of `Retrying(inner, initial, max)`
unfoldable pub retrying_get : ℕ → ℤ → ℤ → Weather → Option (Outcome × List ℤ)
unfolding retry_loop
retrying_get fuel initial max w = retry_loop max w fuel 0 initial
