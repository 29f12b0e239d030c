-- ===== src/Httpclient/Breaker.antt =====
-- The circuit breaker of httpclient/client.go. An instant is a number of nanoseconds on the
-- monotonic clock; `int` and `time.Duration` are integers, since a caller may set any. The zero
-- `time.Time` is the instant 0: it is never read before the first failure writes it.
pub mod Laws
use svckit.Base.{ℕ, suc, Bool, true, false, if◌then◌else◌}
use svckit.Base.Int.{ℤ, pos, sub_ℕ, ltb_ℤ, leb_ℤ}

pub data CircuitBreakerState : Type 0 where
  circuit_closed circuit_open circuit_half_open : CircuitBreakerState

pub record CircuitBreaker : Type 0 where
  pub max_failures : ℤ
  pub reset_timeout : ℤ
  pub failure_count : ℕ
  pub last_failure_time : ℕ
  pub state : CircuitBreakerState

unfoldable pub new_circuit_breaker : ℤ → ℤ → CircuitBreaker
new_circuit_breaker max_failures reset_timeout = record {
  max_failures = max_failures;
  reset_timeout = reset_timeout;
  failure_count = 0;
  last_failure_time = 0;
  state = circuit_closed;
}

-- The `switch cb.state` of `CanExecute`.
can_execute_in : CircuitBreakerState → ℕ → CircuitBreaker → CircuitBreaker × Bool
can_execute_in circuit_closed now cb = (cb, true)
can_execute_in circuit_open now cb =
    if ltb_ℤ cb.reset_timeout (sub_ℕ now cb.last_failure_time)
    then (record cb { state = circuit_half_open }, true)
    else (cb, false)
can_execute_in circuit_half_open now cb = (cb, true)

unfoldable pub can_execute : ℕ → CircuitBreaker → CircuitBreaker × Bool
unfolding can_execute_in
can_execute now cb = can_execute_in cb.state now cb

unfoldable pub record_success : CircuitBreaker → CircuitBreaker
record_success cb = record cb { failure_count = 0; state = circuit_closed }

unfoldable pub record_failure : ℕ → CircuitBreaker → CircuitBreaker
record_failure now cb =
    let counted = record cb { failure_count = suc cb.failure_count; last_failure_time = now } in
    if leb_ℤ cb.max_failures (pos (suc cb.failure_count))
    then record counted { state = circuit_open }
    else counted
