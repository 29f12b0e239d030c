-- ===== src/Httpclient/Retry.antt =====
-- `Client.Do` of httpclient/client.go: the retry loop around single requests, behind the circuit
-- breaker. The single requests, the timer and the context are a script that says what each attempt
-- meets; the metrics, the waits and the requests are kept as a log of effects.
pub mod Spec
pub mod Bounds
use svckit.Base.{
  ℕ, zero, suc, ◌+◌, leb, ltb, Bool, true, false, ◌&&◌, List, [], ◌∷◌, Option, none, some,
  if◌then◌else◌, Result, ok, err,
}
use svckit.Base.Int.{ℤ, pos, negsuc, ltb_ℤ}
use svckit.Base.Text.{Text}
use svckit.Httpclient.Breaker.{
  CircuitBreakerState, CircuitBreaker, can_execute, record_success, record_failure,
}

-- `scale d` is `time.Duration(float64(d) * Multiplier)`: floating point is a parameter.
pub record RetryConfig : Type 0 where
  pub max_retries : ℤ
  pub initial_wait : ℤ
  pub max_wait : ℤ
  pub scale : ℤ → ℤ

-- The default of `DefaultRetryConfig`, in nanoseconds; its multiplier is exactly 2.
unfoldable pub default_retry_config : RetryConfig
default_retry_config = record {
  max_retries = pos 3;
  initial_wait = pos 100_000_000;
  max_wait = pos 5_000_000_000;
  scale = λ d. double d;
}
  where
    double : ℤ → ℤ
    double (pos n) = pos (n + n)
    double (negsuc n) = negsuc (suc (n + n))

pub record Response : Type 0 where
  pub status_code : ℕ
  pub body : Text

unfoldable pub is_success : Response → Bool
is_success r = leb 200 r.status_code && ltb r.status_code 300

-- The errors of one request, and of the whole call.
pub data Failure : Type 0 where
  transport : Text → Failure
  server_error : ℕ → Failure

pub data Fault : Type 0 where
  breaker_open : Fault
  context_done : Fault
  exhausted : Option Failure → Fault

pub data Reason : Type 0 where
  network_error_reason server_error_reason : Reason

pub data ErrorType : Type 0 where
  circuit_breaker_open context_cancelled max_retries_exceeded : ErrorType

-- A metric recorded, a wait on the timer, or a request sent.
pub data Effect : Type 0 where
  request_recorded : ℕ → Effect
  state_recorded : CircuitBreakerState → Effect
  retry_recorded : Reason → Effect
  error_recorded : ErrorType → Effect
  waited : ℤ → Effect
  sent : Effect

-- What attempt `i` meets: whether its timer fires before the context is done, and its reply.
pub record Attempt : Type 0 where
  pub timer_fires : Bool
  pub reply : Result Text Response

pub record Done : Type 0 where
  pub breaker : CircuitBreaker
  pub outcome : Result Fault Response
  pub log : List Effect

abbrev pub noting : Effect → Done → Done
noting e d = record d { log = e ∷ d.log }

-- `waitTime *= Multiplier`, capped at `MaxWait`.
unfoldable pub next_wait : RetryConfig → ℤ → ℤ
next_wait c wait =
    let scaled = c.scale wait in if ltb_ℤ c.max_wait scaled then c.max_wait else scaled

-- `attempt <= MaxRetries` counts this many rounds.
unfoldable pub rounds : RetryConfig → ℕ
rounds c = elim c.max_retries [ pos n ↦ suc n | negsuc n ↦ 0 ]

abbrev pub reason_of : Option Failure → Reason
reason_of none = server_error_reason
reason_of (some e) = network_error_reason

unfoldable pub settle : Bool → CircuitBreaker → Response → Done
settle true cb r =
    let closed = record_success cb in
    record { breaker = closed; outcome = ok r; log = state_recorded closed.state ∷ [] }
settle false cb r = record { breaker = cb; outcome = ok r; log = [] }

unfoldable pub give_up : CircuitBreaker → ℕ → Option Failure → Done
give_up cb now last_err =
    let failed = record_failure now cb in
    record {
      breaker = failed;
      outcome = err (exhausted last_err);
      log = state_recorded failed.state ∷ error_recorded max_retries_exceeded ∷ [];
    }

-- How a reply ends its attempt: `none` goes on to the next one, with the failure as `lastErr`.
pub data Verdict : Type 0 where
  retryable : Failure → Verdict
  final : Bool → Response → Verdict

unfoldable pub judge : Result Text Response → Verdict
unfolding is_success
judge (err e) = retryable (transport e)
judge (ok r) =
    if is_success r
    then final true r
    else if leb 400 r.status_code && ltb r.status_code 500
    then final true r
    else if leb 500 r.status_code
    then retryable (server_error r.status_code)
    else final false r

abbrev pub noting_reply : Result Text Response → Done → Done
noting_reply (err e) d = noting sent d
noting_reply (ok r) d = noting sent (noting (request_recorded r.status_code) d)

-- What comes before an attempt: nothing at the first one, else the wait, which `ctx.Done()` may cut.
unfoldable pub enter : ℕ → Bool → ℤ → Option Failure → CircuitBreaker → Done → Done
enter zero fires wait last_err cb round = round
enter (suc i) fires wait last_err cb round = noting (retry_recorded (reason_of last_err)) (
    if fires then noting (waited wait) round else record {
      breaker = cb;
      outcome = err context_done;
      log = error_recorded context_cancelled ∷ [];
    })

abbrev pub wait_after : RetryConfig → ℕ → ℤ → ℤ
wait_after c zero wait = wait
wait_after c (suc i) wait = next_wait c wait

-- The loop from attempt `i`, with the rounds that are left; `now` is when the last one ends.
unfoldable pub do_loop :
    RetryConfig → (ℕ → Attempt) → ℕ → CircuitBreaker → ℕ → ℕ → ℤ → Option Failure → Done
do_loop c script now cb zero i wait last_err = give_up cb now last_err
do_loop c script now cb (suc n) i wait last_err = enter i (script i).timer_fires wait last_err cb (
    noting_reply (script i).reply (elim (judge (script i).reply) [
      | retryable e ↦ do_loop c script now cb n (suc i) (wait_after c i wait) (some e)
      | final good r ↦ settle good cb r
    ]))

-- `Do`, begun at `start`; the last attempt ends at `now`.
unfoldable pub do_request : RetryConfig → (ℕ → Attempt) → ℕ → ℕ → CircuitBreaker → Done
unfolding rounds
do_request c script start now cb =
    let (cb', admitted) = can_execute start cb in
    if admitted then do_loop c script now cb' (rounds c) 0 c.initial_wait none else record {
      breaker = cb';
      outcome = err breaker_open;
      log = error_recorded circuit_breaker_open ∷ [];
    }
