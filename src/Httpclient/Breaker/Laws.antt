-- ===== src/Httpclient/Breaker/Laws.antt =====
-- What the circuit breaker of httpclient/client.go decides after any history of calls.
use svckit.Base.{ℕ, suc, ◌≡◌, Bool, true, false, ◌||◌, List, [], ◌∷◌, arith, if◌then◌else◌}
use svckit.Base.Int.{ℤ, pos, sub_ℕ, ltb_ℤ, leb_ℤ, ◌≤ℤ◌, ◌<ℤ◌}
use svckit.Httpclient.Breaker.{
  CircuitBreakerState, circuit_closed, circuit_open, circuit_half_open, CircuitBreaker,
  new_circuit_breaker, can_execute, record_success, record_failure,
}

-- The calls that a breaker receives, each failure and each question with its instant.
pub data Call : Type 0 where
  asks : ℕ → Call
  succeeds : Call
  fails : ℕ → Call

unfoldable pub step : Call → CircuitBreaker → CircuitBreaker
unfolding can_execute record_success record_failure
step (asks now) cb = (can_execute now cb).0
step succeeds cb = record_success cb
step (fails now) cb = record_failure now cb

-- The newest call stands first.
unfoldable pub after : CircuitBreaker → List Call → CircuitBreaker
unfolding step
after cb [] = cb
after cb (c ∷ history) = step c (after cb history)

-- How many failures came since the last success.
abbrev pub trailing : List Call → ℕ
trailing [] = 0
trailing (asks now ∷ history) = trailing history
trailing (succeeds ∷ history) = 0
trailing (fails now ∷ history) = suc (trailing history)

abbrev pub last_failure : List Call → ℕ
last_failure [] = 0
last_failure (asks now ∷ history) = last_failure history
last_failure (succeeds ∷ history) = last_failure history
last_failure (fails now ∷ history) = now

-- Whether a question since the last outcome came later than the timeout.
abbrev pub probing : ℤ → List Call → Bool
probing reset [] = false
probing reset (asks now ∷ history) =
    probing reset history || ltb_ℤ reset (sub_ℕ now (last_failure history))
probing reset (succeeds ∷ history) = false
probing reset (fails now ∷ history) = false

-- The state that the history determines.
abbrev pub expected : ℤ → ℤ → List Call → CircuitBreakerState
expected max reset history =
    if leb_ℤ max (pos (trailing history))
    then (if probing reset history then circuit_half_open else circuit_open)
    else circuit_closed

record Agrees (max reset : ℤ) (history : List Call) (cb : CircuitBreaker) : Type 0 where
  limit : cb.max_failures ≡ max
  timeout : cb.reset_timeout ≡ reset
  counted : cb.failure_count ≡ trailing history
  latest : cb.last_failure_time ≡ last_failure history
  current : cb.state ≡ expected max reset history

step-Agrees :
    (max reset : ℤ) (history : List Call) (cb : CircuitBreaker) (c : Call)
    → pos 0 <ℤ max
    → Agrees max reset history cb
    → Agrees max reset (c ∷ history) (step c cb)
unfolding step
step-Agrees max reset history cb (asks now) p a = ground arith
step-Agrees max reset history cb succeeds p a = ground arith
step-Agrees max reset history cb (fails now) p a = ground arith

after-Agrees :
    (max reset : ℤ) (history : List Call)
    → pos 0 <ℤ max
    → Agrees max reset history (after (new_circuit_breaker max reset) history)
unfolding after new_circuit_breaker
after-Agrees max reset [] p = ground arith
after-Agrees max reset (c ∷ history) p =
    step-Agrees max reset history (after (new_circuit_breaker max reset) history) c p
      (after-Agrees max reset history p)

-- After any history of calls, a breaker with a positive limit admits a request exactly if fewer
-- failures than the limit came since the last success, or a question since the last failure was
-- already later than the timeout, or this one is.
pub can_execute-iff-history :
    (max reset : ℤ) (history : List Call) (now : ℕ)
    → pos 0 <ℤ max
    → (can_execute now (after (new_circuit_breaker max reset) history)).1
      ≡ (if leb_ℤ max (pos (trailing history)) then probing reset (asks now ∷ history) else true)
unfolding can_execute
can_execute-iff-history max reset history now p = ground (arith, after-Agrees max reset history p)

-- After any history of calls, the state of a breaker with a positive limit is closed below the
-- limit of failures since the last success, and else half-open if a question since the last failure
-- came later than the timeout, and open otherwise; its counter is the number of those failures.
pub state-after :
    (max reset : ℤ) (history : List Call)
    → pos 0 <ℤ max
    → ((after (new_circuit_breaker max reset) history).state ≡ expected max reset history)
      × ((after (new_circuit_breaker max reset) history).failure_count ≡ trailing history)
state-after max reset history p = let a = after-Agrees max reset history p in (a.current, a.counted)

-- A failure of the probe that a tripped breaker admitted opens it again at once, for a whole
-- timeout: until then every question is refused and changes nothing.
pub probe_failure_reopens :
    (max reset : ℤ) (history : List Call) (asked failed now : ℕ)
    → pos 0 <ℤ max
    → max ≤ℤ pos (trailing history)
    → sub_ℕ now failed ≤ℤ reset
    → let cb = after (new_circuit_breaker max reset) (fails failed ∷ asks asked ∷ history) in
      can_execute now cb ≡ (cb, false)
unfolding can_execute after step
probe_failure_reopens max reset history asked failed now p h w =
    ground (arith, after-Agrees max reset history p)
