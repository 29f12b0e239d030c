-- ===== src/Httpclient/Retry/Bounds.antt =====
-- Bounds on what `Client.Do` (httpclient/client.go) does, and calls made one after another.
use svckit.Base.{
  ℕ, zero, suc, ◌+◌, ◌≡◌, refl, ◌⊎◌, inl, inr, Bool, true, false, List, [], ◌∷◌, Option, none, some,
  arith, Result, ok, err, Bool-cases, All, length,
}
use svckit.Base.Int.{ℤ, pos, ◌≤ℤ◌, sub_ℕ}
use svckit.Base.Text.{Text}
use svckit.Httpclient.Breaker.{
  CircuitBreaker, circuit_open, circuit_closed, can_execute, record_failure,
}
use svckit.Httpclient.Retry.{
  RetryConfig, Response, Failure, breaker_open, Effect, waited, retry_recorded,
  network_error_reason, Attempt, Done, next_wait, rounds, Verdict, retryable, final, judge, do_loop,
  do_request, enter, settle, give_up, noting_reply, wait_after, reason_of,
}
use svckit.Httpclient.Retry.Spec.{requests, Retried, do_loop-Retried}

-- A refused call sends nothing, records no outcome and leaves the breaker as it was.
pub do_request_refused :
    (c : RetryConfig) (script : ℕ → Attempt) (start now : ℕ) (cb : CircuitBreaker)
    → (can_execute start cb).1 ≡ false
    → let d = do_request c script start now cb in
      (d.outcome ≡ err breaker_open) × (d.breaker ≡ cb) × (requests d.log ≡ 0)
unfolding do_request can_execute
do_request_refused c script start now cb h = ground arith

-- A wait is at most the limit, and a retry is labelled `network_error`.
abbrev pub IsRegular : ℤ → Effect → Type 0
IsRegular limit (waited d) = d ≤ℤ limit
IsRegular limit (retry_recorded r) = r ≡ network_error_reason
IsRegular limit _ = Unit

module _ (c : RetryConfig) (script : ℕ → Attempt) (now : ℕ) (cb : CircuitBreaker) (limit : ℤ) where
  wait_after-le :
      (i : ℕ) (wait : ℤ) → wait ≤ℤ limit → c.max_wait ≤ℤ limit → wait_after c i wait ≤ℤ limit
  unfolding next_wait
  wait_after-le zero wait h m = h
  wait_after-le (suc i) wait h m = ground arith

  enter-All :
      (i : ℕ) (fires : Bool) (wait : ℤ) (last : Option Failure) (d : Done)
      → wait ≤ℤ limit
      → (i ≡ 0) ⊎ (reason_of last ≡ network_error_reason)
      → All (IsRegular limit) d.log
      → All (IsRegular limit) (enter i fires wait last cb d).log
  unfolding enter
  enter-All zero fires wait last d h r a = a
  enter-All (suc i) true wait last d h r a = (ground arith, (h, a))
  enter-All (suc i) false wait last d h r a = (ground arith, (tt, tt))

  noting_reply-All :
      (reply : Result Text Response) (d : Done)
      → All (IsRegular limit) d.log
      → All (IsRegular limit) (noting_reply reply d).log
  noting_reply-All (err e) d a = (tt, a)
  noting_reply-All (ok r) d a = (tt, (tt, a))

  settle-All : (good : Bool) (r : Response) → All (IsRegular limit) (settle good cb r).log
  unfolding settle
  settle-All true r = (tt, tt)
  settle-All false r = tt

  judged-All :
      (n i : ℕ) (wait : ℤ) (v : Verdict)
      → ((e : Failure) → All (IsRegular limit) (do_loop c script now cb n i wait (some e)).log)
      → All
          (IsRegular limit)
          (elim v as (λ _. Done) [
            | retryable e ↦ do_loop c script now cb n i wait (some e)
            | final good r ↦ settle good cb r
          ]).log
  judged-All n i wait (retryable e) deeper = deeper e
  judged-All n i wait (final good r) deeper = settle-All good r

  do_loop-All :
      (n i : ℕ) (wait : ℤ) (last : Option Failure)
      → wait ≤ℤ limit
      → c.max_wait ≤ℤ limit
      → (i ≡ 0) ⊎ (reason_of last ≡ network_error_reason)
      → All (IsRegular limit) (do_loop c script now cb n i wait last).log
  unfolding do_loop give_up
  do_loop-All zero i wait last h m r = (tt, (tt, tt))
  do_loop-All (suc n) i wait last h m r = enter-All i _ wait last _ h r (
      noting_reply-All (script i).reply _ (
        judged-All n (suc i) _ (judge (script i).reply)
          λ e. do_loop-All n (suc i) _ (some e) (wait_after-le i wait h m) m (inr refl)))

-- No wait of a call is longer than the configured initial and maximum waits, and every retry that it
-- counts is labelled `network_error`, also the retries after a server error.
pub do_request-IsRegular :
    (c : RetryConfig) (script : ℕ → Attempt) (start now : ℕ) (cb : CircuitBreaker) (limit : ℤ)
    → c.initial_wait ≤ℤ limit
    → c.max_wait ≤ℤ limit
    → All (IsRegular limit) (do_request c script start now cb).log
unfolding do_request
do_request-IsRegular c script start now cb limit h m = elim (Bool-cases (can_execute start cb).1) [
  | inl p ↦ rw p (do_loop-All c script now _ limit (rounds c) 0 c.initial_wait none h m (inl refl))
  | inr p ↦ rw p (tt, tt)
]

-- One call: what its attempts meet, when it begins and when its last attempt ends.
pub record Round : Type 0 where
  pub script : ℕ → Attempt
  pub start : ℕ
  pub now : ℕ

-- Calls of one client, one after another.
pub run : RetryConfig → List Round → CircuitBreaker → CircuitBreaker
run c [] cb = cb
run c (r ∷ rs) cb = run c rs (do_request c r.script r.start r.now cb).breaker

abbrev pub Fails : RetryConfig → Round → Type 0
Fails c r = Retried r.script (rounds c) 0

abbrev pub end_of : List Round → ℕ → ℕ
end_of [] now = now
end_of (r ∷ rs) now = end_of rs r.now

can_execute_closed :
    (now : ℕ) (cb : CircuitBreaker) → cb.state ≡ circuit_closed → can_execute now cb ≡ (cb, true)
unfolding can_execute
can_execute_closed now cb h = ground arith

failing_call :
    (c : RetryConfig) (r : Round) (cb : CircuitBreaker)
    → cb.state ≡ circuit_closed
    → Fails c r
    → (do_request c r.script r.start r.now cb).breaker ≡ record_failure r.now cb
unfolding do_request
failing_call c r cb closed f =
    rw (can_execute_closed r.start cb closed)
      (do_loop-Retried c r.script r.now cb (rounds c) 0 c.initial_wait none f).1

record IsTripped (now : ℕ) (cb cb' : CircuitBreaker) : Type 0 where
  open_now : cb'.state ≡ circuit_open
  since : cb'.last_failure_time ≡ now
  timeout : cb'.reset_timeout ≡ cb.reset_timeout

run-IsTripped :
    (c : RetryConfig) (rs : List Round) (r : Round) (cb : CircuitBreaker) (m : ℕ)
    → cb.max_failures ≡ pos m
    → cb.state ≡ circuit_closed
    → cb.failure_count + length rs + 1 ≡ m
    → All (Fails c) (r ∷ rs)
    → IsTripped (end_of rs r.now) cb (run c (r ∷ rs) cb)
unfolding run record_failure
run-IsTripped c [] r cb m lim closed count fails =
    rw (failing_call c r cb closed fails.0) (ground arith)
run-IsTripped c (r' ∷ rs) r cb m lim closed count fails = rw (failing_call c r cb closed fails.0) (
    ground (
      arith,
      run-IsTripped c rs r' (record_failure r.now cb) m (ground arith) (ground arith) (ground arith)
          fails.1,
    ))

-- Calls that exhaust their retries, as many in a row as the limit of a closed breaker still allows,
-- open it: a call that begins within the timeout of the last failure sends no request.
pub outage_sheds_load :
    (c : RetryConfig) (rs : List Round) (r next : Round) (cb : CircuitBreaker) (m : ℕ)
    → cb.max_failures ≡ pos m
    → cb.state ≡ circuit_closed
    → cb.failure_count + length rs + 1 ≡ m
    → All (Fails c) (r ∷ rs)
    → sub_ℕ next.start (end_of rs r.now) ≤ℤ cb.reset_timeout
    → let d = do_request c next.script next.start next.now (run c (r ∷ rs) cb) in
      (d.outcome ≡ err breaker_open) × (requests d.log ≡ 0)
unfolding do_request can_execute
outage_sheds_load c rs r next cb m lim closed count fails soon =
    ground (arith, run-IsTripped c rs r cb m lim closed count fails)
