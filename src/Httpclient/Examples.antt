-- ===== src/Httpclient/Examples.antt =====
-- Tests of the model of httpclient/client.go, and its theorems at concrete inputs.
use svckit.Base.{◌+◌, ℕ, zero, suc, ◌≡◌, refl, true, List, [], ◌∷◌, arith, ok, err}
use svckit.Base.Int.{pos}
use svckit.Base.Text.{codes, cut}
use svckit.Httpclient.Breaker.{CircuitBreaker, new_circuit_breaker, can_execute}
use svckit.Httpclient.Breaker.Laws.{Call, asks, fails, after, can_execute-iff-history}
use svckit.Httpclient.Retry.{
  Attempt, do_request, do_loop, enter, judge, settle, rounds, default_retry_config, breaker_open,
  server_error,
}
use svckit.Httpclient.Retry.Spec.{Ending, do_request-Ending, requests}
use svckit.Httpclient.Retry.Bounds.{Fails, outage_sheds_load, Round, run}
use svckit.Httpclient.Trace.{TraceContext, is_hex, to_headers, trace_context_from_headers}
use svckit.Httpclient.Trace.Headers.{trace_context_from_headers-to_headers}

-- Two failures, a late question, and one more failure.
abbrev tripped : List Call
tripped = asks 50 ∷ fails 10 ∷ fails 5 ∷ []

can_execute-iff-history_example :
    (can_execute 60 (after (new_circuit_breaker (pos 2) (pos 30)) tripped)).1 ≡ true
can_execute-iff-history_example = can_execute-iff-history (pos 2) (pos 30) tripped 60 (omega arith)

reopened : CircuitBreaker
reopened = after (new_circuit_breaker (pos 2) (pos 30)) (fails 55 ∷ tripped)

-- A service that answers 503 once and then 200, and one that always answers 503.
abbrev answer : ℕ → Attempt
answer status = record {
  timer_fires = true;
  reply = ok (record { status_code = status; body = [] });
}

abbrev recovers : ℕ → Attempt
recovers zero = answer 503
recovers (suc i) = answer 200

abbrev down : ℕ → Attempt
down i = answer 503

abbrev fresh_breaker : CircuitBreaker
fresh_breaker = new_circuit_breaker (pos 2) (pos 1000)

recovers_second : requests (do_request default_retry_config recovers 0 9 fresh_breaker).log ≡ 2
unfolding do_request do_loop enter judge settle can_execute new_circuit_breaker default_retry_config
recovers_second = refl

do_request-Ending_example :
    Ending recovers 9
      (can_execute 0 fresh_breaker).0
      (rounds default_retry_config)
      (do_request default_retry_config recovers 0 9 fresh_breaker)
do_request-Ending_example =
    do_request-Ending default_retry_config recovers 0 9 fresh_breaker
      (unfold can_execute new_circuit_breaker in refl)

abbrev outage : ℕ → Round
outage now = record { script = down; start = now; now = now + 9 }

down-Fails : (now : ℕ) → Fails default_retry_config (outage now)
unfolding rounds default_retry_config judge
down-Fails now = (
  tt,
  (server_error 503, refl),
  (
    refl,
    (server_error 503, refl),
    (refl, (server_error 503, refl), (refl, (server_error 503, refl), tt)),
  ),
)

outage_sheds_load_example :
    let d =
      do_request default_retry_config down 30 40
        (run default_retry_config (outage 0 ∷ outage 10 ∷ []) fresh_breaker) in
    (d.outcome ≡ err breaker_open) × (requests d.log ≡ 0)
outage_sheds_load_example =
    outage_sheds_load default_retry_config (outage 10 ∷ []) (outage 0)
      (record { script = down; start = 30; now = 40 }) fresh_breaker 2
      (unfold new_circuit_breaker in refl) (unfold new_circuit_breaker in refl)
      (unfold new_circuit_breaker in refl) (down-Fails 0, (down-Fails 10, tt))
      (unfold new_circuit_breaker in omega arith)

abbrev traced : TraceContext
traced = record {
  trace_id = codes "0af7651916cd43dd8448eb211c80319c";
  span_id = codes "b7ad6b7169203331";
  parent_span_id = [];
  request_id = codes "r1";
  correlation_id = codes "c1";
  user_id = [];
  service_chain = codes "gateway" ∷ codes "orders" ∷ [];
}

trace_context_from_headers-to_headers_example :
    trace_context_from_headers (codes "00f067aa0ba902b7") (to_headers traced)
    ≡ record traced { parent_span_id = traced.span_id }
trace_context_from_headers-to_headers_example =
    trace_context_from_headers-to_headers traced (codes "00f067aa0ba902b7") (unfold is_hex in refl)
      (unfold is_hex in refl) (unfold cut in (((λ e. cc), refl), (((λ e. cc), refl), tt)))
