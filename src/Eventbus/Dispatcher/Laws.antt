-- ===== src/Eventbus/Dispatcher/Laws.antt =====
-- About a dispatcher as the handler of a subscriber (eventbus/dispatcher.go, eventbus/publisher.go).
use svckit.Base.{
  ℕ, suc, ◌+◌, ◌*◌, ◌≡◌, refl, ap, ◌∙◌, Bool, true, false, List, [], ◌∷◌, ◌++◌, Option, none, some,
  if◌then◌else◌, arith,
}
use svckit.Base.Text.{Text}
use svckit.Eventbus.Event.{BaseEvent}
use svckit.Eventbus.Wire.{
  error, requeued_status, unhandled, processing_error, Metric, event_published, event_received,
  event_processed, duration_observed, event_in_dlq, event_requeued, event_acknowledged,
  connection_status, Ending, succeeded, failed, handler_panicked, Handler, HandlerRun,
}
use svckit.Eventbus.Subscriber.{extracted, process_extracted, after_handler, is_retryable_error}
use svckit.Eventbus.Dispatcher.{Dispatcher, handle, route, outcome_metrics}

-- The increments of rabbitmq_events_processed_total.
unfoldable pub processed_count : List Metric → ℕ
processed_count [] = 0
processed_count (event_processed t s q status ∷ ms) = suc (processed_count ms)
processed_count (event_published t s status ∷ ms) = processed_count ms
processed_count (event_received t s q ∷ ms) = processed_count ms
processed_count (duration_observed t s q ∷ ms) = processed_count ms
processed_count (event_in_dlq t s q r ∷ ms) = processed_count ms
processed_count (event_requeued t s q ∷ ms) = processed_count ms
processed_count (event_acknowledged t s q ∷ ms) = processed_count ms
processed_count (connection_status s k b ∷ ms) = processed_count ms

processed_count-append :
    (xs ys : List Metric) → processed_count (xs ++ ys) ≡ processed_count xs + processed_count ys
unfolding processed_count
processed_count-append [] ys = omega arith
processed_count-append (event_processed t s q status ∷ ms) ys =
    omega (arith, processed_count-append ms ys)
processed_count-append (_ ∷ ms) ys = processed_count-append ms ys

-- What is counted after a handler that did not panic, and after one that did.
abbrev pub once : Ending → ℕ
once succeeded = 1
once (failed e) = 1
once handler_panicked = 0

retried_count :
    (b : Bool) (service queue : Text) (e : BaseEvent)
    → processed_count (
        duration_observed e.type service queue
        ∷ (if b
            then event_requeued e.type service queue
              ∷ event_processed e.type service queue requeued_status
              ∷ []
            else event_in_dlq e.type service queue processing_error
              ∷ event_processed e.type service queue error
              ∷ []))
      ≡ 1
unfolding processed_count
retried_count true service queue e = refl
retried_count false service queue e = refl

after_handler-processed_count :
    (service queue : Text) (e : BaseEvent) (run : HandlerRun) (ending : Ending)
    → processed_count (after_handler service queue e run ending).metrics
      ≡ processed_count run.metrics + once ending
unfolding after_handler processed_count
after_handler-processed_count service queue e run succeeded = processed_count-append run.metrics _
after_handler-processed_count service queue e run (failed f) =
    processed_count-append run.metrics _
    ∙ ap (λ n. processed_count run.metrics + n)
        (retried_count (is_retryable_error f) service queue e)
after_handler-processed_count service queue e run handler_panicked = omega arith

outcome_metrics-processed_count :
    (d : Dispatcher) (e : BaseEvent) (ending : Ending)
    → processed_count (outcome_metrics d e ending) ≡ once ending
unfolding outcome_metrics processed_count
outcome_metrics-processed_count d e succeeded = refl
outcome_metrics-processed_count d e (failed f) = refl
outcome_metrics-processed_count d e handler_panicked = refl

-- What the handler that a dispatcher chooses counts by itself.
abbrev pub own_count : Dispatcher → BaseEvent → ℕ
own_count d e = elim (route e.type d.handlers d.fallback) [
  | none ↦ 0
  | some fn ↦ processed_count (fn e).metrics
]

handle-processed_count :
    (d : Dispatcher) (e : BaseEvent)
    → processed_count (handle d e).metrics ≡ own_count d e + once (handle d e).ending
unfolding handle
handle-processed_count d e = by_route (route e.type d.handlers d.fallback)
  where
    chosen : Option Handler → HandlerRun
    chosen none = record {
      metrics = event_processed e.type d.service d.queue unhandled ∷ [];
      ending = succeeded;
    }
    chosen (some fn) = record {
      metrics = (fn e).metrics ++ outcome_metrics d e (fn e).ending;
      ending = (fn e).ending;
    }

    by_route :
        (o : Option Handler)
        → processed_count (chosen o).metrics
          ≡ (elim o [ none ↦ 0 | some fn ↦ processed_count (fn e).metrics ])
            + once (chosen o).ending
    by_route none = unfold processed_count in refl
    by_route (some fn) =
        processed_count-append (fn e).metrics (outcome_metrics d e (fn e).ending)
        ∙ ap (λ n. processed_count (fn e).metrics + n)
            (outcome_metrics-processed_count d e (fn e).ending)

-- An event that reaches a subscriber whose handler is a dispatcher is counted twice as processed,
-- once by each, beside what its own handler counts; unless that panics, when neither counts it.
pub handle_counted_twice :
    (service queue : Text) (d : Dispatcher) (e : BaseEvent)
    → processed_count (process_extracted service queue (handle d) (extracted e)).metrics
      ≡ own_count d e + 2 * once (handle d e).ending
unfolding process_extracted
handle_counted_twice service queue d e =
    after_handler-processed_count service queue e (handle d e) (handle d e).ending
    ∙ omega (arith, handle-processed_count d e)
