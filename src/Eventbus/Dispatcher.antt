-- ===== src/Eventbus/Dispatcher.antt =====
-- `Dispatcher` of eventbus/dispatcher.go. The map of handlers is an association list, whose first
-- entry for a key is the last one that was assigned.
pub mod Laws
use svckit.Base.{List, [], ◌∷◌, ◌++◌, Option, none, some, if◌then◌else◌}
use svckit.Base.Text.{Text, text_eq}
use svckit.Eventbus.Event.{BaseEvent}
use svckit.Eventbus.Wire.{
  success, error, unhandled, Metric, event_processed, duration_observed, Ending, succeeded, failed,
  handler_panicked, Handler,
}

-- A handler may be nil.
pub record Dispatcher : Type 0 where
  pub service : Text
  pub queue : Text
  pub handlers : List (Text × Option Handler)
  pub fallback : Option Handler

unfoldable pub new_dispatcher : Text → Text → Dispatcher
new_dispatcher service queue = record {
  service = service;
  queue = queue;
  handlers = [];
  fallback = none;
}

unfoldable pub register : Text → Option Handler → Dispatcher → Dispatcher
register event_type fn d = record d { handlers = (event_type, fn) ∷ d.handlers }

unfoldable pub with_fallback : Option Handler → Dispatcher → Dispatcher
with_fallback fn d = record d { fallback = fn }

-- `WithMetrics`
unfoldable pub with_metrics : Text → Text → Handler → Dispatcher
unfolding new_dispatcher with_fallback
with_metrics service queue handler = with_fallback (some handler) (new_dispatcher service queue)

-- The handler for a type, or the fallback for a type with no entry.
unfoldable pub route : Text → List (Text × Option Handler) → Option Handler → Option Handler
unfolding text_eq
route event_type [] fallback = fallback
route event_type ((t, fn) ∷ handlers) fallback =
    let rest = route event_type handlers fallback in if text_eq t event_type then fn else rest

-- What `Handle` records after the handler; nothing if it panicked.
unfoldable pub outcome_metrics : Dispatcher → BaseEvent → Ending → List Metric
outcome_metrics d e handler_panicked = []
outcome_metrics d e succeeded =
    event_processed e.type d.service d.queue success
    ∷ duration_observed e.type d.service d.queue
    ∷ []
outcome_metrics d e (failed failure) =
    event_processed e.type d.service d.queue error ∷ duration_observed e.type d.service d.queue ∷ []

unfoldable pub handle : Dispatcher → Handler
unfolding route outcome_metrics
handle d e = elim (route e.type d.handlers d.fallback) [
  | none ↦ record {
    metrics = event_processed e.type d.service d.queue unhandled ∷ [];
    ending = succeeded;
  }
  | some fn ↦
      let run = fn e in
      record { metrics = run.metrics ++ outcome_metrics d e run.ending; ending = run.ending }
]
