-- ===== src/Eventbus/Broadcast.antt =====
-- Broadcasts: eventbus/broadcast.go.
use svckit.Base.{true, false, List, [], ◌∷◌, ◌++◌, Option, none, some, if◌then◌else◌}
use svckit.Base.Int.{ℤ, pos, ltb_ℤ}
use svckit.Base.Run.{Run, done, panicked}
use svckit.Base.Text.{Text, codes, text_eq}
use svckit.Eventbus.Event.{BaseEvent}
use svckit.Eventbus.Wire.{
  HeaderValue, of_bool, of_text, of_int32, of_other, BrokerCall, exchange_declare,
  exclusive_queue_declare, queue_bind, consume, run_calls, Ending, succeeded, failed,
  handler_panicked, HandlerRun, Settlement, acked, nacked,
}

pub record BroadcastSubscriber : Type 0 where
  pub service_name : Text
  pub instance_id : Text

-- `exchange.service.instance-id`
abbrev pub instance_queue : Text → BroadcastSubscriber → Text
instance_queue exchange_name bs = exchange_name ++ (46 ∷ (bs.service_name ++ (46 ∷ bs.instance_id)))

-- The calls of `SubscribeBroadcast`.
abbrev pub broadcast_calls : Text → BroadcastSubscriber → List BrokerCall
broadcast_calls exchange_name bs =
    exchange_declare exchange_name (codes "fanout")
    ∷ exclusive_queue_declare (instance_queue exchange_name bs) (pos 300_000)
    ∷ queue_bind (instance_queue exchange_name bs) [] exchange_name
    ∷ consume (instance_queue exchange_name bs) bs.instance_id true
    ∷ []

unfoldable pub subscribe_broadcast :
    (BrokerCall → Option Text) → Text → BroadcastSubscriber → List BrokerCall × Option Text
unfolding run_calls
subscribe_broadcast answer exchange_name bs = run_calls answer (broadcast_calls exchange_name bs)

abbrev pub Headers : Type 0
Headers = List (Text × HeaderValue)

-- `as_event` is what `FromJSON` makes of the body, `none` for an error.
pub record BroadcastDelivery : Type 0 where
  pub headers : Headers
  pub as_event : Option BaseEvent

pub record BroadcastEvent : Type 0 where
  pub base : BaseEvent
  pub exchange : Text
  pub instance_id : Text
  pub headers : List (Text × Text)

-- The headers whose values are texts.
unfoldable pub text_headers : Headers → List (Text × Text)
text_headers [] = []
text_headers ((k, of_text v) ∷ hs) = (k, v) ∷ text_headers hs
text_headers ((k, of_bool v) ∷ hs) = text_headers hs
text_headers ((k, of_int32 v) ∷ hs) = text_headers hs
text_headers ((k, of_other) ∷ hs) = text_headers hs

-- The event in its context. The headers that are added come first, so that they are found first.
unfoldable pub broadcast_event :
    Text → BroadcastSubscriber → BaseEvent → BroadcastDelivery → BroadcastEvent
unfolding text_headers
broadcast_event exchange_name bs e d = record {
  base = e;
  exchange = exchange_name;
  instance_id = bs.instance_id;
  headers =
      (codes "broadcast", codes "true")
      ∷ (codes "exchange", exchange_name)
      ∷ (codes "instance_id", bs.instance_id)
      ∷ text_headers d.headers;
}

unfoldable pub header : Text → Headers → Option HeaderValue
unfolding text_eq
header k [] = none
header k ((j, v) ∷ hs) = let rest = header k hs in if text_eq j k then some v else rest

-- The header `x-retry-count`, 0 where it is not there or no int32.
unfoldable pub retry_count : Headers → ℤ
unfolding header
retry_count hs = elim (header (codes "x-retry-count") hs) [
  | none ↦ pos 0
  | some v ↦ elim v [ of_int32 n ↦ n | of_bool b ↦ pos 0 | of_text t ↦ pos 0 | of_other ↦ pos 0 ]
]

unfoldable pub settle_broadcast : Headers → Ending → Run Settlement
unfolding retry_count
settle_broadcast hs succeeded = done acked
settle_broadcast hs (failed e) = done (nacked (ltb_ℤ (retry_count hs) (pos 3)))
settle_broadcast hs handler_panicked = panicked

-- The body of the loop of `processBroadcastMessages`: a panic of the handler is not recovered.
unfoldable pub process_broadcast :
    Text → BroadcastSubscriber → (BroadcastEvent → HandlerRun) → BroadcastDelivery → Run Settlement
unfolding broadcast_event settle_broadcast
process_broadcast exchange_name bs handler d = elim d.as_event [
  | none ↦ done (nacked false)
  | some e ↦ settle_broadcast d.headers (handler (broadcast_event exchange_name bs e d)).ending
]

pub record BroadcastMessage : Type 0 where
  pub exchange : Text
  pub headers : Headers
  pub app_id : Text
  pub body : BaseEvent

pub data BroadcastError : Type 0 where
  not_declared not_published : Text → BroadcastError
  not_serialized : BroadcastError

-- `PublishBroadcast`, with the formatted time and the broker's two answers.
unfoldable pub publish_broadcast :
    Text
    → (BrokerCall → Option Text)
    → Option Text
    → Text
    → Text
    → BaseEvent
    → List BroadcastMessage × Option BroadcastError
publish_broadcast published_at answer sent service_name exchange_name e =
    elim (answer (exchange_declare exchange_name (codes "fanout"))) [
      | some failure ↦ ([], some (not_declared failure))
      | none ↦ elim e.payload [
        | none ↦ ([], some not_serialized)
        | some v ↦ elim sent [
          | some failure ↦ ([], some (not_published failure))
          | none ↦ (
            record {
              exchange = exchange_name;
              headers =
                  (codes "broadcast", of_bool true)
                  ∷ (codes "published_at", of_text published_at)
                  ∷ (codes "source", of_text e.source)
                  ∷ (codes "event_type", of_text e.type)
                  ∷ (codes "event_id", of_text e.id)
                  ∷ [];
              app_id = service_name;
              body = e;
            }
                ∷ [],
            none,
          )
        ]
      ]
    ]
