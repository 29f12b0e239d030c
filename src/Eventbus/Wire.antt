-- ===== src/Eventbus/Wire.antt =====
-- What passes between package eventbus and the world: the metrics of eventbus/metrics.go, the calls
-- of a broker's channel, and the messages. What a call of the broker answers is a script.
use svckit.Base.{ℕ, Bool, List, [], ◌∷◌, Option, none, some}
use svckit.Base.Int.{ℤ}
use svckit.Base.Text.{Text}
use svckit.Eventbus.Event.{BaseEvent}
use svckit.Eventbus.Signing.{SignedEvent}

pub data Status : Type 0 where
  success error requeued_status unhandled : Status

pub data Reason : Type 0 where
  parse_error invalid_signature_reason unsigned_event_rejected processing_error : Reason

-- The labels are the event's type, the service and the queue, and further ones.
pub data Metric : Type 0 where
  event_published : Text → Text → Status → Metric
  event_received : Text → Text → Text → Metric
  event_processed : Text → Text → Text → Status → Metric
  duration_observed : Text → Text → Text → Metric
  event_in_dlq : Text → Text → Text → Reason → Metric
  event_requeued : Text → Text → Text → Metric
  event_acknowledged : Text → Text → Text → Metric
  connection_status : Text → Text → Bool → Metric

-- A value of an AMQP header.
pub data HeaderValue : Type 0 where
  of_bool : Bool → HeaderValue
  of_text : Text → HeaderValue
  of_int32 : ℤ → HeaderValue
  of_other : HeaderValue

-- The JSON of a body, by what it decodes to.
pub data Body : Type 0 where
  plain : BaseEvent → Body
  wrapped : SignedEvent → Body

pub record Message : Type 0 where
  pub exchange : Text
  pub routing_key : Text
  pub signed : Bool
  pub body : Body

-- The calls that set up a connection, a channel, a publisher or a subscriber.
pub data BrokerCall : Type 0 where
  dial open_channel : BrokerCall
  exchange_declare : Text → Text → BrokerCall
  queue_declare : Text → Option (Text × Text) → BrokerCall
  exclusive_queue_declare : Text → (message_ttl : ℤ) → BrokerCall
  queue_bind : Text → Text → Text → BrokerCall
  qos : ℕ → BrokerCall
  consume : Text → Text → Bool → BrokerCall

-- The calls in their order up to the first that fails, with its error.
unfoldable pub run_calls :
    (BrokerCall → Option Text) → List BrokerCall → List BrokerCall × Option Text
run_calls answer [] = ([], none)
run_calls answer (c ∷ cs) = elim (answer c) [
  | some e ↦ (c ∷ [], some e)
  | none ↦ let rest = run_calls answer cs in (c ∷ rest.0, rest.1)
]

-- What a handler does with an event: the metrics that it records, and how it ends.
pub data Ending : Type 0 where
  succeeded : Ending
  failed : Text → Ending
  handler_panicked : Ending

pub record HandlerRun : Type 0 where
  pub metrics : List Metric
  pub ending : Ending

abbrev pub Handler : Type 0
Handler = BaseEvent → HandlerRun

-- `ack` and `nack` of eventbus/delivery.go; the flag says whether the broker requeues.
pub data Settlement : Type 0 where
  acked : Settlement
  nacked : Bool → Settlement
