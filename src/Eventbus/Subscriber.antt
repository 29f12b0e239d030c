-- ===== src/Eventbus/Subscriber.antt =====
-- `Subscriber` of eventbus/publisher.go: what becomes of one delivery. Its body is given by what
-- json.Unmarshal makes of it as a signed event and as an event, `none` for an error.
pub mod Laws
pub mod Delivered
use svckit.Base.{
  ℕ, Bool, true, false, not, ◌&&◌, ◌||◌, List, [], ◌∷◌, ◌++◌, Option, none, some, Result, ok, err,
  if◌then◌else◌,
}
use svckit.Base.Run.{Run, done, blocked, panicked}
use svckit.Base.Text.{Text, codes, contains, to_lower}
use svckit.Eventbus.Normalize.{Codec}
use svckit.Eventbus.Event.{BaseEvent}
use svckit.Eventbus.Signing.{SignatureConfig, SignedEvent, SignError, verify_event}
use svckit.Eventbus.Wire.{
  success, error, requeued_status, Reason, parse_error, invalid_signature_reason,
  unsigned_event_rejected, processing_error, Metric, event_received, event_processed,
  duration_observed, event_in_dlq, event_requeued, event_acknowledged, connection_status,
  BrokerCall, dial, open_channel, queue_declare, queue_bind, qos, consume, run_calls, Ending,
  succeeded, failed, handler_panicked, HandlerRun, Handler, Settlement, acked, nacked,
}
use svckit.Eventbus.Publisher.{default_exchange, signing_of}

pub record Subscriber : Type 0 where
  pub service_name : Text
  pub verifier : Option SignatureConfig
  pub require_signing : Bool

unfoldable pub new_subscriber_with_signing :
    (BrokerCall → Option Text)
    → Text
    → Text
    → Option SignatureConfig
    → Bool
    → Result Text (Subscriber × List Metric)
unfolding run_calls signing_of
new_subscriber_with_signing answer env_key service_name config require_signing =
    elim (run_calls answer (dial ∷ open_channel ∷ [])).1 [
      | some e ↦ err e
      | none ↦ ok (
        record {
          service_name = service_name;
          verifier = signing_of env_key config require_signing;
          require_signing = require_signing;
        },
        connection_status service_name (codes "subscriber") true ∷ [],
      )
    ]

abbrev pub dlq_name : Text → Text
dlq_name queue_name = queue_name ++ codes ".dlq"

-- The calls of `Subscribe`, for a queue with a name of its own.
abbrev pub subscribe_calls : Text → Text → List BrokerCall
subscribe_calls queue_name routing_key =
    queue_declare (dlq_name queue_name) none
    ∷ queue_declare queue_name (some (default_exchange, dlq_name queue_name))
    ∷ queue_bind queue_name routing_key default_exchange
    ∷ queue_bind (dlq_name queue_name) (dlq_name queue_name) default_exchange
    ∷ qos 1
    ∷ consume queue_name [] false
    ∷ []

unfoldable pub subscribe : (BrokerCall → Option Text) → Text → Text → List BrokerCall × Option Text
unfolding run_calls
subscribe answer queue_name routing_key = run_calls answer (subscribe_calls queue_name routing_key)

-- `signed_header` is the header `signed`, where it is there and a bool.
pub record Delivery : Type 0 where
  pub signed_header : Option Bool
  pub as_signed : Option SignedEvent
  pub as_event : Option BaseEvent

-- What a delivery holds for the handler.
pub data Extracted : Type 0 where
  crashed : Extracted
  rejected : Text → Reason → Extracted
  extracted : BaseEvent → Extracted

-- `exists && isSigned`
abbrev pub marked_signed : Delivery → Bool
marked_signed d = elim d.signed_header [ none ↦ false | some b ↦ b ]

-- After `Verify`: a refused event that is nil is dereferenced for the log.
unfoldable pub after_verify : Option BaseEvent → Run (Option SignError) → Extracted
after_verify none verified = crashed
after_verify (some e) (done none) = extracted e
after_verify (some e) (done (some failure)) = rejected e.type invalid_signature_reason
after_verify (some e) blocked = crashed
after_verify (some e) panicked = crashed

module _ (codec : Codec) where
  unfoldable pub extract_signed : ℕ → SignatureConfig → Delivery → Extracted
  unfolding after_verify
  extract_signed now c d = elim d.as_signed [
    | none ↦ rejected (codes "unknown") parse_error
    | some s ↦ after_verify s.event (verify_event codec now s c)
  ]

  unfoldable pub extract_unsigned : Subscriber → Delivery → Extracted
  extract_unsigned s d =
      if s.require_signing && not (marked_signed d)
      then rejected (codes "unknown") unsigned_event_rejected
      else elim d.as_event [ none ↦ rejected (codes "unknown") parse_error | some e ↦ extracted e ]

  unfoldable pub extract : ℕ → Subscriber → Delivery → Extracted
  unfolding extract_signed extract_unsigned
  extract now s d = elim s.verifier [
    | none ↦ extract_unsigned s d
    | some c ↦ if marked_signed d then extract_signed now c d else extract_unsigned s d
  ]

-- The first loop of tests of `isRetryableError`; the others return false as well.
unfoldable pub is_retryable_error : Text → Bool
unfolding contains to_lower
is_retryable_error e =
    let err_str = to_lower e in
    contains err_str (codes "connection")
    || contains err_str (codes "timeout")
    || contains err_str (codes "network")
    || contains err_str (codes "dial")

-- What one delivery leaves: the metrics, its settlements, and the events that the handler was given.
pub record Processed : Type 0 where
  pub metrics : List Metric
  pub settled : List Settlement
  pub handled : List BaseEvent

unfoldable pub after_handler : Text → Text → BaseEvent → HandlerRun → Ending → Processed
unfolding is_retryable_error
after_handler service queue e run succeeded = record {
  metrics =
      event_received e.type service queue ∷ run.metrics
      ++ (duration_observed e.type service queue
          ∷ event_acknowledged e.type service queue
          ∷ event_processed e.type service queue success
          ∷ []);
  settled = acked ∷ [];
  handled = e ∷ [];
}
after_handler service queue e run (failed failure) = record {
  metrics =
      event_received e.type service queue ∷ run.metrics
      ++ (duration_observed e.type service queue
          ∷ (if is_retryable_error failure
              then event_requeued e.type service queue
                ∷ event_processed e.type service queue requeued_status
                ∷ []
              else event_in_dlq e.type service queue processing_error
                ∷ event_processed e.type service queue error
                ∷ []));
  settled = nacked (is_retryable_error failure) ∷ [];
  handled = e ∷ [];
}
after_handler service queue e run handler_panicked = record {
  metrics = event_received e.type service queue ∷ run.metrics;
  settled = nacked false ∷ [];
  handled = e ∷ [];
}

unfoldable pub process_extracted : Text → Text → Handler → Extracted → Processed
unfolding after_handler
process_extracted service queue handler crashed = record {
  metrics = [];
  settled = nacked false ∷ [];
  handled = [];
}
process_extracted service queue handler (rejected event_type reason) = record {
  metrics = event_in_dlq event_type service queue reason ∷ [];
  settled = nacked false ∷ [];
  handled = [];
}
process_extracted service queue handler (extracted e) =
    let run = handler e in after_handler service queue e run run.ending

-- The body of the loop of `Subscribe`, for one delivery.
unfoldable pub process : Codec → ℕ → Subscriber → Text → Handler → Delivery → Processed
unfolding process_extracted extract
process codec now s queue handler d =
    process_extracted s.service_name queue handler (extract codec now s d)
