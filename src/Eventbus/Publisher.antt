-- ===== src/Eventbus/Publisher.antt =====
-- `Publisher` of eventbus/publisher.go.
use svckit.Base.{
  ℕ, Bool, true, false, ◌||◌, List, [], ◌∷◌, ◌++◌, Option, none, some, Result, ok, err,
  if◌then◌else◌,
}
use svckit.Base.Text.{Text, codes, is_some}
use svckit.Eventbus.Normalize.{Codec}
use svckit.Eventbus.Event.{BaseEvent}
use svckit.Eventbus.Signing.{SignatureConfig, SignError, sign_event, configured}
use svckit.Eventbus.Wire.{
  success, error, Metric, event_published, connection_status, Body, plain, wrapped, Message,
  BrokerCall, dial, open_channel, exchange_declare, run_calls,
}

abbrev pub default_exchange : Text
default_exchange = codes "events"

pub record Publisher : Type 0 where
  pub service_name : Text
  pub signer : Option SignatureConfig
  pub require_signing : Bool

-- The signer of a publisher and the verifier of a subscriber: `none` for nil.
unfoldable pub signing_of : Text → Option SignatureConfig → Bool → Option SignatureConfig
signing_of env_key config require_signing =
    if is_some config || require_signing then some (configured env_key config) else none

abbrev pub publisher_calls : List BrokerCall
publisher_calls = dial ∷ open_channel ∷ exchange_declare default_exchange (codes "topic") ∷ []

-- The error of the call that fails, or the publisher with the metric of its connection.
unfoldable pub new_publisher_with_signing :
    (BrokerCall → Option Text)
    → Text
    → Text
    → Option SignatureConfig
    → Bool
    → Result Text (Publisher × List Metric)
unfolding run_calls signing_of
new_publisher_with_signing answer env_key service_name config require_signing =
    elim (run_calls answer publisher_calls).1 [
      | some e ↦ err e
      | none ↦ ok (
        record {
          service_name = service_name;
          signer = signing_of env_key config require_signing;
          require_signing = require_signing;
        },
        connection_status service_name (codes "publisher") true ∷ [],
      )
    ]

pub data PublishError : Type 0 where
  signer_missing not_marshalled : PublishError
  signing_failed : SignError → PublishError
  channel_failed : Text → PublishError

-- What a call of `Publish` leaves: the messages sent, the metrics and the error.
pub record Publication : Type 0 where
  pub sent : List Message
  pub metrics : List Metric
  pub failure : Option PublishError

unfoldable pub refused : Publisher → BaseEvent → PublishError → Publication
refused p e failure = record {
  sent = [];
  metrics = event_published e.type p.service_name error ∷ [];
  failure = some failure;
}

-- `channel.Publish`, and what follows it; `answer` is its error.
unfoldable pub send : Publisher → BaseEvent → Bool → Body → Option Text → Publication
unfolding refused
send p e signed body (some failure) = refused p e (channel_failed failure)
send p e signed body none = record {
  sent =
      record { exchange = default_exchange; routing_key = e.type; signed = signed; body = body }
      ∷ [];
  metrics = event_published e.type p.service_name success ∷ [];
  failure = none;
}

module _ (codec : Codec) where
  unfoldable pub publish_signed : ℕ → Option Text → BaseEvent → Publisher → Publication
  unfolding send refused
  publish_signed now answer e p = elim p.signer [
    | none ↦ record { sent = []; metrics = []; failure = some signer_missing }
    | some c ↦ elim (sign_event codec now e c) [
      | err failure ↦ refused p e (signing_failed failure)
      | ok s ↦ send p e true (wrapped s) answer
    ]
  ]

  unfoldable pub publish : ℕ → Option Text → BaseEvent → Publisher → Publication
  unfolding publish_signed send refused
  publish now answer e p = elim p.signer [
    | some c ↦ publish_signed now answer e p
    | none ↦ elim e.payload [
      | none ↦ refused p e not_marshalled
      | some v ↦ send p e false (plain e) answer
    ]
  ]

-- `TestConnection`: whether the connection is closed, and the error of opening a channel.
unfoldable pub test_connection : Bool → Bool → Option Text → Option Text
test_connection closed has_channel answer =
    if closed
    then some (codes "connection is closed")
    else if has_channel
    then answer
    else some (codes "channel is nil")

-- `Close` of a publisher or a subscriber, with the errors of closing its channel and connection.
unfoldable pub close : Text → Text → Option Text → Option Text → List Metric × List Text
close service_name connection_type of_channel of_connection = (
  connection_status service_name connection_type false ∷ [],
  errors of_channel ++ errors of_connection,
)
  where
    errors : Option Text → List Text
    errors none = []
    errors (some e) = e ∷ []
