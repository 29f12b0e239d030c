-- ===== src/Eventbus/Decode.antt =====
-- What json.Unmarshal makes of the body that json.Marshal made of an event or of a signed event
-- (eventbus/events.go, eventbus/publisher.go): a number of the payload is read as a float64. The
-- strings of an event are UTF-8, which json.Marshal leaves as they are.
use svckit.Base.{◌≡◌, [], Option, none, some}
use svckit.Eventbus.Json.{Json, null}
use svckit.Eventbus.Normalize.{Codec, normalize_data_structure}
use svckit.Eventbus.Event.{BaseEvent}
use svckit.Eventbus.Signing.{SignedEvent}
use svckit.Eventbus.Wire.{Body, plain, wrapped, Message}
use svckit.Eventbus.Subscriber.{Delivery}

abbrev pub with_payload : BaseEvent → Json → BaseEvent
with_payload e v = record e { payload = some v }

-- `FromJSON` of an event in JSON, `none` for an error.
unfoldable pub from_json : Codec → BaseEvent → Option BaseEvent
unfolding normalize_data_structure
from_json codec e = elim (normalize_data_structure codec e.payload) [
  | none ↦ none
  | some v ↦ some (with_payload e v)
]

-- The event that json.Unmarshal makes of an object with none of its fields.
abbrev pub empty_event : BaseEvent
empty_event = record {
  id = [];
  type = [];
  timestamp = 0;
  source = [];
  user_id = [];
  payload = some null;
}

abbrev pub empty_signed_event : SignedEvent
empty_signed_event = record { event = none; signature = []; signed_at = 0; expires_at = 0 }

abbrev pub with_event : SignedEvent → Option BaseEvent → Option SignedEvent
with_event s none = none
with_event s (some e) = some (record s { event = some e })

-- A body as a signed event: a plain event has none of its fields, and a nil event is null.
unfoldable pub signed_event_from_json : Codec → Body → Option SignedEvent
unfolding from_json
signed_event_from_json codec (plain e) = some empty_signed_event
signed_event_from_json codec (wrapped s) = elim s.event [
  | none ↦ some s
  | some e ↦ with_event s (from_json codec e)
]

-- A body as an event: a signed event has none of its fields.
unfoldable pub event_from_json : Codec → Body → Option BaseEvent
unfolding from_json
event_from_json codec (plain e) = from_json codec e
event_from_json codec (wrapped s) = some empty_event

-- The delivery is that of the message: the broker leaves its header and its body as they are.
pub record Carried (codec : Codec) (m : Message) (d : Delivery) : Type 0 where
  pub header : d.signed_header ≡ some m.signed
  pub signed_body : d.as_signed ≡ signed_event_from_json codec m.body
  pub event_body : d.as_event ≡ event_from_json codec m.body
