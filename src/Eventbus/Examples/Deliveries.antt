-- ===== src/Eventbus/Examples/Deliveries.antt =====
-- Tests of the model of what becomes of published events (eventbus/publisher.go,
-- eventbus/dispatcher.go, eventbus/broadcast.go), and its theorems at concrete events.
use svckit.Base.{
  ◌+◌, ◌*◌, ◌≡◌, refl, ap, subst, Bool, true, false, [], ◌∷◌, Option, none, some, ok, arith,
}
use svckit.Base.Int.{ℤ, pos}
use svckit.Base.Run.{done}
use svckit.Base.Text.{Text, codes, text_eq, trim_space, contains, to_lower}
use svckit.Eventbus.Json.{bytes, Json, number, object, no_fields, field, marshal, integer}
use svckit.Eventbus.Event.{BaseEvent}
use svckit.Eventbus.Signing.{
  SignedEvent, dev_key, sign_event, verify_event, default_signature_config, configured,
}
use svckit.Eventbus.Wire.{
  BrokerCall, Message, Handler, HandlerRun, succeeded, failed, connection_status, wrapped, nacked,
  of_int32,
}
use svckit.Eventbus.Publisher.{Publisher, publish}
use svckit.Eventbus.Subscriber.{
  Subscriber, new_subscriber_with_signing, Delivery, extracted, process_extracted, process,
  is_retryable_error,
}
use svckit.Eventbus.Subscriber.Laws.{Settled, Verified, process-Settled, process-Verified}
use svckit.Eventbus.Normalize.{NumberText, normalize_data_structure}
use svckit.Eventbus.Normalize.Laws.{IsStable}
use svckit.Eventbus.Decode.{
  empty_event, Carried, with_payload, event_from_json, signed_event_from_json,
}
use svckit.Eventbus.Subscriber.Delivered.{publish-process}
use svckit.Eventbus.Dispatcher.{Dispatcher, new_dispatcher, register, handle}
use svckit.Eventbus.Dispatcher.Laws.{processed_count, once, own_count, handle_counted_twice}
use svckit.Eventbus.Broadcast.{
  BroadcastSubscriber, BroadcastEvent, BroadcastDelivery, process_broadcast, settle_broadcast,
  retry_count, header, broadcast_event,
}
use svckit.Eventbus.Examples.{noon, registered, even, odd, digits, rounded, joined, dev, signed}

retryable_test :
    (is_retryable_error (codes "Connection refused") ≡ true)
    × (is_retryable_error (codes "invalid payload") ≡ false)
unfolding is_retryable_error contains to_lower
retryable_test = (refl, refl)

abbrev secure : Subscriber
secure = record { service_name = codes "billing"; verifier = some dev; require_signing = true }

abbrev open_subscriber : Subscriber
open_subscriber = record {
  service_name = codes "billing";
  verifier = none;
  require_signing = false;
}

abbrev good : Handler
good = λ e. record { metrics = []; ending = succeeded }

abbrev answers : BrokerCall → Option Text
answers = λ c. none

abbrev marked : Delivery
marked = record { signed_header = some true; as_signed = some signed; as_event = some empty_event }

process-Settled_example : Settled good (process joined noon secure (codes "q") good marked)
process-Settled_example = process-Settled joined noon secure (codes "q") good marked

made_test :
    new_subscriber_with_signing answers [] (codes "billing") none true
    ≡ ok (secure, connection_status (codes "billing") (codes "subscriber") true ∷ [])
unfolding new_subscriber_with_signing default_signature_config
made_test = refl

handled_test : (process joined noon secure (codes "q") good marked).handled ≡ registered ∷ []
unfolding process verify_event trim_space text_eq marshal integer
handled_test = refl

process-Verified_example : Verified joined noon (configured [] none) marked registered
process-Verified_example =
    process-Verified joined noon answers [] (codes "billing") none secure
      (connection_status (codes "billing") (codes "subscriber") true ∷ []) (codes "q") good marked
      registered made_test handled_test

abbrev sender : Publisher
sender = record { service_name = codes "iam"; signer = some dev; require_signing = true }

abbrev amount : NumberText → Json
amount n = object (field (codes "amount") (number n.0 n.1) no_fields)

abbrev metered : BaseEvent
metered = with_payload registered (amount odd)

abbrev metered_signed : SignedEvent
metered_signed = record {
  event = some metered;
  signature = joined.hmac dev_key (
      codes
        "{\"data\":{\"amount\":9007199254740992},\"expires_at\":2000001800,\"id\":\"7-abc\",\"signed_at\":2000000000,\"source\":\"iam\",\"timestamp\":2000000000,\"type\":\"user.registered\",\"user_id\":\"u1\"}");
  signed_at = noon;
  expires_at = noon + 1_800_000_000_000;
}

abbrev sent : Message
sent = record {
  exchange = codes "events";
  routing_key = codes "user.registered";
  signed = true;
  body = wrapped metered_signed;
}

sent_test : (publish joined noon none metered sender).sent ≡ sent ∷ []
unfolding publish trim_space text_eq marshal integer sign_event
sent_test = refl

abbrev arrived : Delivery
arrived = record {
  signed_header = some true;
  as_signed = some (record metered_signed { event = some (with_payload metered (amount even)) });
  as_event = some empty_event;
}

rounded-text_eq :
    (n : NumberText) (b : Bool)
    → text_eq (digits n) (digits odd) ≡ b
    → rounded (rounded n) ≡ rounded n
unfolding text_eq bytes
rounded-text_eq n true e = rw e refl
rounded-text_eq n false e = rw (e, e) refl

joined-IsStable : IsStable joined
joined-IsStable n m h =
    let same : rounded n ≡ m = cc h in
    subst (λ x. some (rounded x) ≡ some x) same
      (ap some (rounded-text_eq n (text_eq (digits n) (digits odd)) refl))

arrived-Carried : Carried joined sent arrived
unfolding signed_event_from_json event_from_json text_eq bytes
arrived-Carried = record { header = refl; signed_body = refl; event_body = refl }

-- The amount that the handler is given has been rounded to the next float64.
rounded_test : normalize_data_structure joined metered.payload ≡ some (amount even)
unfolding normalize_data_structure text_eq bytes
rounded_test = refl

publish-process_example :
    (v : Json) × (normalize_data_structure joined metered.payload ≡ some v)
    × ((process joined (noon + 5) secure (codes "q") good arrived).handled
        ≡ with_payload metered v ∷ [])
publish-process_example =
    publish-process joined noon (noon + 5) dev sender secure (codes "q") good metered sent arrived
      joined-IsStable refl refl sent_test arrived-Carried (omega arith)

abbrev routes : Dispatcher
routes =
    register (codes "user.registered") (some good) (new_dispatcher (codes "billing") (codes "q"))

handle_counted_twice_example :
    processed_count
      (process_extracted
        (codes "billing")
        (codes "q")
        (handle routes)
        (extracted registered)).metrics
    ≡ own_count routes registered + 2 * once (handle routes registered).ending
handle_counted_twice_example = handle_counted_twice (codes "billing") (codes "q") routes registered

abbrev instance : BroadcastSubscriber
instance = record { service_name = codes "billing"; instance_id = codes "i1" }

abbrev failing : BroadcastEvent → HandlerRun
failing b = record { metrics = []; ending = failed (codes "no such user") }

abbrev counted_at : ℤ → BroadcastDelivery
counted_at n = record {
  headers = (codes "x-retry-count", of_int32 n) ∷ [];
  as_event = some registered;
}

-- A failed broadcast is requeued below the third retry, and discarded from there on.
requeued_test :
    process_broadcast (codes "system.broadcast") instance failing (counted_at (pos 2))
    ≡ done (nacked true)
unfolding process_broadcast settle_broadcast retry_count header broadcast_event text_eq
requeued_test = refl

discarded_test :
    process_broadcast (codes "system.broadcast") instance failing (counted_at (pos 3))
    ≡ done (nacked false)
unfolding process_broadcast settle_broadcast retry_count header broadcast_event text_eq
discarded_test = refl
