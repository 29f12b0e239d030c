-- ===== src/Eventbus/Subscriber/Laws.antt =====
-- About what becomes of a delivery (eventbus/publisher.go): its settlement, and what may reach the
-- handler.
use svckit.Base.{
  ℕ, ◌≡◌, inl, inr, refl, ap, ◌∙◌, Bool, true, false, List, [], ◌∷◌, Option, none, some, ok, arith,
  Bool-cases, Option-cases,
}
use svckit.Base.Run.{Run, done, blocked, panicked}
use svckit.Base.Text.{Text}
use svckit.Eventbus.Normalize.{Codec}
use svckit.Eventbus.Event.{BaseEvent}
use svckit.Eventbus.Signing.{SignatureConfig, SignedEvent, SignError, verify_event, configured}
use svckit.Eventbus.Wire.{
  BrokerCall, Metric, Ending, succeeded, failed, handler_panicked, Handler, HandlerRun, Settlement,
  acked, nacked,
}
use svckit.Eventbus.Publisher.{signing_of}
use svckit.Eventbus.Subscriber.{
  Subscriber, new_subscriber_with_signing, Delivery, Extracted, crashed, rejected, extracted,
  marked_signed, extract, extract_signed, extract_unsigned, after_verify, is_retryable_error,
  Processed, after_handler, process_extracted, process,
}

-- How the ending of a handler settles its delivery.
abbrev pub settlement_for : Ending → Settlement
settlement_for succeeded = acked
settlement_for (failed e) = nacked (is_retryable_error e)
settlement_for handler_panicked = nacked false

-- Refused before the handler, or handled once and settled by the handler's ending.
pub data Settled (handler : Handler) (p : Processed) : Type 0 where
  dead_lettered : p.handled ≡ [] → p.settled ≡ nacked false ∷ [] → Settled handler p
  by_handler :
      (e : BaseEvent)
      → p.handled ≡ e ∷ []
      → p.settled ≡ settlement_for (handler e).ending ∷ []
      → Settled handler p

by_ending :
    (service queue : Text) (handler : Handler) (e : BaseEvent) (run : HandlerRun) (ending : Ending)
    → (handler e).ending ≡ ending
    → Settled handler (after_handler service queue e run ending)
unfolding after_handler
by_ending service queue handler e run succeeded h = by_handler e refl (rw h refl)
by_ending service queue handler e run (failed f) h = by_handler e refl (rw h refl)
by_ending service queue handler e run handler_panicked h = by_handler e refl (rw h refl)

process_extracted-Settled :
    (service queue : Text) (handler : Handler) (x : Extracted)
    → Settled handler (process_extracted service queue handler x)
unfolding process_extracted
process_extracted-Settled service queue handler crashed = dead_lettered refl refl
process_extracted-Settled service queue handler (rejected t r) = dead_lettered refl refl
process_extracted-Settled service queue handler (extracted e) =
    by_ending service queue handler e (handler e) (handler e).ending refl

-- Every delivery is settled exactly once. One that is refused before the handler is dead-lettered;
-- any other is given to the handler once, and acknowledged if the handler returns no error, requeued
-- if it returns a retryable one, and dead-lettered if it returns another or panics.
pub process-Settled :
    (codec : Codec) (now : ℕ) (s : Subscriber) (queue : Text) (handler : Handler) (d : Delivery)
    → Settled handler (process codec now s queue handler d)
unfolding process
process-Settled codec now s queue handler d =
    process_extracted-Settled s.service_name queue handler (extract codec now s d)

handled-extracted :
    (service queue : Text) (handler : Handler) (x : Extracted) (e : BaseEvent)
    → (process_extracted service queue handler x).handled ≡ e ∷ []
    → x ≡ extracted e
unfolding process_extracted
handled-extracted service queue handler crashed e h = absurd (cc)
handled-extracted service queue handler (rejected t r) e h = absurd (cc)
handled-extracted service queue handler (extracted x) e h =
    ap extracted (by_run (handler x) (handler x).ending h)
  where
    by_run :
        (run : HandlerRun) (ending : Ending)
        → (after_handler service queue x run ending).handled ≡ e ∷ []
        → x ≡ e
    by_run run succeeded h = cc
    by_run run (failed f) h = cc
    by_run run handler_panicked h = cc

-- A delivery whose body is a signed event that a verifier accepts, with the event that it carries.
pub record Verified (codec : Codec) (now : ℕ) (c : SignatureConfig) (d : Delivery) (e : BaseEvent)
    : Type 0 where
  pub signed : SignedEvent
  pub decoded : d.as_signed ≡ some signed
  pub carries : signed.event ≡ some e
  pub accepted : verify_event codec now signed c ≡ done none

after_verify-extracted :
    (o : Option BaseEvent) (r : Run (Option SignError)) (e : BaseEvent)
    → after_verify o r ≡ extracted e
    → (o ≡ some e) × (r ≡ done none)
unfolding after_verify
after_verify-extracted none r e h = absurd (cc)
after_verify-extracted (some x) (done none) e h = (cc, refl)
after_verify-extracted (some x) (done (some f)) e h = absurd (cc)
after_verify-extracted (some x) blocked e h = absurd (cc)
after_verify-extracted (some x) panicked e h = absurd (cc)

extract_signed-Verified :
    (codec : Codec) (now : ℕ) (c : SignatureConfig) (d : Delivery) (e : BaseEvent)
    → extract_signed codec now c d ≡ extracted e
    → Verified codec now c d e
unfolding extract_signed
extract_signed-Verified codec now c d e h = elim (Option-cases d.as_signed) [
  | inl p ↦ absurd (ground arith)
  | inr (s, p) ↦
      let both = after_verify-extracted s.event (verify_event codec now s c) e (rw p at h) in
      record { signed = s; decoded = p; carries = both.0; accepted = both.1 }
]

extract-Verified :
    (codec : Codec) (now : ℕ) (c : SignatureConfig) (s : Subscriber) (d : Delivery) (e : BaseEvent)
    → s.verifier ≡ some c
    → s.require_signing ≡ true
    → extract codec now s d ≡ extracted e
    → Verified codec now c d e
unfolding extract extract_unsigned
extract-Verified codec now c s d e hv hr h = elim (Bool-cases (marked_signed d)) [
  | inl m ↦ extract_signed-Verified codec now c d e (ground arith)
  | inr m ↦ absurd (ground arith)
]

-- What `NewSubscriberWithSigning` makes of the configuration.
new_subscriber_with_signing_lem :
    (answer : BrokerCall → Option Text) (env_key name : Text) (config : Option SignatureConfig)
    (require_signing : Bool) (s : Subscriber) (ms : List Metric)
    → new_subscriber_with_signing answer env_key name config require_signing ≡ ok (s, ms)
    → (s.verifier ≡ signing_of env_key config require_signing)
      × (s.require_signing ≡ require_signing)
      × (s.service_name ≡ name)
unfolding new_subscriber_with_signing
new_subscriber_with_signing_lem answer env_key name config require_signing s ms h =
    (ground arith, ground arith, ground arith)

-- A subscriber that was made to require signatures gives its handler only events of signed events
-- that its configuration, or the default one, accepts at the time of the delivery.
pub process-Verified :
    (codec : Codec) (now : ℕ) (answer : BrokerCall → Option Text) (env_key name : Text)
    (config : Option SignatureConfig) (s : Subscriber) (ms : List Metric) (queue : Text)
    (handler : Handler) (d : Delivery) (e : BaseEvent)
    → new_subscriber_with_signing answer env_key name config true ≡ ok (s, ms)
    → (process codec now s queue handler d).handled ≡ e ∷ []
    → Verified codec now (configured env_key config) d e
unfolding process signing_of
process-Verified codec now answer env_key name config s ms queue handler d e made h =
    let made' = new_subscriber_with_signing_lem answer env_key name config true s ms made in
    extract-Verified codec now (configured env_key config) s d e (made'.0 ∙ ground arith) made'.1
      (handled-extracted s.service_name queue handler (extract codec now s d) e h)
