-- ===== src/Eventbus/Subscriber/Delivered.antt =====
-- About a message on its way from `Publish` to the handler of a subscriber (eventbus/publisher.go).
use svckit.Base.{
  ℕ, ◌+◌, ◌≤◌, ◌≡◌, refl, sym, ap, ◌∙◌, subst, true, List, [], ◌∷◌, none, some, Result, ok, err,
  arith, inl, inr, Option-cases,
}
use svckit.Base.Run.{done}
use svckit.Base.Text.{Text}
use svckit.Eventbus.Json.{Json}
use svckit.Eventbus.Normalize.{Codec, normalize_data_structure}
use svckit.Eventbus.Normalize.Laws.{IsStable, normalize_data_structure-twice}
use svckit.Eventbus.Event.{BaseEvent}
use svckit.Eventbus.Signing.{
  SignatureConfig, SignedEvent, SignError, check_claim, validate_required_claims,
  create_canonical_event_data, signature_of, sign_event, verify_event,
}
use svckit.Eventbus.Signing.Laws.{Signed, sign_event-Signed, verify_event-signed}
use svckit.Eventbus.Wire.{
  Ending, succeeded, failed, handler_panicked, Handler, HandlerRun, Message, wrapped,
}
use svckit.Eventbus.Publisher.{
  Publisher, publish, publish_signed, send, Publication, refused, signing_failed,
}
use svckit.Eventbus.Subscriber.{
  Subscriber, Delivery, extracted, extract, extract_signed, after_verify, after_handler, process,
}
use svckit.Eventbus.Decode.{with_payload, from_json, signed_event_from_json, Carried}

abbrev signed_at_with : BaseEvent → Text → ℕ → ℕ → SignedEvent
signed_at_with e signature signed_at expires_at = record {
  event = some e;
  signature = signature;
  signed_at = signed_at;
  expires_at = expires_at;
}

publish-wrapped :
    (codec : Codec) (now : ℕ) (c : SignatureConfig) (p : Publisher) (e : BaseEvent) (m : Message)
    → p.signer ≡ some c
    → (publish codec now none e p).sent ≡ m ∷ []
    → (sg : SignedEvent) × (sign_event codec now e c ≡ ok sg)
      × (m.signed ≡ true)
      × (m.body ≡ wrapped sg)
unfolding publish publish_signed
publish-wrapped codec now c p e m hp sent =
    by_signing (sign_event codec now e c) refl (rw hp at sent)
  where
    by_signing :
        (r : Result SignError SignedEvent)
        → sign_event codec now e c ≡ r
        → Publication.sent (elim r [
          | err failure ↦ refused p e (signing_failed failure)
          | ok sg ↦ send p e true (wrapped sg) none
        ])
          ≡ m ∷ []
        → (sg : SignedEvent) × (sign_event codec now e c ≡ ok sg)
          × (m.signed ≡ true)
          × (m.body ≡ wrapped sg)
    by_signing (err failure) h k = absurd (cc k)
    by_signing (ok sg) h k = (sg, h, cc k, cc k)

validate_required_claims-with_payload :
    (e : BaseEvent) (v : Json) (claims : List Text)
    → validate_required_claims (with_payload e v) claims ≡ validate_required_claims e claims
unfolding validate_required_claims check_claim
validate_required_claims-with_payload e v [] = refl
validate_required_claims-with_payload e v (claim ∷ claims) =
    ap (λ rest. elim (check_claim e claim) [ some error ↦ some error | none ↦ rest ])
      (validate_required_claims-with_payload e v claims)

-- An event has the signature of the event that is read from its JSON.
signature_of-with_payload :
    (codec : Codec) (e : BaseEvent) (v : Json) (signed_at expires_at : ℕ) (key : Text)
    → IsStable codec
    → normalize_data_structure codec e.payload ≡ some v
    → signature_of codec (with_payload e v) signed_at expires_at key
      ≡ signature_of codec e signed_at expires_at key
unfolding signature_of create_canonical_event_data
signature_of-with_payload codec e v signed_at expires_at key st h =
    rw
      (
        signature_of,
        create_canonical_event_data,
        h,
        normalize_data_structure-twice codec e.payload v st h,
      )
      refl

-- What was signed has a payload that can be normalized.
sign_event-normalized :
    (codec : Codec) (now : ℕ) (e : BaseEvent) (c : SignatureConfig) (sg : SignedEvent)
    → Signed codec now e c sg
    → (v : Json) × (normalize_data_structure codec e.payload ≡ some v)
unfolding signature_of create_canonical_event_data
sign_event-normalized codec now e c sg shape =
    elim (Option-cases (normalize_data_structure codec e.payload)) [
      | inl n ↦
          let h = shape.signed in
          absurd (cc (rw (signature_of, create_canonical_event_data, n) at h))
      | inr (v, h) ↦ (v, h)
    ]

signed_event_from_json-wrapped :
    (codec : Codec) (now : ℕ) (e : BaseEvent) (c : SignatureConfig) (sg : SignedEvent) (v : Json)
    → Signed codec now e c sg
    → normalize_data_structure codec e.payload ≡ some v
    → signed_event_from_json codec (wrapped sg)
      ≡ some (signed_at_with (with_payload e v) sg.signature now (now + c.expiry_window))
unfolding signed_event_from_json from_json
signed_event_from_json-wrapped codec now e c sg v shape h =
    subst
      (λ x.
        signed_event_from_json codec (wrapped x)
        ≡ some (signed_at_with (with_payload e v) sg.signature now (now + c.expiry_window)))
      (sym shape.whole) (rw (from_json, h) refl)

-- A signed event still verifies when it has been read from its JSON.
verify_event-from_json :
    (codec : Codec) (now later : ℕ) (e : BaseEvent) (c : SignatureConfig) (sg : SignedEvent)
    (v : Json)
    → IsStable codec
    → Signed codec now e c sg
    → normalize_data_structure codec e.payload ≡ some v
    → later ≤ now + c.expiry_window
    → verify_event codec later
        (signed_at_with (with_payload e v) sg.signature now (now + c.expiry_window))
        c
      ≡ done none
verify_event-from_json codec now later e c sg v st shape h in_time =
    verify_event-signed codec now later (with_payload e v) c sg.signature
      (validate_required_claims-with_payload e v c.required_claims ∙ shape.claims)
      (signature_of-with_payload codec e v now (now + c.expiry_window) c.signing_key st h
        ∙ shape.signed)
    ∙ ground arith

extract-signed :
    (codec : Codec) (later : ℕ) (c : SignatureConfig) (s : Subscriber) (d : Delivery)
    (sg : SignedEvent) (e : BaseEvent)
    → s.verifier ≡ some c
    → d.signed_header ≡ some true
    → d.as_signed ≡ some sg
    → sg.event ≡ some e
    → verify_event codec later sg c ≡ done none
    → extract codec later s d ≡ extracted e
unfolding extract extract_signed after_verify
extract-signed codec later c s d sg e hs marked body he hv = rw (hs, marked, body, hv, he) refl

process-extracted :
    (codec : Codec) (later : ℕ) (s : Subscriber) (queue : Text) (handler : Handler) (d : Delivery)
    (e : BaseEvent)
    → extract codec later s d ≡ extracted e
    → (process codec later s queue handler d).handled ≡ e ∷ []
unfolding process
process-extracted codec later s queue handler d e h = rw h (by_run (handler e) (handler e).ending)
  where
    by_run :
        (run : HandlerRun) (ending : Ending)
        → (after_handler s.service_name queue e run ending).handled ≡ e ∷ []
    by_run run succeeded = refl
    by_run run (failed f) = refl
    by_run run handler_panicked = refl

-- A subscriber with the publisher's configuration handles the event of a message that was published
-- signed, if the broker leaves the message as it is, it comes within the window, and the text that is
-- printed for a float64 is read back as that float64: the handler is given that event once, with its
-- payload normalized as a reader of its JSON normalizes it.
pub publish-process :
    (codec : Codec) (now later : ℕ) (c : SignatureConfig) (p : Publisher) (s : Subscriber)
    (queue : Text) (handler : Handler) (e : BaseEvent) (m : Message) (d : Delivery)
    → IsStable codec
    → p.signer ≡ some c
    → s.verifier ≡ some c
    → (publish codec now none e p).sent ≡ m ∷ []
    → Carried codec m d
    → later ≤ now + c.expiry_window
    → (v : Json) × (normalize_data_structure codec e.payload ≡ some v)
      × ((process codec later s queue handler d).handled ≡ with_payload e v ∷ [])
publish-process codec now later c p s queue handler e m d st hp hs sent carried in_time =
    let (sg, signing, marked, body) = publish-wrapped codec now c p e m hp sent in
    let shape = sign_event-Signed codec now e c sg signing in
    let (v, h) = sign_event-normalized codec now e c sg shape in
    (
      v,
      h,
      process-extracted codec later s queue handler d (with_payload e v) (
          extract-signed codec later c s d _ (with_payload e v) hs (carried.header ∙ ap some marked)
            (carried.signed_body
              ∙ (ap (signed_event_from_json codec) body
                  ∙ signed_event_from_json-wrapped codec now e c sg v shape h))
            refl (verify_event-from_json codec now later e c sg v st shape h in_time)),
    )
