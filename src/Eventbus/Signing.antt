-- ===== src/Eventbus/Signing.antt =====
-- The signing of events: eventbus/signing.go and eventbus/signing_key.go. HMAC-SHA256 with its
-- base64 text is a parameter, a part of the codec.
pub mod Laws
use svckit.Base.{
  ℕ, ◌+◌, ltb, ◌==◌, Bool, List, [], ◌∷◌, Option, none, some, Result, ok, err, if◌then◌else◌,
  length,
}
use svckit.Base.Run.{Run, done, panicked}
use svckit.Base.Text.{Text, codes, text_eq, trim_space}
use svckit.Secrets.{Store}
use svckit.Eventbus.Json.{Json, Fields, string, object, no_fields, field, integer, marshal}
use svckit.Eventbus.Normalize.{Codec, normalize_data_structure}
use svckit.Eventbus.Event.{BaseEvent, unix}

pub record SignatureConfig : Type 0 where
  pub signing_key : Text
  pub expiry_window : ℕ
  pub required_claims : List Text

-- `event` is a pointer, which is nil where the JSON of a signed event has none.
pub record SignedEvent : Type 0 where
  pub event : Option BaseEvent
  pub signature : Text
  pub signed_at : ℕ
  pub expires_at : ℕ

pub data SignError : Type 0 where
  missing_claim unknown_claim : Text → SignError
  not_normalized short_key expired invalid_signature : SignError

abbrev pub dev_key : Text
dev_key = codes "dev-signing-key-change-in-production"

abbrev pub standard_claims : List Text
standard_claims = codes "id" ∷ codes "type" ∷ codes "timestamp" ∷ codes "source" ∷ []

-- 30 minutes
abbrev pub standard_window : ℕ
standard_window = 1_800_000_000_000

abbrev pub with_key : Text → SignatureConfig
with_key key = record {
  signing_key = key;
  expiry_window = standard_window;
  required_claims = standard_claims;
}

-- The default, with the value of EVENT_SIGNING_KEY.
unfoldable pub default_signature_config : Text → SignatureConfig
default_signature_config env_key = with_key (if length env_key == 0 then dev_key else env_key)

abbrev pub is_blank : Text → Bool
is_blank s = text_eq (trim_space s) []

-- What one round of the loop over the claims returns.
unfoldable pub check_claim : BaseEvent → Text → Option SignError
check_claim e claim =
    if text_eq claim (codes "id")
    then (if is_blank e.id then some (missing_claim claim) else none)
    else if text_eq claim (codes "type")
    then (if is_blank e.type then some (missing_claim claim) else none)
    else if text_eq claim (codes "timestamp")
    then (if e.timestamp == 0 then some (missing_claim claim) else none)
    else if text_eq claim (codes "source")
    then (if is_blank e.source then some (missing_claim claim) else none)
    else some (unknown_claim claim)

unfoldable pub validate_required_claims : BaseEvent → List Text → Option SignError
unfolding check_claim
validate_required_claims e [] = none
validate_required_claims e (claim ∷ claims) = elim (check_claim e claim) [
  | some error ↦ some error
  | none ↦ validate_required_claims e claims
]

-- The map that is signed.
abbrev pub canonical_fields : BaseEvent → ℕ → ℕ → Json → Fields
canonical_fields e signed_at expires_at normalized = field (codes "data") normalized (
    field (codes "expires_at") (integer (unix expires_at)) (
      field (codes "id") (string e.id) (
        field (codes "signed_at") (integer (unix signed_at)) (
          field (codes "source") (string e.source) (
            field (codes "timestamp") (integer (unix e.timestamp)) (
              field (codes "type") (string e.type)
                (field (codes "user_id") (string e.user_id) no_fields)))))))

unfoldable pub create_canonical_event_data : Codec → BaseEvent → ℕ → ℕ → Result SignError Text
unfolding marshal normalize_data_structure
create_canonical_event_data codec e signed_at expires_at =
    elim (normalize_data_structure codec e.payload) [
      | none ↦ err not_normalized
      | some normalized ↦ ok (marshal (object (canonical_fields e signed_at expires_at normalized)))
    ]

-- `RotateSigningKey`
unfoldable pub rotate_signing_key : SignatureConfig → Text → SignatureConfig
rotate_signing_key old new_key = record old { signing_key = new_key }

-- What is compared: `none` where the signatures agree.
abbrev pub compare_signature : Text → Result SignError Text → Option SignError
compare_signature signature (err error) = some error
compare_signature signature (ok expected) =
    if text_eq signature expected then none else some invalid_signature

-- `NewEventSigner` and `Sign`, `NewEventVerifier` and `Verify`.
abbrev pub configured : Text → Option SignatureConfig → SignatureConfig
configured env_key none = default_signature_config env_key
configured env_key (some c) = c

module _ (codec : Codec) where
  unfoldable pub generate_signature : Text → Text → Result SignError Text
  generate_signature canonical key =
      if ltb (length key) 16 then err short_key else ok (codec.hmac key canonical)

  -- The signature of an event with its two instants, in `SignEvent` and in `VerifyEvent`.
  unfoldable pub signature_of : BaseEvent → ℕ → ℕ → Text → Result SignError Text
  unfolding create_canonical_event_data generate_signature
  signature_of e signed_at expires_at key =
      elim (create_canonical_event_data codec e signed_at expires_at) [
        | err error ↦ err error
        | ok canonical ↦ generate_signature canonical key
      ]

  unfoldable pub sign_event : ℕ → BaseEvent → SignatureConfig → Result SignError SignedEvent
  unfolding signature_of validate_required_claims
  sign_event now e c = elim (validate_required_claims e c.required_claims) [
    | some error ↦ err error
    | none ↦ elim (signature_of e now (now + c.expiry_window) c.signing_key) [
      | err error ↦ err error
      | ok signature ↦ ok (record {
        event = some e;
        signature = signature;
        signed_at = now;
        expires_at = now + c.expiry_window;
      })
    ]
  ]

  unfoldable pub verify_event : ℕ → SignedEvent → SignatureConfig → Run (Option SignError)
  unfolding signature_of validate_required_claims
  verify_event now s c = if ltb s.expires_at now then done (some expired) else elim s.event [
    | none ↦ panicked
    | some e ↦ elim (validate_required_claims e c.required_claims) [
      | some error ↦ done (some error)
      | none ↦
          done
            (compare_signature s.signature (signature_of e s.signed_at s.expires_at c.signing_key))
    ]
  ]

-- The store that `LoadSignatureConfig` asks: the given one, or else the one that the environment
-- configures, where that succeeds.
abbrev pub either {ℓ} : {A : Type ℓ} → Option A → Option A → Option A
either (some a) o = some a
either none o = o

abbrev pub non_empty : Text → Text → Text
non_empty key fallback = if text_eq key [] then fallback else key

module _ {S : Type 0} where
  -- The value of the store, and the empty text for an error.
  unfoldable pub stored_key : Option (Store S) → ℕ → S → S × Text
  stored_key none now s = (s, [])
  stored_key (some store) now s =
      let a = store.get now (codes "kms/event-signing-key") s in
      (a.0, elim a.1 [ err e ↦ [] | ok value ↦ value ])

  -- An error holds the length of the key that is too short.
  unfoldable pub load_signature_config :
      Option (Store S) → Option (Store S) → ℕ → S → Text → S × Result ℕ SignatureConfig
  unfolding stored_key
  load_signature_config given from_env now s env_key =
      let a = stored_key (either given from_env) now s in
      let key = non_empty (non_empty a.1 env_key) dev_key in
      (a.0, if ltb (length key) 16 then err (length key) else ok (with_key key))
