-- ===== src/Eventbus/Examples.antt =====
-- Tests of the model of the signing of events (eventbus/signing.go), and its theorems at concrete
-- events.
pub mod Deliveries
use svckit.Base.{
  ℕ, ◌+◌, ◌≤◌, ◌≡◌, ◌≢◌, ◌⊎◌, ◌↔◌, refl, true, [], ◌∷◌, ◌++◌, none, some, ok, length, if◌then◌else◌,
}
use svckit.Base.Int.{negsuc}
use svckit.Base.Run.{done}
use svckit.Base.Text.{Text, codes, text_eq, trim_space, split}
use svckit.Secrets.{Store, read_only}
use svckit.Eventbus.Json.{
  d0, d1, d2, d3, d4, d5, d7, d9, bytes, null, bool, string, array, object, no_items, item,
  no_fields, field, marshal, integer,
}
use svckit.Eventbus.Json.Reordered.{Reordered, marshal_iff}
use svckit.Eventbus.Event.{
  BaseEvent, validate_event, get_event_domain, get_event_action, generate_event_id,
}
use svckit.Eventbus.Signing.{
  SignatureConfig, SignedEvent, with_key, dev_key, sign_event, verify_event,
  validate_required_claims, load_signature_config, standard_claims,
}
use svckit.Eventbus.Signing.Laws.{
  Collision, SameSigned, verify_event-sign_event, verify_event-binds, load_signature_config-Signs,
}
use svckit.Eventbus.Normalize.{NumberText, Codec, normalize_data_structure}

-- {"b":[-1,null],"a":"<\""} with its keys sorted and its string escaped.
marshal_test :
    marshal (
      object (
        field
          (codes "b")
          (array (item (integer (negsuc 0)) (item null no_items)))
          (field (codes "a") (string (60 ∷ 34 ∷ [])) no_fields)))
    ≡ codes "{\"a\":\"\\u003c\\\"\",\"b\":[-1,null]}"
unfolding marshal integer
marshal_test = refl

marshal_iff_example :
    (marshal (object (field (codes "a") null (field (codes "b") (bool true) no_fields)))
      ≡ marshal (object (field (codes "b") (bool true) (field (codes "a") null no_fields))))
    ↔ Reordered
        (object (field (codes "a") null (field (codes "b") (bool true) no_fields)))
        (object (field (codes "b") (bool true) (field (codes "a") null no_fields)))
marshal_iff_example =
    marshal_iff (object (field (codes "a") null (field (codes "b") (bool true) no_fields)))
      (object (field (codes "b") (bool true) (field (codes "a") null no_fields)))

-- A second in the year 2033.
abbrev pub noon : ℕ
noon = 64_135_596_800_000_000_000

abbrev pub registered : BaseEvent
registered = record {
  id = codes "7-abc";
  type = codes "user.registered";
  timestamp = noon;
  source = codes "iam";
  user_id = codes "u1";
  payload = some (object (field (codes "plan") (string (codes "free")) no_fields));
}

event_parts_test :
    (get_event_domain registered ≡ codes "user")
    × (get_event_action registered ≡ codes "registered")
    × (validate_event registered ≡ none)
unfolding get_event_domain get_event_action validate_event split text_eq
event_parts_test = (refl, refl, refl)

event_id_test :
    generate_event_id 62_135_596_800_000_000_042 (codes "abcd0123") ≡ codes "42-abcd0123"
unfolding generate_event_id
event_id_test = refl

-- 2^53 and the integer above it, which a float64 does not hold.
abbrev pub even : NumberText
even = (d9, d0 ∷ d0 ∷ d7 ∷ d1 ∷ d9 ∷ d9 ∷ d2 ∷ d5 ∷ d4 ∷ d7 ∷ d4 ∷ d0 ∷ d9 ∷ d9 ∷ d2 ∷ [])

abbrev pub odd : NumberText
odd = (d9, d0 ∷ d0 ∷ d7 ∷ d1 ∷ d9 ∷ d9 ∷ d2 ∷ d5 ∷ d4 ∷ d7 ∷ d4 ∷ d0 ∷ d9 ∷ d9 ∷ d3 ∷ [])

abbrev pub digits : NumberText → Text
digits (b, bs) = bytes (b ∷ bs)

abbrev pub rounded : NumberText → NumberText
rounded n = if text_eq (digits n) (digits odd) then even else n

-- A stand-in for the MAC, the key before the text, and for a float64.
abbrev pub joined : Codec
joined = record { hmac = λ key text. key ++ text; as_float = λ n. some (rounded n) }

abbrev pub dev : SignatureConfig
dev = with_key dev_key

abbrev signed_text : Text
signed_text =
    codes
      "{\"data\":{\"plan\":\"free\"},\"expires_at\":2000001800,\"id\":\"7-abc\",\"signed_at\":2000000000,\"source\":\"iam\",\"timestamp\":2000000000,\"type\":\"user.registered\",\"user_id\":\"u1\"}"

abbrev pub signed : SignedEvent
signed = record {
  event = some registered;
  signature = joined.hmac dev_key signed_text;
  signed_at = noon;
  expires_at = noon + 1_800_000_000_000;
}

sign_event_test : sign_event joined noon registered dev ≡ ok signed
unfolding sign_event trim_space text_eq marshal integer
sign_event_test = refl

accepted_test : verify_event joined noon signed dev ≡ done none
unfolding verify_event trim_space text_eq marshal integer
accepted_test = refl

verify_event-sign_event_example : verify_event joined (noon + 5) signed dev ≡ done none
verify_event-sign_event_example =
    verify_event-sign_event joined noon (noon + 5) registered dev signed sign_event_test

verify_event-binds_example : Collision joined dev_key ⊎ SameSigned joined signed signed
verify_event-binds_example =
    verify_event-binds joined noon noon signed signed dev accepted_test accepted_test refl

claims_test : validate_required_claims registered standard_claims ≡ none
unfolding validate_required_claims trim_space text_eq
claims_test = refl

abbrev vault : Store ℕ
vault = record {
  get = λ now path s. (s, ok (codes "a-key-of-the-vault"));
  set = λ now path value s. (s, some read_only);
  exists = λ now path s. (s, ok true);
}

loaded_test :
    (load_signature_config (some vault) none 0 0 []).1 ≡ ok (with_key (codes "a-key-of-the-vault"))
unfolding load_signature_config text_eq
loaded_test = refl

normalized_test : normalize_data_structure joined registered.payload ≢ none
unfolding normalize_data_structure
normalized_test h = absurd (cc)

load_signature_config-Signs_example :
    (16 ≤ length (codes "a-key-of-the-vault"))
    × ((s : SignedEvent) × (sign_event joined noon registered
            (with_key (codes "a-key-of-the-vault"))
          ≡ ok s)
        × (s.expires_at ≡ noon + 1_800_000_000_000))
load_signature_config-Signs_example =
    load_signature_config-Signs (some vault) none 0 0 [] joined noon registered
      (with_key (codes "a-key-of-the-vault")) loaded_test claims_test normalized_test
