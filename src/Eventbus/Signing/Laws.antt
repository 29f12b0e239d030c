-- ===== src/Eventbus/Signing/Laws.antt =====
-- About `SignEvent` and `VerifyEvent` of eventbus/signing.go: what a signature says of an event.
use svckit.Base.{
  ℕ, ◌+◌, ◌/◌, ◌≤◌, ◌≡◌, ◌≢◌, refl, sym, ◌∙◌, subst, ltb, false, Option, none, some, ok, err,
  if◌then◌else◌, length, arith, inl, inr, ◌⊎◌, Bool-cases, Option-cases,
}
use svckit.Base.Int.{ℤ, pos, negsuc}
use svckit.Base.Run.{done}
use svckit.Base.Text.{Text, text_eq}
use svckit.Base.Text.Laws.{text_eq_refl, text_eq-eq}
use svckit.Eventbus.Json.{Json, object, marshal, integer, text_le}
use svckit.Eventbus.Json.Numbers.{integer-injective}
use svckit.Eventbus.Json.Print.{normal}
use svckit.Eventbus.Json.Injective.{marshal-normal}
use svckit.Eventbus.Json.Reordered.{Reordered, Reordered-of_normal}
use svckit.Secrets.{Store}
use svckit.Eventbus.Normalize.{Codec, normalize_data_structure}
use svckit.Eventbus.Event.{BaseEvent, unix}
use svckit.Eventbus.Signing.{
  SignatureConfig, SignedEvent, expired, validate_required_claims, canonical_fields,
  generate_signature, signature_of, sign_event, verify_event, load_signature_config,
  standard_claims, stored_key, either, non_empty, dev_key, with_key,
}

-- What `SignEvent` returns without an error.
pub record Signed (codec : Codec) (now : ℕ) (e : BaseEvent) (c : SignatureConfig) (s : SignedEvent)
    : Type 0 where
  pub claims : validate_required_claims e c.required_claims ≡ none
  pub signed : signature_of codec e now (now + c.expiry_window) c.signing_key ≡ ok s.signature
  pub whole : s ≡ record {
    event = some e;
    signature = s.signature;
    signed_at = now;
    expires_at = now + c.expiry_window;
  }

pub sign_event-Signed :
    (codec : Codec) (now : ℕ) (e : BaseEvent) (c : SignatureConfig) (s : SignedEvent)
    → sign_event codec now e c ≡ ok s
    → Signed codec now e c s
unfolding sign_event
sign_event-Signed codec now e c s h = ground arith

pub verify_event-signed :
    (codec : Codec) (now later : ℕ) (e : BaseEvent) (c : SignatureConfig) (signature : Text)
    → validate_required_claims e c.required_claims ≡ none
    → signature_of codec e now (now + c.expiry_window) c.signing_key ≡ ok signature
    → verify_event codec later
        (record {
          event = some e;
          signature = signature;
          signed_at = now;
          expires_at = now + c.expiry_window;
        })
        c
      ≡ done (if ltb (now + c.expiry_window) later then some expired else none)
unfolding verify_event
verify_event-signed codec now later e c signature claims signed =
    rw (claims, signed, text_eq_refl signature) (ground arith)

-- An event that was signed is accepted until the window of the signature has passed, and is then
-- refused as expired.
pub verify_event-sign_event :
    (codec : Codec) (now later : ℕ) (e : BaseEvent) (c : SignatureConfig) (s : SignedEvent)
    → sign_event codec now e c ≡ ok s
    → verify_event codec later s c
      ≡ done (if ltb (now + c.expiry_window) later then some expired else none)
verify_event-sign_event codec now later e c s h =
    let signed = sign_event-Signed codec now e c s h in
    subst
      (λ x.
        verify_event codec later x c
        ≡ done (if ltb (now + c.expiry_window) later then some expired else none))
      (sym signed.whole)
      (verify_event-signed codec now later e c s.signature signed.claims signed.signed)

-- What `VerifyEvent` has seen of a signed event that it accepts.
pub record Accepted (codec : Codec) (now : ℕ) (s : SignedEvent) (c : SignatureConfig) : Type 0 where
  pub event : BaseEvent
  pub normalized : Json
  pub has_event : s.event ≡ some event
  pub has_payload : normalize_data_structure codec event.payload ≡ some normalized
  pub in_time : now ≤ s.expires_at
  pub claims : validate_required_claims event c.required_claims ≡ none
  pub signature :
      s.signature
      ≡ codec.hmac c.signing_key
          (marshal (object (canonical_fields event s.signed_at s.expires_at normalized)))

verify_event-Accepted :
    (codec : Codec) (now : ℕ) (s : SignedEvent) (c : SignatureConfig)
    → verify_event codec now s c ≡ done none
    → Accepted codec now s c
unfolding verify_event signature_of generate_signature
verify_event-Accepted codec now s c h = elim (Option-cases s.event) [
  | inl e ↦ absurd (ground arith)
  | inr (ev, e) ↦ elim (Option-cases (normalize_data_structure codec ev.payload)) [
    | inl p ↦ absurd (ground arith)
    | inr (v, p) ↦ record {
      event = ev;
      normalized = v;
      has_event = e;
      has_payload = p;
      in_time = ground arith;
      claims = ground arith;
      signature = ground (
        arith,
        text_eq-eq s.signature (
            codec.hmac c.signing_key
              (marshal (object (canonical_fields ev s.signed_at s.expires_at v)))),
      );
    }
  ]
]

-- Two texts that have one signature under the key.
pub record Collision (codec : Codec) (key : Text) : Type 0 where
  pub first : Text
  pub second : Text
  pub differ : first ≢ second
  pub collide : codec.hmac key first ≡ codec.hmac key second

-- What a signature covers of an event: instants to the second, and the payload but for the order of
-- its entries.
pub record SameContent (a b : BaseEvent) (v w : Json) : Type 0 where
  pub same_id : a.id ≡ b.id
  pub same_type : a.type ≡ b.type
  pub same_source : a.source ≡ b.source
  pub same_user_id : a.user_id ≡ b.user_id
  pub same_second : a.timestamp / 1_000_000_000 ≡ b.timestamp / 1_000_000_000
  pub same_payload : Reordered v w

unix-injective : (t u : ℕ) → unix t ≡ unix u → t / 1_000_000_000 ≡ u / 1_000_000_000
unix-injective t u e = ground arith

normal-integer : (z : ℤ) → normal (integer z) ≡ integer z
unfolding normal integer
normal-integer (pos n) = refl
normal-integer (negsuc n) = refl

-- The map that is signed has its keys in order already.
normal-canonical_fields :
    (e : BaseEvent) (s t : ℕ) (v : Json)
    → normal (object (canonical_fields e s t v)) ≡ object (canonical_fields e s t (normal v))
unfolding normal text_le
normal-canonical_fields e s t v =
    rw (normal-integer (unix s), normal-integer (unix t), normal-integer (unix e.timestamp)) refl

-- The texts of two signed maps agree only if the maps do.
record SameMap (a b : BaseEvent) (s t s' t' : ℕ) (v w : Json) : Type 0 where
  content : SameContent a b v w
  same_signed_at : s / 1_000_000_000 ≡ s' / 1_000_000_000
  same_expires_at : t / 1_000_000_000 ≡ t' / 1_000_000_000

same_integer :
    (t u : ℕ) → integer (unix t) ≡ integer (unix u) → t / 1_000_000_000 ≡ u / 1_000_000_000
same_integer t u e = unix-injective t u (integer-injective (unix t) (unix u) e)

marshal-SameMap :
    (a b : BaseEvent) (s t s' t' : ℕ) (v w : Json)
    → marshal (object (canonical_fields a s t v)) ≡ marshal (object (canonical_fields b s' t' w))
    → SameMap a b s t s' t' v w
marshal-SameMap a b s t s' t' v w e =
    let h =
      sym (normal-canonical_fields a s t v)
      ∙ (marshal-normal _ _ e ∙ normal-canonical_fields b s' t' w) in
    record {
      content = record {
        same_id = cc;
        same_type = cc;
        same_source = cc;
        same_user_id = cc;
        same_second = same_integer a.timestamp b.timestamp (cc);
        same_payload = Reordered-of_normal v w (cc);
      };
      same_signed_at = same_integer s s' (cc);
      same_expires_at = same_integer t t' (cc);
    }

-- Two signed events that carry the same content.
pub record SameSigned (codec : Codec) (a b : SignedEvent) : Type 0 where
  pub of_a : BaseEvent
  pub of_b : BaseEvent
  pub payload_a : Json
  pub payload_b : Json
  pub is_a : a.event ≡ some of_a
  pub is_b : b.event ≡ some of_b
  pub has_a : normalize_data_structure codec of_a.payload ≡ some payload_a
  pub has_b : normalize_data_structure codec of_b.payload ≡ some payload_b
  pub content : SameContent of_a of_b payload_a payload_b
  pub same_signed_at : a.signed_at / 1_000_000_000 ≡ b.signed_at / 1_000_000_000
  pub same_expires_at : a.expires_at / 1_000_000_000 ≡ b.expires_at / 1_000_000_000

-- Two signed events that a verifier accepts with one signature carry the same content: identifier,
-- type, source, user and normalized payload, and the three instants to the second; unless two texts are known
-- that collide under the key.
pub verify_event-binds :
    (codec : Codec) (now later : ℕ) (a b : SignedEvent) (c : SignatureConfig)
    → verify_event codec now a c ≡ done none
    → verify_event codec later b c ≡ done none
    → a.signature ≡ b.signature
    → Collision codec c.signing_key ⊎ SameSigned codec a b
verify_event-binds codec now later a b c ha hb e =
    decide (verify_event-Accepted codec now a c ha) (verify_event-Accepted codec later b c hb)
  where
    text_of : {now : ℕ} {s : SignedEvent} → Accepted codec now s c → Text
    text_of {s = s} x =
        marshal (object (canonical_fields x.event s.signed_at s.expires_at x.normalized))

    from_map :
        (x : Accepted codec now a c) (y : Accepted codec later b c)
        → SameMap x.event y.event a.signed_at a.expires_at b.signed_at b.expires_at x.normalized
            y.normalized
        → SameSigned codec a b
    from_map x y m = record {
      of_a = x.event;
      of_b = y.event;
      payload_a = x.normalized;
      payload_b = y.normalized;
      is_a = x.has_event;
      is_b = y.has_event;
      has_a = x.has_payload;
      has_b = y.has_payload;
      content = m.content;
      same_signed_at = m.same_signed_at;
      same_expires_at = m.same_expires_at;
    }

    differ : {s t : Text} → text_eq s t ≡ false → s ≢ t
    differ {t = t} n h = absurd (cc (text_eq_refl t, subst (λ r. text_eq r t ≡ false) h n))

    decide :
        Accepted codec now a c
        → Accepted codec later b c
        → Collision codec c.signing_key ⊎ SameSigned codec a b
    decide x y = elim (Bool-cases (text_eq (text_of x) (text_of y))) [
      | inl same ↦
          inr (from_map x y (marshal-SameMap x.event y.event _ _ _ _ _ _ (text_eq-eq _ _ same)))
      | inr other ↦ inl (record {
        first = text_of x;
        second = text_of y;
        differ = differ other;
        collide = sym x.signature ∙ (e ∙ y.signature);
      })
    ]

loaded_key :
    (key : Text) (c : SignatureConfig)
    → (if ltb (length key) 16 then err (length key) else ok (with_key key)) ≡ ok c
    → (c ≡ with_key c.signing_key) × (16 ≤ length c.signing_key)
loaded_key key c h = elim (Bool-cases (ltb (length key) 16)) [
  | inl e ↦ absurd (cc (rw e at h))
  | inr e ↦
      let same : with_key key ≡ c = cc (rw e at h) in
      subst (λ x. (x ≡ with_key x.signing_key) × (16 ≤ length x.signing_key)) same
        (refl, ground arith)
]

sign_event-runs :
    (codec : Codec) (now : ℕ) (e : BaseEvent) (key : Text)
    → 16 ≤ length key
    → validate_required_claims e standard_claims ≡ none
    → normalize_data_structure codec e.payload ≢ none
    → (s : SignedEvent) × (sign_event codec now e (with_key key) ≡ ok s)
      × (s.expires_at ≡ now + 1_800_000_000_000)
unfolding sign_event signature_of generate_signature
sign_event-runs codec now e key long claims payload =
    elim (Option-cases (normalize_data_structure codec e.payload)) [
      | inl p ↦ absurd (payload p)
      | inr (v, p) ↦ (
        record {
          event = some e;
          signature =
              codec.hmac key
                (marshal (object (canonical_fields e now (now + 1_800_000_000_000) v)));
          signed_at = now;
          expires_at = now + 1_800_000_000_000;
        },
        ground arith,
        refl,
      )
    ]

-- Whatever the store and the environment hold, a configuration that loads has a key of at least 16
-- bytes, and signs every event whose payload can be normalized and whose claims are there.
pub load_signature_config-Signs :
    {S : Type 0} (given from_env : Option (Store S)) (at : ℕ) (st : S) (env_key : Text)
    (codec : Codec) (now : ℕ) (e : BaseEvent) (c : SignatureConfig)
    → (load_signature_config given from_env at st env_key).1 ≡ ok c
    → validate_required_claims e standard_claims ≡ none
    → normalize_data_structure codec e.payload ≢ none
    → (16 ≤ length c.signing_key)
      × ((s : SignedEvent) × (sign_event codec now e c ≡ ok s)
          × (s.expires_at ≡ now + 1_800_000_000_000))
unfolding load_signature_config
load_signature_config-Signs given from_env at st env_key codec now e c h claims payload =
    let loaded =
      loaded_key
        (non_empty (non_empty (stored_key (either given from_env) at st).1 env_key) dev_key) c h in
    (
      loaded.1,
      subst
          (λ x.
            (s : SignedEvent) × (sign_event codec now e x ≡ ok s)
            × (s.expires_at ≡ now + 1_800_000_000_000))
          (sym loaded.0) (sign_event-runs codec now e c.signing_key loaded.1 claims payload),
    )
