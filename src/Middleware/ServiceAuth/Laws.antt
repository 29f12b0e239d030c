-- ===== src/Middleware/ServiceAuth/Laws.antt =====
-- About what a request has shown when it reaches a handler behind the service authentication
-- (middleware/serviceauth.go).
use svckit.Base.{
  ◌≡◌, ◌≢◌, ◌⊎◌, inl, inr, refl, ap, sym, ◌∙◌, true, false, List, [], ◌∷◌, Option, some, Result, ok,
  err, arith, Bool-cases, Option-cases,
}
use svckit.Base.Text.{Text, codes, text_eq}
use svckit.Base.Text.Laws.{text_eq-eq, text_eq_refl}
use svckit.Middleware.Context.{
  ServiceKeyInfo, Context, Request, with_service_identity, has_scope, contains_text,
}
use svckit.Middleware.ServiceAuth.{
  Validator, Verdict, passed, to_user_auth, answered, with_context, authenticate,
  service_key_from_request, service_auth_required, require_service_scope, then_ask,
}

-- The text is one of the list.
abbrev pub OneOf : Text → List Text → Type 0
OneOf a [] = ⊥
OneOf a (s ∷ ss) = (s ≡ a) ⊎ OneOf a ss

pub contains_text-OneOf : (a : Text) (ss : List Text) → contains_text a ss ≡ true → OneOf a ss
unfolding contains_text
contains_text-OneOf a [] h = absurd (cc)
contains_text-OneOf a (s ∷ ss) h = elim (Bool-cases (text_eq s a)) [
  | inl e ↦ inl (text_eq-eq s a e)
  | inr e ↦ inr (contains_text-OneOf a ss (rw e at h))
]

-- A request with a key that the validator accepts, for an identity with the scope or with all.
pub record Authorized (validator : Validator) (scope : Text) (r r' : Request) : Type 0 where
  pub info : ServiceKeyInfo
  pub has_key : service_key_from_request r ≢ []
  pub accepted : validator (service_key_from_request r) ≡ ok (some info)
  pub scoped : OneOf scope info.scopes ⊎ OneOf (codes "all") info.scopes
  pub passed_on : r' ≡ with_context (with_service_identity (some info) r.context) r

has_scope-OneOf :
    (ctx : Context) (info : ServiceKeyInfo) (scope : Text)
    → ctx.service_identity ≡ some info
    → has_scope ctx scope ≡ true
    → OneOf scope info.scopes ⊎ OneOf (codes "all") info.scopes
unfolding has_scope
has_scope-OneOf ctx info scope e h = elim (Bool-cases (contains_text scope info.scopes)) [
  | inl c ↦ inl (contains_text-OneOf scope info.scopes c)
  | inr c ↦ inr (contains_text-OneOf (codes "all") info.scopes (ground arith))
]

passed-injective : {r r' : Request} → passed r ≡ passed r' → r ≡ r'
passed-injective h = cc

-- What passes the scope's test.
require_service_scope-passed :
    (scope : Text) (r r' : Request)
    → require_service_scope scope r ≡ passed r'
    → (info : ServiceKeyInfo) × (r.context.service_identity ≡ some info)
      × (has_scope r.context scope ≡ true)
      × (r' ≡ r)
unfolding require_service_scope
require_service_scope-passed scope r r' h = elim (Option-cases r.context.service_identity) [
  | inl e ↦ absurd (ground arith)
  | inr (info, e) ↦ (info, e, ground arith, ground arith)
]

-- What passes the validation of a key.
authenticate-passed :
    (validator : Validator) (key : Text) (r r' : Request)
    → authenticate validator key r ≡ passed r'
    → (o : Option ServiceKeyInfo) × (validator key ≡ ok o)
      × (r' ≡ with_context (with_service_identity o r.context) r)
unfolding authenticate
authenticate-passed validator key r r' h = by_answer (validator key) refl h
  where
    by_answer :
        (a : Result Text (Option ServiceKeyInfo))
        → validator key ≡ a
        → ◌≡◌ {A = Verdict}
            (elim a [
              | err e ↦ answered 401 (codes "INVALID_API_KEY")
              | ok info ↦ passed (with_context (with_service_identity info r.context) r)
            ])
            (passed r')
        → (o : Option ServiceKeyInfo) × (validator key ≡ ok o)
          × (r' ≡ with_context (with_service_identity o r.context) r)
    by_answer (err e) v k = absurd (cc)
    by_answer (ok o) v k = (o, v, sym (passed-injective k))

-- What passes the authentication.
service_auth_required-passed :
    (validator : Validator) (r r' : Request)
    → service_auth_required validator r ≡ passed r'
    → (text_eq (service_key_from_request r) [] ≡ false)
      × (authenticate validator (service_key_from_request r) r ≡ passed r')
unfolding service_auth_required
service_auth_required-passed validator r r' h =
    elim (Bool-cases (text_eq (service_key_from_request r) [])) [
      | inl e ↦ absurd (cc (rw e at h))
      | inr e ↦ (e, rw e at h)
    ]

-- A request that reaches a handler behind ServiceAuthRequired and RequireServiceScope carries a key
-- that the validator accepts, for an identity that holds the scope or the scope "all", and the handler
-- sees that identity in the context of an otherwise unchanged request.
pub require_service_scope-Authorized :
    (validator : Validator) (scope : Text) (r r' : Request)
    → then_ask (service_auth_required validator r) (require_service_scope scope) ≡ passed r'
    → Authorized validator scope r r'
unfolding with_service_identity
require_service_scope-Authorized validator scope r r' h =
    by_verdict (service_auth_required validator r) refl h
  where
    build :
        (next : Request)
        → (text_eq (service_key_from_request r) [] ≡ false)
          × (authenticate validator (service_key_from_request r) r ≡ passed next)
        → require_service_scope scope next ≡ passed r'
        → Authorized validator scope r r'
    build next known k =
        let (o, accepted, changed) =
          authenticate-passed validator (service_key_from_request r) r next known.1 in
        let (info, identity, scoped, same) = require_service_scope-passed scope next r' k in
        let found : o ≡ some info = sym (ap (λ x. x.context.service_identity) changed) ∙ identity in
        record {
          info = info;
          has_key = λ e. cc (known.0, ap (λ x. text_eq x []) e, text_eq_refl []);
          accepted = accepted ∙ ap ok found;
          scoped = has_scope-OneOf next.context info scope identity scoped;
          passed_on =
              same ∙ (changed ∙ ap (λ x. with_context (with_service_identity x r.context) r) found);
        }

    by_verdict :
        (v : Verdict)
        → service_auth_required validator r ≡ v
        → then_ask v (require_service_scope scope) ≡ passed r'
        → Authorized validator scope r r'
    by_verdict (passed next) e k = build next (service_auth_required-passed validator r next e) k
    by_verdict (to_user_auth next) e k = absurd (cc)
    by_verdict (answered status code) e k = absurd (cc)
