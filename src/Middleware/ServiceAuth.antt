-- ===== src/Middleware/ServiceAuth.antt =====
-- Service authentication: middleware/serviceauth.go. A middleware passes a request on, perhaps with
-- another context, or answers it. The validator is the caller's.
pub mod Laws
use svckit.Base.{ℕ, [], Option, none, some, Result, ok, err, if◌then◌else◌}
use svckit.Base.Text.{Text, codes, text_eq, has_prefix, trim_prefix, trim_space}
use svckit.Middleware.Context.{
  ServiceKeyInfo, auth_type_user, Context, Request, with_service_identity, with_auth_type,
  has_scope,
}

-- The key of a request: the header X-API-Key, or else a bearer token.
unfoldable pub service_key_from_request : Request → Text
unfolding trim_prefix trim_space has_prefix
service_key_from_request r =
    if text_eq (r.header (codes "X-API-Key")) []
    then (if has_prefix (r.header (codes "Authorization")) (codes "Bearer ")
        then trim_space (trim_prefix (r.header (codes "Authorization")) (codes "Bearer "))
        else [])
    else r.header (codes "X-API-Key")

-- `ValidateServiceKey`, whose identity may be nil.
abbrev pub Validator : Type 0
Validator = Text → Result Text (Option ServiceKeyInfo)

-- The request for the next handler, or for the one behind the user's authentication, or the status
-- and the code of the answer.
pub data Verdict : Type 0 where
  passed to_user_auth : Request → Verdict
  answered : ℕ → Text → Verdict

abbrev pub with_context : Context → Request → Request
with_context ctx r = record r { context = ctx }

-- With a key: its validation.
unfoldable pub authenticate : Validator → Text → Request → Verdict
authenticate validator key r = elim (validator key) [
  | err e ↦ answered 401 (codes "INVALID_API_KEY")
  | ok info ↦ passed (with_context (with_service_identity info r.context) r)
]

unfoldable pub service_auth_required : Validator → Request → Verdict
unfolding authenticate
service_auth_required validator r =
    let key = service_key_from_request r in
    if text_eq key [] then answered 401 (codes "MISSING_API_KEY") else authenticate validator key r

unfoldable pub optional_service_auth : Validator → Request → Verdict
unfolding authenticate
optional_service_auth validator r =
    let key = service_key_from_request r in
    if text_eq key [] then passed r else authenticate validator key r

unfoldable pub service_auth_or_user_auth : Validator → Request → Verdict
unfolding authenticate
service_auth_or_user_auth validator r =
    let key = service_key_from_request r in
    if text_eq key []
    then to_user_auth (with_context (with_auth_type auth_type_user r.context) r)
    else authenticate validator key r

unfoldable pub require_service_scope : Text → Request → Verdict
unfolding has_scope
require_service_scope scope r = elim r.context.service_identity [
  | none ↦ answered 403 (codes "NO_SERVICE_SCOPES")
  | some info ↦
      if has_scope r.context scope then passed r else answered 403 (codes "INSUFFICIENT_SCOPE")
]

-- One middleware around another.
abbrev pub then_ask : Verdict → (Request → Verdict) → Verdict
then_ask (passed r) next = next r
then_ask (to_user_auth r) next = to_user_auth r
then_ask (answered status code) next = answered status code
