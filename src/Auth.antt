-- ===== src/Auth.antt =====
-- Package auth: bearer tokens, identities on a request's context and roles, in auth/middleware.go and
-- auth/jwt.go. The signing and the parsing of a JWT are parameters.
pub mod Laws
mod Examples
use svckit.Base.{
  ℕ, ◌+◌, Bool, true, false, not, ◌&&◌, List, [], Option, none, some, Result, ok, err,
  if◌then◌else◌,
}
use svckit.Base.Text.{Text, codes, text_eq, has_prefix, trim_prefix, trim_space}
use svckit.Middleware.Context.{contains_text}

pub record Identity : Type 0 where
  pub user_id : Text
  pub roles : List Text

unfoldable pub has_role : Identity → Text → Bool
unfolding contains_text
has_role i role = contains_text role i.roles

-- `Identify(ctx, token)`
abbrev pub IdentityProvider : Type 0
IdentityProvider = Text → Result Text Identity

-- What the package attaches to a request's context: the identity, and the legacy keys.
pub record UserContext : Type 0 where
  pub identity : Option Identity
  pub legacy_user : Option Text
  pub legacy_roles : Option (List Text)

-- A request: its Authorization header, empty where it has none, and its context.
pub record AuthRequest : Type 0 where
  pub authorization : Text
  pub context : UserContext

unfoldable pub with_identity : Identity → UserContext → UserContext
with_identity i ctx = record ctx { identity = some i }

-- `IdentityFromContext(ctx)`; `none` for its false.
unfoldable pub identity_from_context : UserContext → Option Identity
identity_from_context ctx = elim ctx.identity [
  | none ↦ none
  | some i ↦ if text_eq i.user_id [] then none else some i
]

abbrev pub roles_of : UserContext → Option (List Text)
roles_of ctx = elim (identity_from_context ctx) [ none ↦ none | some i ↦ some i.roles ]

unfoldable pub set_user_context : Text → List Text → UserContext → UserContext
unfolding with_identity
set_user_context user roles ctx =
    record (with_identity (record { user_id = user; roles = roles }) ctx) {
      legacy_user = some user;
      legacy_roles = some roles;
    }

abbrev pub legacy_pair : Option Text → Option (List Text) → Option (Text × List Text)
legacy_pair none roles = none
legacy_pair (some user) none = none
legacy_pair (some user) (some roles) = some (user, roles)

unfoldable pub get_user_from_context : UserContext → Option (Text × List Text)
unfolding identity_from_context
get_user_from_context ctx = elim (identity_from_context ctx) [
  | some i ↦ some (i.user_id, i.roles)
  | none ↦ legacy_pair ctx.legacy_user ctx.legacy_roles
]

-- `BearerToken(r)`; `none` for its false.
unfoldable pub bearer_token : Text → Option Text
unfolding has_prefix trim_prefix trim_space
bearer_token header =
    if has_prefix header (codes "Bearer ")
    then some (trim_space (trim_prefix header (codes "Bearer ")))
    else none

-- The request for the next handler, or the status and the message of the answer.
pub data Reply : Type 0 where
  admitted : AuthRequest → Reply
  rejected : ℕ → Text → Reply

unfoldable pub identified : IdentityProvider → Text → AuthRequest → Reply
unfolding with_identity
identified provider token r = elim (provider token) [
  | err e ↦ rejected 401 (codes "Invalid token")
  | ok i ↦ admitted (record r { context = with_identity i r.context })
]

-- `Authenticate(provider)`
unfoldable pub authenticate : IdentityProvider → AuthRequest → Reply
unfolding bearer_token identified
authenticate provider r =
    if text_eq r.authorization []
    then rejected 401 (codes "Authorization header required")
    else elim (bearer_token r.authorization) [
      | none ↦ rejected 401 (codes "Invalid authorization format")
      | some token ↦ identified provider token r
    ]

abbrev pub admin_role : Text
admin_role = codes "admin"

-- `RequireRole(role)`
unfoldable pub require_role : Text → AuthRequest → Reply
unfolding identity_from_context has_role
require_role role r = elim (identity_from_context r.context) [
  | none ↦ rejected 403 (codes "No roles found")
  | some i ↦
      if not (has_role i admin_role) && not (has_role i role)
      then rejected 403 (codes "Insufficient permissions")
      else admitted r
]

-- One middleware around another.
abbrev pub then_require : Reply → (AuthRequest → Reply) → Reply
then_require (admitted r) next = next r
then_require (rejected status message) next = rejected status message

-- The claims of a token, with the instants that it registers.
pub record Claims : Type 0 where
  pub user_id : Text
  pub roles : List Text
  pub subject : Text
  pub issued_at : ℕ
  pub expires_at : ℕ

-- What jwt.ParseWithClaims gives: an error, or the claims and whether they are valid.
abbrev pub Parser : Type 0
Parser = (secret token : Text) → Result Text (Claims × Bool)

abbrev pub invalid_token : Text
invalid_token = codes "invalid token"

abbrev pub if_valid : Result Text (Claims × Bool) → Result Text Claims
if_valid (err e) = err e
if_valid (ok (claims, false)) = err invalid_token
if_valid (ok (claims, true)) = ok claims

-- `GenerateToken(userID, roles)` and `ValidateToken(tokenString)` of a manager.
unfoldable pub generate_token :
    ((secret : Text) → Claims → Result Text Text)
    → (secret : Text) → (expiry now : ℕ) → Text
    → List Text
    → Result Text Text
generate_token sign secret expiry now user roles = sign secret (record {
  user_id = user;
  roles = roles;
  subject = user;
  issued_at = now;
  expires_at = now + expiry;
})

unfoldable pub validate_token : Parser → Text → Text → Result Text Claims
validate_token parse secret token = if_valid (parse secret token)

abbrev pub identity_of : Result Text Claims → Result Text Identity
identity_of (err e) = err e
identity_of (ok claims) = ok (record { user_id = claims.user_id; roles = claims.roles })

-- `Identify` of the manager.
unfoldable pub identify : Parser → Text → IdentityProvider
unfolding validate_token
identify parse secret token = identity_of (validate_token parse secret token)
