-- ===== src/Auth/Examples.antt =====
-- A test of the model of package auth, and its theorem at a concrete request.
use svckit.Base.{◌≡◌, refl, [], ◌∷◌, none, some, ok, err, if◌then◌else◌}
use svckit.Base.Text.{codes, text_eq, has_prefix, trim_prefix, trim_space}
use svckit.Middleware.Context.{contains_text}
use svckit.Auth.{
  Identity, IdentityProvider, AuthRequest, UserContext, with_identity, identity_from_context,
  has_role, bearer_token, identified, authenticate, require_role, then_require, admitted, rejected,
  set_user_context, get_user_from_context,
}
use svckit.Auth.Laws.{Admitted, authenticate-Admitted}

abbrev ada : Identity
ada = record { user_id = codes "ada"; roles = codes "editor" ∷ [] }

abbrev sessions : IdentityProvider
sessions = λ token. if text_eq token (codes "t1") then ok ada else err (codes "unknown")

abbrev fresh_context : UserContext
fresh_context = record { identity = none; legacy_user = none; legacy_roles = none }

abbrev request : AuthRequest
request = record { authorization = codes "Bearer t1"; context = fresh_context }

abbrev request_of_ada : AuthRequest
request_of_ada = record request { context = record fresh_context { identity = some ada } }

admitted_test :
    then_require (authenticate sessions request) (require_role (codes "editor"))
    ≡ admitted request_of_ada
unfolding authenticate bearer_token identified require_role identity_from_context has_role
    contains_text with_identity text_eq has_prefix trim_prefix trim_space
admitted_test = refl

forbidden_test :
    then_require (authenticate sessions request) (require_role (codes "owner"))
    ≡ rejected 403 (codes "Insufficient permissions")
unfolding authenticate bearer_token identified require_role identity_from_context has_role
    contains_text with_identity text_eq has_prefix trim_prefix trim_space
forbidden_test = refl

legacy_test :
    get_user_from_context (set_user_context (codes "ada") [] fresh_context) ≡ some (codes "ada", [])
unfolding get_user_from_context set_user_context with_identity identity_from_context text_eq
legacy_test = refl

authenticate-Admitted_example : Admitted sessions (codes "editor") request request_of_ada
authenticate-Admitted_example =
    authenticate-Admitted sessions (codes "editor") request request_of_ada admitted_test
