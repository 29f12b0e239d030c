-- ===== src/Auth/Laws.antt =====
-- About what a request has shown when it reaches a handler behind Authenticate and RequireRole of
-- auth/middleware.go.
use svckit.Base.{
  ℕ, ◌≡◌, ◌≢◌, ◌⊎◌, inl, inr, refl, ap, sym, ◌∙◌, true, false, [], some, Result, ok, err, arith,
  Bool-cases, Option-cases,
}
use svckit.Base.Text.{Text, text_eq}
use svckit.Base.Text.Laws.{text_eq_refl}
use svckit.Middleware.ServiceAuth.Laws.{OneOf, contains_text-OneOf}
use svckit.Auth.{
  Identity, has_role, IdentityProvider, AuthRequest, with_identity, identity_from_context,
  bearer_token, Reply, admitted, rejected, identified, authenticate, admin_role, require_role,
  then_require,
}

-- A request with a token that the provider accepts, for a user with the role or an administrator.
pub record Admitted (provider : IdentityProvider) (role : Text) (r r' : AuthRequest) : Type 0 where
  pub token : Text
  pub caller : Identity
  pub carried : bearer_token r.authorization ≡ some token
  pub accepted : provider token ≡ ok caller
  pub named : caller.user_id ≢ []
  pub allowed : OneOf admin_role caller.roles ⊎ OneOf role caller.roles
  pub passed_on : r' ≡ record r { context = with_identity caller r.context }

admitted-injective : {r r' : AuthRequest} → admitted r ≡ admitted r' → r ≡ r'
admitted-injective h = cc

forbidden-apart :
    {status : ℕ} {message : Text} {r : AuthRequest} → rejected status message ≡ admitted r → ⊥
forbidden-apart h = cc

identified-admitted :
    (provider : IdentityProvider) (token : Text) (r r' : AuthRequest) (a : Result Text Identity)
    → provider token ≡ a
    → identified provider token r ≡ admitted r'
    → (i : Identity) × (provider token ≡ ok i)
      × (r' ≡ record r { context = with_identity i r.context })
unfolding identified
identified-admitted provider token r r' (err e) p h =
    absurd (forbidden-apart (rw (identified, p) at h))
identified-admitted provider token r r' (ok i) p h =
    (i, p, sym (admitted-injective (rw (identified, p) at h)))

authenticate-admitted :
    (provider : IdentityProvider) (r r' : AuthRequest)
    → authenticate provider r ≡ admitted r'
    → (token : Text) × (bearer_token r.authorization ≡ some token)
      × (identified provider token r ≡ admitted r')
unfolding authenticate
authenticate-admitted provider r r' h = elim (Bool-cases (text_eq r.authorization [])) [
  | inl e ↦ absurd (ground arith)
  | inr e ↦ elim (Option-cases (bearer_token r.authorization)) [
    | inl b ↦ absurd (ground arith)
    | inr (token, b) ↦ (token, b, rw (authenticate, e, b) at h)
  ]
]

require_role-admitted :
    (role : Text) (r r' : AuthRequest) (i : Identity)
    → r.context.identity ≡ some i
    → require_role role r ≡ admitted r'
    → (text_eq i.user_id [] ≡ false)
      × ((has_role i admin_role ≡ true) ⊎ (has_role i role ≡ true))
      × (r' ≡ r)
unfolding require_role identity_from_context
require_role-admitted role r r' i e h = elim (Bool-cases (text_eq i.user_id [])) [
  | inl n ↦ absurd (forbidden-apart (rw (require_role, identity_from_context, e, n) at h))
  | inr n ↦ elim (Bool-cases (has_role i admin_role)) [
    | inl a ↦ (
      n,
      inl a,
      sym (admitted-injective (rw (require_role, identity_from_context, e, n, a) at h)),
    )
    | inr a ↦ elim (Bool-cases (has_role i role)) [
      | inl b ↦ (
        n,
        inr b,
        sym (admitted-injective (rw (require_role, identity_from_context, e, n, a, b) at h)),
      )
      | inr b ↦ absurd (forbidden-apart (rw (require_role, identity_from_context, e, n, a, b) at h))
    ]
  ]
]

has_role-OneOf : (i : Identity) (role : Text) → has_role i role ≡ true → OneOf role i.roles
unfolding has_role
has_role-OneOf i role h = contains_text-OneOf role i.roles h

allowed_one :
    (i : Identity) (role : Text)
    → (has_role i admin_role ≡ true) ⊎ (has_role i role ≡ true)
    → OneOf admin_role i.roles ⊎ OneOf role i.roles
allowed_one i role (inl h) = inl (has_role-OneOf i admin_role h)
allowed_one i role (inr h) = inr (has_role-OneOf i role h)

nonempty_text : (s : Text) → text_eq s [] ≡ false → s ≢ []
nonempty_text s h e = absurd (true-apart (sym (ap (λ t. text_eq t []) e ∙ text_eq_refl []) ∙ h))
  where
    true-apart : true ≡ false → ⊥
    true-apart q = cc

require_role-Admitted :
    (provider : IdentityProvider) (role token : Text) (r m r' : AuthRequest) (i : Identity)
    → bearer_token r.authorization ≡ some token
    → provider token ≡ ok i
    → m ≡ record r { context = with_identity i r.context }
    → require_role role m ≡ admitted r'
    → Admitted provider role r r'
unfolding with_identity
require_role-Admitted provider role token r m r' i b p e h =
    let (n, a, same) = require_role-admitted role m r' i (ap (λ q. q.context.identity) e) h in
    record {
      token = token;
      caller = i;
      carried = b;
      accepted = p;
      named = nonempty_text i.user_id n;
      allowed = allowed_one i role a;
      passed_on = same ∙ e;
    }

-- A request that reaches a handler behind the authentication and the test of a role has a bearer
-- token that the provider accepts, for a user with an identifier and with the role or that of an
-- administrator; it is the request that was sent, with this identity on its context.
pub authenticate-Admitted :
    (provider : IdentityProvider) (role : Text) (r r' : AuthRequest)
    → then_require (authenticate provider r) (require_role role) ≡ admitted r'
    → Admitted provider role r r'
authenticate-Admitted provider role r r' h = by_reply (authenticate provider r) refl h
  where
    by_reply :
        (a : Reply)
        → authenticate provider r ≡ a
        → then_require a (require_role role) ≡ admitted r'
        → Admitted provider role r r'
    by_reply (rejected status message) e q = absurd (cc)
    by_reply (admitted m) e q =
        let (token, b, named) = authenticate-admitted provider r m e in
        let (i, p, same) = identified-admitted provider token r m (provider token) refl named in
        require_role-Admitted provider role token r m r' i b p same q
