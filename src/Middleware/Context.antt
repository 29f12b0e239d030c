-- ===== src/Middleware/Context.antt =====
-- Requests and what their context carries: middleware/context.go and middleware/serviceauth.go.
use svckit.Base.{
  ℕ, ◌==◌, Bool, true, false, not, ◌||◌, List, [], ◌∷◌, Option, none, some, if◌then◌else◌,
}
use svckit.Base.Text.{Text, codes, text_eq, before, contains, cut, trim_space, is_some}

pub record ServiceKeyInfo : Type 0 where
  pub service_name : Text
  pub scopes : List Text
  pub expires_at : Option ℕ

pub data AuthType : Type 0 where
  auth_type_service auth_type_user : AuthType

-- A route's pattern, or the function that gives it at the moment that it is read.
pub data RouteValue : Type 0 where
  pattern : Text → RouteValue
  resolver : (ℕ → Text) → RouteValue

-- What this package attaches to a request's context. A nil identity is none.
pub record Context : Type 0 where
  pub service_identity : Option ServiceKeyInfo
  pub auth_type : Option AuthType
  pub user_id : Option Text
  pub route : Option RouteValue

-- A request; `header` is `Header.Get`, the empty text for a header that is not there.
pub record Request : Type 0 where
  pub path : Text
  pub method : Text
  pub header : Text → Text
  pub remote_addr : Text
  pub context : Context

unfoldable pub with_service_identity : Option ServiceKeyInfo → Context → Context
with_service_identity info ctx = record ctx {
  service_identity = info;
  auth_type = some auth_type_service;
}

unfoldable pub with_auth_type : AuthType → Context → Context
with_auth_type a ctx = record ctx { auth_type = some a }

unfoldable pub with_user_id : Text → Context → Context
with_user_id id ctx = record ctx { user_id = some id }

unfoldable pub with_route : Text → Context → Context
with_route s ctx = record ctx { route = some (pattern s) }

unfoldable pub with_route_func : (ℕ → Text) → Context → Context
with_route_func resolve ctx = record ctx { route = some (resolver resolve) }

abbrev pub non_blank : Text → Option Text
non_blank s = if text_eq s [] then none else some s

-- The user, and the name of the service, where there is one that is not empty.
unfoldable pub user_id_of : Context → Option Text
user_id_of ctx = elim ctx.user_id [ none ↦ none | some id ↦ non_blank id ]

unfoldable pub service_name_of : Context → Option Text
service_name_of ctx = elim ctx.service_identity [
  | none ↦ none
  | some info ↦ non_blank info.service_name
]

unfoldable pub contains_text : Text → List Text → Bool
unfolding text_eq
contains_text a [] = false
contains_text a (s ∷ ss) = text_eq s a || contains_text a ss

unfoldable pub has_scope : Context → Text → Bool
unfolding contains_text
has_scope ctx scope = elim ctx.service_identity [
  | none ↦ false
  | some info ↦ contains_text scope info.scopes || contains_text (codes "all") info.scopes
]

unfoldable pub is_service_authenticated : Context → Bool
is_service_authenticated ctx = elim ctx.auth_type [
  | some a ↦ elim a [ auth_type_service ↦ true | auth_type_user ↦ false ]
  | none ↦ is_some ctx.service_identity
]

abbrev pub pattern_at : ℕ → RouteValue → Text
pattern_at now (pattern s) = s
pattern_at now (resolver resolve) = resolve now

-- `Route(r)`, read at `now`: the pattern, or the path.
unfoldable pub route_of : ℕ → Request → Text
route_of now r = elim r.context.route [
  | none ↦ r.path
  | some v ↦ if text_eq (pattern_at now v) [] then r.path else pattern_at now v
]

-- The host of net.SplitHostPort, `none` for an error.
unfoldable pub plain_host : Text → Option Text
plain_host s = elim (cut (58 ∷ []) s) [
  | none ↦ none
  | some (host, port) ↦
      if contains port (58 ∷ []) || contains s (91 ∷ []) || contains s (93 ∷ [])
      then none
      else some host
]

unfoldable pub bracketed_host : Text → Option Text
bracketed_host s = elim (cut (93 ∷ []) s) [
  | none ↦ none
  | some (host, rest) ↦ elim rest [
    | [] ↦ none
    | c ∷ port ↦
        if not (c == 58)
          || contains port (58 ∷ [])
          || contains s (91 ∷ [])
          || contains port (93 ∷ [])
        then none
        else some host
  ]
]

unfoldable pub split_host : Text → Option Text
unfolding plain_host bracketed_host contains cut
split_host [] = none
split_host (c ∷ s) = if c == 91 then bracketed_host s else plain_host (c ∷ s)

-- The first entry of a forwarding header.
unfoldable pub forwarded : Text → Option Text
unfolding before cut trim_space
forwarded fwd = if text_eq fwd [] then none else non_blank (trim_space (before (44 ∷ []) fwd))

unfoldable pub client_ip : Request → Text
unfolding forwarded split_host
client_ip r = elim (forwarded (r.header (codes "X-Forwarded-For"))) [
  | some ip ↦ ip
  | none ↦ elim (non_blank (trim_space (r.header (codes "X-Real-IP")))) [
    | some ip ↦ ip
    | none ↦ elim (split_host r.remote_addr) [ some host ↦ host | none ↦ r.remote_addr ]
  ]
]
