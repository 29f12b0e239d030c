-- ===== src/Middleware/Examples.antt =====
-- Tests of the model of package middleware, and its theorems at concrete requests.
use svckit.Base.{
  ℕ, zero, suc, ◌+◌, ◌*◌, ◌≡◌, refl, false, List, [], ◌∷◌, Option, none, some, ok, err, arith,
  if◌then◌else◌, ltb, ◌/◌,
}
use svckit.Base.Int.{ℤ, pos, negsuc}
use svckit.Base.Text.{
  Text, codes, text_eq, itoa, atoi, clamped, contains, to_lower, to_upper, trim_space,
}
use svckit.Middleware.Context.{
  ServiceKeyInfo, Context, Request, client_ip, split_host, user_id_of, service_name_of,
  with_service_identity,
}
use svckit.Middleware.RateLimit.{
  auth, user_data, upload, classify_endpoint, client_identifier, Redis, count_of, minute, second,
  rate_limit_config,
}
use svckit.Middleware.RateLimit.Keys.{caller_of, count_key-injective}
use svckit.Middleware.RateLimit.Reliable.{IsReliable}
use svckit.Middleware.RateLimit.Window.{answers, first_pass, answers_of_minute}
use svckit.Middleware.ServiceAuth.{
  Validator, passed, service_auth_required, require_service_scope, then_ask,
  service_key_from_request, with_context,
}
use svckit.Middleware.ServiceAuth.Laws.{Authorized, require_service_scope-Authorized}
use svckit.Middleware.Cors.{cors, cors_with_origins}
use svckit.Middleware.Pagination.{query_int, pagination}

abbrev anonymous : Context
anonymous = record { service_identity = none; auth_type = none; user_id = none; route = none }

abbrev login : Request
login = record {
  path = codes "/api/Login";
  method = codes "post";
  header = λ name. if text_eq name (codes "X-API-Key") then codes "k1" else [];
  remote_addr = codes "[::1]:8080";
  context = anonymous;
}

classify_endpoint_test :
    (classify_endpoint (codes "/api/Login") (codes "post") ≡ auth)
    × (classify_endpoint (codes "/documents") (codes "post") ≡ upload)
    × (classify_endpoint (codes "/users") (codes "get") ≡ user_data)
unfolding classify_endpoint contains to_lower to_upper text_eq
classify_endpoint_test = (refl, refl, refl)

client_identifier_test : client_identifier login ≡ codes "ip:::1"
unfolding client_identifier client_ip text_eq trim_space user_id_of service_name_of
client_identifier_test = refl

split_host_test :
    (split_host (codes "10.0.0.1:80") ≡ some (codes "10.0.0.1"))
    × (split_host (codes "::1") ≡ none)
    × (split_host (codes "localhost") ≡ none)
unfolding split_host
split_host_test = (refl, refl, refl)

count_key-injective_example :
    (caller_of login ≡ caller_of login)
    × (auth ≡ auth)
    × (90 * second / minute ≡ 119 * second / minute)
count_key-injective_example =
    count_key-injective (codes "billing") login login auth auth (90 * second) (119 * second) refl

-- A server whose state says what each key holds at each instant.
abbrev Memory : Type 0
Memory = Text → ℕ → Option Text

abbrev next_count : ℤ → Text
next_count (pos n) = itoa (suc n)
next_count (negsuc n) = itoa 0

abbrev memory : Redis Memory
memory = record {
  exists = λ now k s. ok (elim (s k now) [ none ↦ 0 | some v ↦ 1 ]);
  ttl = λ now k s. 0;
  get = λ now k s. ok (s k now);
  set_for = λ now k v d s.
      (λ j u. if text_eq j k then (if ltb u (now + d) then some v else none) else s j u, none);
  incr_expire = λ now k d s. (
    λ j u.
        if text_eq j k
        then (if ltb u (now + d) then some (next_count (count_of (s k now))) else none)
        else s j u,
    none,
  );
}

memory-IsReliable : IsReliable memory (λ u k s. s k u)
memory-IsReliable = record {
  exists_law = λ now k s. refl;
  get_law = λ now k s. refl;
  set_answers = λ now k v d s. refl;
  set_value = λ now later j k v d s h. refl;
  incr_answers = λ now k d s. refl;
  incr_value = λ now later j k d n s h c. rw c refl;
}

-- Fifteen logins in the second minute, of which thirteen pass.
abbrev attempts : ℕ → List ℕ
attempts zero = []
attempts (suc n) = (90 * second) ∷ attempts n

answers_of_minute_example :
    answers memory (codes "billing") (codes "ip:::1") auth (attempts 15) (λ k u. none)
    ≡ first_pass 13 (attempts 15)
unfolding rate_limit_config
answers_of_minute_example =
    answers_of_minute memory (λ u k s. s k u) (codes "billing") (codes "ip:::1") auth 1
      (attempts 15) (λ k u. none) memory-IsReliable (λ e. absurd (omega (arith, e))) (λ u. refl)
      (λ u. refl) (omega arith)

abbrev billing : ServiceKeyInfo
billing = record { service_name = codes "billing"; scopes = codes "read" ∷ []; expires_at = none }

abbrev keys : Validator
keys = λ key. if text_eq key (codes "k1") then ok (some billing) else err (codes "unknown key")

abbrev admitted : Request
admitted = with_context (with_service_identity (some billing) anonymous) login

admitted_test :
    then_ask (service_auth_required keys login) (require_service_scope (codes "read"))
    ≡ passed admitted
unfolding service_auth_required require_service_scope service_key_from_request text_eq
    with_service_identity
admitted_test = refl

require_service_scope-Authorized_example : Authorized keys (codes "read") login admitted
require_service_scope-Authorized_example =
    require_service_scope-Authorized keys (codes "read") login admitted admitted_test

cors_test : (cors (cors_with_origins (codes "https://a" ∷ [])) login).1 ≡ false
unfolding cors cors_with_origins text_eq
cors_test = refl

pagination_test : pagination (codes "500") (codes "-3") ≡ record { limit = pos 100; offset = pos 0 }
unfolding pagination query_int atoi text_eq
pagination_test = refl

-- Out of range the nearest int64 is given, even before a character that is no digit.
clamped_test :
    (clamped (codes "9223372036854775808") ≡ pos 9_223_372_036_854_775_807)
    × (clamped (codes "-9223372036854775809") ≡ negsuc 9_223_372_036_854_775_807)
    × (clamped (codes "99999999999999999999x") ≡ pos 9_223_372_036_854_775_807)
    × (clamped (codes "9223372036854775808x") ≡ pos 0)
unfolding clamped
clamped_test = (refl, refl, refl, refl)
