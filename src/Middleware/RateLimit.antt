-- ===== src/Middleware/RateLimit.antt =====
-- The rate limiter of middleware/rate_limiting.go. Redis is a parameter: its commands, each on the
-- state of the server at an instant, which counts nanoseconds from the Unix epoch.
pub mod Keys
pub mod Reliable
pub mod Window
use svckit.Base.{
  ℕ, ◌+◌, ◌-◌, ◌*◌, ◌/◌, ◌^◌, ◌==◌, ltb, leb, Bool, true, false, ◌&&◌, ◌||◌, List, [], ◌∷◌, ◌++◌,
  Option, none, some, Result, ok, err, if◌then◌else◌,
}
use svckit.Base.Int.{ℤ, pos, negsuc}
use svckit.Base.Text.{
  Text, codes, text_eq, contains, has_prefix, to_lower, to_upper, itoa, atoi, clamped,
}
use svckit.Middleware.Context.{Request, user_id_of, service_name_of, client_ip}

pub data EndpointType : Type 0 where
  auth user_data upload admin public internal healthy : EndpointType

-- The text of an endpoint type.
abbrev pub endpoint_text : EndpointType → Text
endpoint_text auth = codes "auth"
endpoint_text user_data = codes "data"
endpoint_text upload = codes "upload"
endpoint_text admin = codes "admin"
endpoint_text public = codes "public"
endpoint_text internal = codes "internal"
endpoint_text healthy = codes "health"

-- Durations are nanoseconds.
pub record RateLimitConfig : Type 0 where
  pub requests_per_minute : ℕ
  pub burst_allowance : ℕ
  pub block_duration : ℕ

abbrev pub second : ℕ
second = 1_000_000_000

abbrev pub minute : ℕ
minute = 60_000_000_000

abbrev config : ℕ → ℕ → ℕ → RateLimitConfig
config rpm burst block = record {
  requests_per_minute = rpm;
  burst_allowance = burst;
  block_duration = block;
}

unfoldable pub rate_limit_config : EndpointType → RateLimitConfig
rate_limit_config auth = config 10 3 300_000_000_000
rate_limit_config user_data = config 60 10 60_000_000_000
rate_limit_config upload = config 20 5 120_000_000_000
rate_limit_config admin = config 30 5 60_000_000_000
rate_limit_config public = config 100 20 30_000_000_000
rate_limit_config internal = config 200 50 30_000_000_000
rate_limit_config healthy = config 0 0 0

unfoldable pub contains_any : Text → List Text → Bool
unfolding contains
contains_any s [] = false
contains_any s (t ∷ ts) = contains s t || contains_any s ts

unfoldable pub classify : Text → Text → EndpointType
unfolding contains_any text_eq
classify path method =
    if contains_any path (codes "/health" ∷ codes "/ready" ∷ codes "/metrics" ∷ [])
    then healthy
    else if contains_any path (codes "/internal" ∷ codes "/service-auth" ∷ [])
    then internal
    else if contains_any path (codes "/auth" ∷ codes "/login" ∷ codes "/logout" ∷ [])
    then auth
    else if text_eq method (codes "POST")
        && contains_any path (codes "/upload" ∷ codes "/documents" ∷ [])
    then upload
    else if contains_any path (codes "/admin" ∷ codes "/service-keys" ∷ [])
    then admin
    else if text_eq method (codes "GET")
        && contains_any path (codes "/public" ∷ codes "/verify-email" ∷ codes "/status" ∷ [])
    then public
    else user_data

-- `ClassifyEndpoint(path, method)`
unfoldable pub classify_endpoint : Text → Text → EndpointType
unfolding classify to_lower to_upper
classify_endpoint path method = classify (to_lower path) (to_upper method)

abbrev pub or_unknown : Text → Text
or_unknown ip = if text_eq ip [] then codes "unknown" else ip

unfoldable pub client_identifier : Request → Text
client_identifier r = elim (user_id_of r.context) [
  | some id ↦ codes "user:" ++ id
  | none ↦ elim (service_name_of r.context) [
    | some name ↦ codes "service:" ++ name
    | none ↦ codes "ip:" ++ or_unknown (client_ip r)
  ]
]

-- The commands of a Redis server. `get` answers `ok none` for the error "redis: nil"; `incr_expire`
-- is the pipeline of INCR and EXPIRE.
pub record Redis (S : Type 0) : Type 0 where
  pub exists : ℕ → Text → S → Result Text ℕ
  pub ttl : ℕ → Text → S → ℕ
  pub get : ℕ → Text → S → Result Text (Option Text)
  pub set_for : ℕ → Text → Text → ℕ → S → S × Option Text
  pub incr_expire : ℕ → Text → ℕ → S → S × Option Text

-- The second at which the minute of an instant begins.
abbrev pub window_start : ℕ → ℕ
window_start now = now / minute * 60

unfoldable pub count_key : Text → Text → EndpointType → ℕ → Text
unfolding itoa
count_key service client t window =
    codes "rate_limit:"
    ++ (service ++ (58 ∷ (client ++ (58 ∷ (endpoint_text t ++ (58 ∷ itoa window))))))

unfoldable pub block_key : Text → Text → EndpointType → Text
block_key service client t =
    codes "rate_limit_block:" ++ (service ++ (58 ∷ (client ++ (58 ∷ endpoint_text t))))

-- The call that failed, with its error.
pub data LimitError : Type 0 where
  block_unknown count_unknown block_not_set count_not_kept : Text → LimitError

-- A metric that is recorded.
pub data LimitMetric : Type 0 where
  check_recorded : EndpointType → Bool → LimitMetric
  exceeded_recorded : EndpointType → Text → LimitMetric
  limit_error_recorded : EndpointType → LimitError → LimitMetric

-- The kind of client in `RecordRateLimitExceeded`.
unfoldable pub client_type : Text → Text
unfolding has_prefix
client_type client =
    if has_prefix client (codes "user:")
    then codes "user"
    else if has_prefix client (codes "service:")
    then codes "service"
    else if has_prefix client (codes "ip:")
    then codes "ip"
    else codes "unknown"

-- What `IsAllowed` returns: whether the request may pass, and the seconds until it may be repeated.
abbrev pub Answer : Type 0
Answer = Result LimitError (Bool × ℕ)

-- The count of a text, whose error is ignored.
abbrev pub count_of : Option Text → ℤ
count_of none = pos 0
count_of (some s) = elim (atoi s) [ none ↦ clamped s | some n ↦ n ]

abbrev pub at_least : ℤ → ℕ → Bool
at_least (pos n) limit = leb limit n
at_least (negsuc n) limit = false

module _ {S : Type 0} (redis : Redis S) (service : Text) where
  -- The counter is incremented and the request passes.
  unfoldable pub admit : ℕ → Text → EndpointType → S → S × Answer × List LimitMetric
  admit now client t s =
      let r = redis.incr_expire now (count_key service client t (window_start now)) minute s in
      elim r.1 [
        | some e ↦ (r.0, err (count_not_kept e), [])
        | none ↦ (r.0, ok (true, 0), check_recorded t true ∷ [])
      ]

  -- The client is blocked.
  unfoldable pub block : ℕ → Text → EndpointType → S → S × Answer × List LimitMetric
  block now client t s =
      let c = rate_limit_config t in
      let r = redis.set_for now (block_key service client t) (codes "1") c.block_duration s in
      elim r.1 [
        | some e ↦ (r.0, err (block_not_set e), [])
        | none ↦ (
          r.0,
          ok (false, c.block_duration / second),
          exceeded_recorded t (client_type client) ∷ [],
        )
      ]

  -- From the count on.
  unfoldable pub count : ℕ → Text → EndpointType → S → S × Answer × List LimitMetric
  unfolding admit block
  count now client t s =
      let c = rate_limit_config t in
      elim (redis.get now (count_key service client t (window_start now)) s) [
        | err e ↦ (s, err (count_unknown e), [])
        | ok value ↦
            if at_least (count_of value) (c.requests_per_minute + c.burst_allowance)
            then block now client t s
            else admit now client t s
      ]

  unfoldable pub is_allowed : ℕ → Text → EndpointType → S → S × Answer × List LimitMetric
  unfolding count
  is_allowed now client t s =
      if (rate_limit_config t).requests_per_minute == 0
      then (s, ok (true, 0), [])
      else elim (redis.exists now (block_key service client t) s) [
        | err e ↦ (s, err (block_unknown e), [])
        | ok blocked ↦
            if ltb 0 blocked
            then (s, ok (false, redis.ttl now (block_key service client t) s / second), [])
            else count now client t s
      ]

  -- What the middleware does with a request: it goes to the next handler, or is answered 429 with the
  -- seconds after which to retry.
  pub data Passage : Type 0 where
    served : Passage
    too_many_requests : ℕ → Passage

  unfoldable pub pass :
      EndpointType → S × Answer × List LimitMetric → S × Passage × List LimitMetric
  pass t (s, err e, ms) = (s, served, ms ++ limit_error_recorded t e ∷ [])
  pass t (s, ok (true, retry_after), ms) = (s, served, ms)
  pass t (s, ok (false, retry_after), ms) =
      (s, too_many_requests retry_after, ms ++ check_recorded t false ∷ [])

  -- The handler of `RateLimit`.
  unfoldable pub rate_limit : ℕ → Request → S → S × Passage × List LimitMetric
  unfolding is_allowed pass
  rate_limit now r s =
      let t = classify_endpoint r.path r.method in pass t (is_allowed now (client_identifier r) t s)
