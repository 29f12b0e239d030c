-- ===== src/Middleware/Cors.antt =====
-- CORS: middleware/cors.go. The origins, methods and headers are those of the options, and `max_age`
-- is in seconds, of which 0 stands for 12 hours.
use svckit.Base.{ℕ, ◌==◌, Bool, true, ◌||◌, List, [], ◌∷◌, ◌++◌, if◌then◌else◌}
use svckit.Base.Text.{Text, codes, text_eq, join, itoa}
use svckit.Middleware.Context.{Request, contains_text}

pub record CorsOptions : Type 0 where
  pub allowed_origins : List Text
  pub allowed_methods : List Text
  pub allowed_headers : List Text
  pub allow_credentials : Bool
  pub max_age : ℕ

abbrev pub default_cors_headers : List Text
default_cors_headers =
    codes "Content-Type"
    ∷ codes "Content-Length"
    ∷ codes "Accept-Encoding"
    ∷ codes "X-CSRF-Token"
    ∷ codes "Authorization"
    ∷ codes "accept"
    ∷ codes "origin"
    ∷ codes "Cache-Control"
    ∷ codes "X-Requested-With"
    ∷ codes "X-Trace-ID"
    ∷ codes "X-User-ID"
    ∷ codes "traceparent"
    ∷ []

abbrev pub default_cors_methods : List Text
default_cors_methods =
    codes "GET" ∷ codes "POST" ∷ codes "PUT" ∷ codes "DELETE" ∷ codes "OPTIONS" ∷ []

abbrev pub or_default : List Text → List Text → List Text
or_default [] d = d
or_default (s ∷ ss) d = s ∷ ss

unfoldable pub allowed_origin : List Text → Text → Text
unfolding contains_text
allowed_origin [] origin = []
allowed_origin (first ∷ allowed) origin =
    if contains_text (codes "*") (first ∷ allowed) || contains_text origin (first ∷ allowed)
    then (if text_eq origin [] then first else origin)
    else first

abbrev pub when : Bool → Text → Text → List (Text × Text)
when b k v = if b then (k, v) ∷ [] else []

-- The headers that are set, and whether the request is answered with 204.
unfoldable pub cors : CorsOptions → Request → List (Text × Text) × Bool
unfolding allowed_origin join itoa
cors opts r =
    let origin = allowed_origin opts.allowed_origins (r.header (codes "Origin")) in
    (
      (if text_eq origin [] then [] else (codes "Access-Control-Allow-Origin", origin) ∷ [])
          ++ (when opts.allow_credentials (codes "Access-Control-Allow-Credentials") (codes "true")
              ++ ((
                codes "Access-Control-Allow-Headers",
                join (or_default opts.allowed_headers default_cors_headers) (codes ", "),
              )
                  ∷ (
                    codes "Access-Control-Allow-Methods",
                    join (or_default opts.allowed_methods default_cors_methods) (codes ", "),
                  )
                  ∷ (
                    codes "Access-Control-Max-Age",
                    itoa (if opts.max_age == 0 then 43_200 else opts.max_age),
                  )
                  ∷ [])),
      text_eq r.method (codes "OPTIONS"),
    )

unfoldable pub cors_with_origins : List Text → CorsOptions
cors_with_origins origins = record {
  allowed_origins = origins;
  allowed_methods = [];
  allowed_headers = [];
  allow_credentials = true;
  max_age = 0;
}
